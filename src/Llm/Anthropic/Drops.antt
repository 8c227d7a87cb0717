-- ===== src/Llm/Anthropic/Drops.antt =====
-- What llm/anthropic.go drops of the messages of a request.
use contract_review_ai_agent.Common.{String, ◌≡◌, refl, sym, ◌∙◌, List, [], ◌∷◌}
use contract_review_ai_agent.Llm.{Role, system, user, assistant, tool, other_role, Message, message}
use contract_review_ai_agent.Llm.Anthropic.{AnthropicSdk, split_message, split_from, split_system}

-- A message without what its role has to do with tools, in front of others
abbrev pub without_tool : Role → Message → List Message → List Message
without_tool system m ms = m ∷ ms
without_tool user m ms = m ∷ ms
without_tool assistant m ms = message assistant m.content ∷ ms
without_tool tool m ms = ms
without_tool (other_role r) m ms = m ∷ ms

-- The list without the answers of tools, and with no call in an assistant's message
abbrev pub without_tools : List Message → List Message
without_tools [] = []
without_tools (m ∷ ms) = without_tool m.role m (without_tools ms)

module _ {M T P : Type 0} (sdk : AnthropicSdk M T P) where
  split_from-without_tool :
      (role : Role) (m : Message) (ms : List Message) (t : String × List M)
      → m.role ≡ role
      → split_from sdk (without_tool role m ms) t ≡ split_from sdk ms (split_message sdk role m t)
  unfolding split_from split_message
  split_from-without_tool system m ms (sys, out) h = rw h refl
  split_from-without_tool user m ms (sys, out) h = rw h refl
  split_from-without_tool assistant m ms (sys, out) h = refl
  split_from-without_tool tool m ms (sys, out) h = refl
  split_from-without_tool (other_role r) m ms (sys, out) h = rw h refl

  split_from-without_tools :
      (ms : List Message) (t : String × List M)
      → split_from sdk ms t ≡ split_from sdk (without_tools ms) t
  unfolding split_from
  split_from-without_tools [] t = refl
  split_from-without_tools (m ∷ ms) t =
      split_from-without_tools ms (split_message sdk m.role m t)
      ∙ sym (split_from-without_tool m.role m (without_tools ms) t refl)

  -- Nothing of the messages under the tool role, or of the calls of an assistant, reaches the provider: the
  -- system text and the messages are those of the list without them.
  pub split_system-without_tools :
      (ms : List Message) → split_system sdk ms ≡ split_system sdk (without_tools ms)
  unfolding split_system
  split_system-without_tools ms = split_from-without_tools ms ("", [])
