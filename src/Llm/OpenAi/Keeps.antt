-- ===== src/Llm/OpenAi/Keeps.antt =====
-- What llm/openai.go keeps of the messages of a request.
use contract_review_ai_agent.Common.{
  String, ◌≡◌, refl, ap, ◌∙◌, Option, none, some, List, [], ◌∷◌, ◌++◌, map, map-append, eq_iff,
  arith,
}
use contract_review_ai_agent.Llm.{
  Role, system, user, assistant, tool, other_role, ToolCall, Message, message,
}
use contract_review_ai_agent.Llm.OpenAi.{
  OpenAiSdk, unless_empty, to_openai_calls, to_openai_message, to_openai_assistant,
  to_openai_messages,
}

abbrev pub text_of_option : Option String → String
text_of_option none = ""
text_of_option (some s) = s

-- Readers of the SDK's messages and calls that find what the constructors were given
pub record Reads {M T P C : Type 0} (sdk : OpenAiSdk M T P C) (read : M → Message)
    (read_call : C → ToolCall) : Type 0 where
  pub system_message : (s : String) → read (sdk.system_message s) ≡ message system s
  pub user_message : (s : String) → read (sdk.user_message s) ≡ message user s
  pub assistant_message : (s : String) → read (sdk.assistant_message s) ≡ message assistant s
  pub tool_message :
      (s id : String) → read (sdk.tool_message s id) ≡ record (message tool s) { tool_call_id = id }
  pub function_call :
      (id name args : String)
      → read_call (sdk.function_call id name args) ≡ record { id = id; name = name; args = args }
  pub assistant_calls :
      (content : Option String) (calls : List C)
      → read (sdk.assistant_calls content calls)
        ≡ record (message assistant (text_of_option content)) { tool_calls = map read_call calls }

-- Calls stand only with an assistant, an identifier of a call only with a tool.
abbrev pub plain_of : Role → Message → List Message
plain_of system m = message system m.content ∷ []
plain_of user m = message user m.content ∷ []
plain_of assistant m = record (message assistant m.content) { tool_calls = m.tool_calls } ∷ []
plain_of tool m = record (message tool m.content) { tool_call_id = m.tool_call_id } ∷ []
plain_of (other_role r) m = []

abbrev pub all_plain : List Message → List Message
all_plain [] = []
all_plain (m ∷ ms) = plain_of m.role m ++ all_plain ms

text_of_option-unless_empty : (s : String) → text_of_option (unless_empty s) ≡ s
unfolding unless_empty
text_of_option-unless_empty s = ground (arith, eq_iff s "")

module _ {M T P C : Type 0} (sdk : OpenAiSdk M T P C) (read : M → Message)
    (read_call : C → ToolCall) (reads : Reads sdk read read_call) where
  map-to_openai_calls : (calls : List ToolCall) → map read_call (to_openai_calls sdk calls) ≡ calls
  unfolding to_openai_calls
  map-to_openai_calls [] = refl
  map-to_openai_calls (tc ∷ tcs) =
      rw (reads.function_call tc.id tc.name tc.args) (ap (λ t. tc ∷ t) (map-to_openai_calls tcs))

  to_openai_assistant-plain_of :
      (s : String) (calls : List ToolCall)
      → read (to_openai_assistant sdk s calls) ≡ record (message assistant s) { tool_calls = calls }
  unfolding to_openai_assistant
  to_openai_assistant-plain_of s [] = reads.assistant_message s
  to_openai_assistant-plain_of s (tc ∷ tcs) =
      reads.assistant_calls (unless_empty s) (to_openai_calls sdk (tc ∷ tcs))
      ∙ rw (text_of_option-unless_empty s, map-to_openai_calls (tc ∷ tcs)) refl

  to_openai_message-plain_of :
      (role : Role) (m : Message) → map read (to_openai_message sdk role m) ≡ plain_of role m
  unfolding to_openai_message
  to_openai_message-plain_of system m = ap (λ t. t ∷ []) (reads.system_message m.content)
  to_openai_message-plain_of user m = ap (λ t. t ∷ []) (reads.user_message m.content)
  to_openai_message-plain_of assistant m =
      ap (λ t. t ∷ []) (to_openai_assistant-plain_of m.content m.tool_calls)
  to_openai_message-plain_of tool m = ap (λ t. t ∷ []) (reads.tool_message m.content m.tool_call_id)
  to_openai_message-plain_of (other_role r) m = refl

  -- Where readers find in the SDK's messages and calls what their constructors were given, they read back
  -- from the messages of a request all that belongs to their roles: no message of the four roles is
  -- dropped, none is moved, and every text, every call of a tool with its identifier, name and
  -- arguments, and every identifier of an answered call is kept. Other roles are dropped.
  pub to_openai_messages-plain_of :
      (ms : List Message) → map read (to_openai_messages sdk ms) ≡ all_plain ms
  unfolding to_openai_messages
  to_openai_messages-plain_of [] = refl
  to_openai_messages-plain_of (m ∷ ms) =
      map-append read (to_openai_message sdk m.role m) (to_openai_messages sdk ms)
      ∙ rw (to_openai_message-plain_of m.role m, to_openai_messages-plain_of ms) refl
