-- ===== src/Tokens.antt =====
-- tokens/count.go: the token counts of a text and of a message list. The encodings are tiktoken's,
-- a parameter: the number of tokens of a text under a model's own encoding or the default one.
use contract_review_ai_agent.Common.{
  ℕ, ◌+◌, ◌/◌, String, Option, none, some, List, [], ◌∷◌, length, runes, str_eq, if◌then◌else◌,
}
use contract_review_ai_agent.Llm.{Message, ToolCall, role_text}

-- `none` is an error of the library: no encoding for the model, or the default not to be had.
pub record Tiktoken : Type 0 where
  pub encoding_for_model : String → Option (String → ℕ)
  pub cl100k_base : Option (String → ℕ)

abbrev pub per_message_overhead : ℕ
per_message_overhead = 4

count_base : Option (String → ℕ) → String → ℕ
count_base (some enc) text = enc text
count_base none text = length (runes text) / 4

count_with : Option (String → ℕ) → Option (String → ℕ) → String → ℕ
unfolding count_base
count_with (some enc) base text = enc text
count_with none base text = count_base base text

module _ (t : Tiktoken) (model : String) where
  unfoldable pub count : String → ℕ
  unfolding count_with
  count text = count_with (t.encoding_for_model model) t.cl100k_base text

  count_tool_calls : List ToolCall → ℕ
  count_tool_calls [] = 0
  count_tool_calls (tc ∷ tcs) = count tc.name + count tc.args + count_tool_calls tcs

  count_message : Message → ℕ
  unfolding count_tool_calls
  count_message m =
      count (role_text m.role)
      + count m.content
      + count_tool_calls m.tool_calls
      + (if str_eq m.tool_call_id "" then 0 else count m.tool_call_id)
      + per_message_overhead

  unfoldable pub count_messages : List Message → ℕ
  unfolding count_message
  count_messages [] = 0
  count_messages (m ∷ ms) = count_message m + count_messages ms
