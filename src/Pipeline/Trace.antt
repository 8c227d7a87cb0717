-- ===== src/Pipeline/Trace.antt =====
-- pipeline/trace.go: the steps of a saved run, as texts. `%.4f` of an amount of nanodollars is a
-- parameter.
pub mod Bounds
use contract_review_ai_agent.Common.{
  ℕ, ℤ, String, ◌<>◌, Bool, not, ◌&&◌, if◌then◌else◌, str_eq, leb, List, [], ◌∷◌, ◌++◌, length,
  take, Result, ok, err, error_text, runes, from_runes, decimal, decimal_ℤ,
}
use contract_review_ai_agent.Llm.{
  Role, system, user, assistant, tool, other_role, Message, ToolCall,
}
use contract_review_ai_agent.Platform.{Platform}
use contract_review_ai_agent.Store.{AgentRun, AgentStep}
use contract_review_ai_agent.Pipeline.Output.{Writer, print_all}

unfoldable pub trace_str : String → ℕ → String
trace_str s n = let r = runes s in if leb (length r) n then s else from_runes (take n r) <> "…"

unfoldable pub trace_args : String → ℕ → String
unfolding trace_str
trace_args raw n = if str_eq raw "" then "" else trace_str raw n

module _ (p : Platform) (fourths : ℕ → String) where
  trace_call : ℕ → ToolCall → String
  unfolding trace_args
  trace_call i tc =
      "  step "
      <> decimal i
      <> "  assistant → tool_call "
      <> tc.name
      <> trace_args tc.args 80
      <> "\n"

  trace_calls : ℕ → List ToolCall → List String
  unfolding trace_call
  trace_calls i [] = []
  trace_calls i (tc ∷ tcs) = trace_call i tc ∷ trace_calls i tcs

  -- The text of an assistant's message is shown where it calls no tool.
  trace_text : ℕ → String → List ToolCall → List String
  unfolding trace_str
  trace_text i content [] =
      if str_eq content ""
      then []
      else ("  step "
          <> decimal i
          <> "  assistant → text "
          <> p.quote (trace_str content 120)
          <> "\n")
        ∷ []
  trace_text i content (tc ∷ tcs) = []

  trace_role : ℕ → Role → Message → List String
  unfolding trace_calls trace_text trace_str
  trace_role i assistant m = trace_calls i m.tool_calls ++ trace_text i m.content m.tool_calls
  trace_role i tool m =
      ("  step " <> decimal i <> "  tool       ← " <> p.quote (trace_str m.content 120) <> "\n")
      ∷ []
  trace_role i user m = []
  trace_role i system m = []
  trace_role i (other_role r) m = []

  trace_messages : ℕ → List Message → List String
  unfolding trace_role
  trace_messages i [] = []
  trace_messages i (m ∷ ms) = trace_role i m.role m ++ trace_messages i ms

  -- Messages that do not parse are one line, and the next step follows.
  trace_step : ℕ → Result (List Message) → List String
  unfolding trace_messages
  trace_step i (ok ms) = trace_messages i ms
  trace_step i (err e) =
      ("  step " <> decimal i <> "  [parse error: " <> error_text e <> "]\n") ∷ []

  trace_steps : List AgentStep → List String
  unfolding trace_step
  trace_steps [] = []
  trace_steps (s ∷ ss) = trace_step s.step_index (p.unmarshal_messages s.messages) ++ trace_steps ss

  trace_header : AgentRun → String
  trace_header r =
      "agent_run="
      <> r.id
      <> " clause="
      <> r.clause_id
      <> " stop="
      <> r.status
      <> " steps="
      <> decimal_ℤ r.step_count
      <> " tokens="
      <> decimal r.used_tokens
      <> " cost=$"
      <> fourths r.used_cost_usd
      <> "\n"

  unfoldable pub render_trace : {W : Type 0} → Writer W → AgentRun → List AgentStep → W → W
  unfolding trace_header trace_steps
  render_trace write r steps = print_all write (trace_header r ∷ trace_steps steps)
