-- ===== src/Agent/Calls.antt =====
-- The part of the loop of agent/agent.go that answers the tool calls of one response.
use contract_review_ai_agent.Common.{
  ℕ, String, ◌<>◌, Bool, true, false, Option, none, some, List, [], ◌∷◌, ◌++◌, Result, ok, err,
  error_text, str_eq, ◌==◌, if◌then◌else◌,
}
use contract_review_ai_agent.Domain.{ClauseAnalysis}
use contract_review_ai_agent.Llm.{user, Message, message, ToolCall, CompletionResponse}
use contract_review_ai_agent.Tool.{dispatch}
use contract_review_ai_agent.Agent.State.{Runtime, Agent, AnalyzeClauseTask, tool_result_message}
use contract_review_ai_agent.Agent.Validate.{parse_and_validate_finding}

-- An answer to one tool call: the finding that ends the run, or a message for the model.
pub data Answer (W : Type 0) : Type 0 where
  accepts : ClauseAnalysis → Answer W
  replies : Message → W → Answer W

module _ {W : Type 0} (rt : Runtime W) (ag : Agent W) (task : AnalyzeClauseTask) where
  reply_text : Result String → String
  reply_text (ok result) = result
  reply_text (err e) = "tool error: " <> error_text e

  validated : ToolCall → Result ClauseAnalysis → W → Answer W
  validated call (ok f) w = accepts f
  validated call (err e) w = replies (tool_result_message call.id ("invalid: " <> error_text e)) w

  unfoldable pub answer_call : ToolCall → W → Answer W
  unfolding validated reply_text
  answer_call call w =
      if str_eq call.name "submit_finding"
      then validated call (parse_and_validate_finding rt.platform task call.args) w
      else (let (r, w') = dispatch rt.platform ag.tools call w in
          replies (tool_result_message call.id (reply_text r)) w')

  -- The loop over the calls of one response; it ends at an accepted finding.
  unfoldable pub answer_calls :
      List ToolCall → List Message → W → Option ClauseAnalysis × List Message × W
  answer_calls [] msgs w = (none, msgs, w)
  answer_calls (call ∷ calls) msgs w = elim (answer_call call w) [
    | accepts f ↦ (some f, msgs, w)
    | replies m w' ↦ answer_calls calls (msgs ++ (m ∷ [])) w'
  ]

  nudge : Bool → Message
  nudge true = message user "You MUST call submit_finding now."
  nudge false = message user "Use a tool, or call submit_finding to finish."

  last_call_notice : Option ClauseAnalysis → ℕ → List Message → List Message
  last_call_notice (some f) remaining msgs = msgs
  last_call_notice none remaining msgs =
      if remaining == 1
      then msgs
        ++ (message user "This is your last tool call. Your next response MUST call submit_finding."
            ∷ [])
      else msgs

  -- The messages that a response leads to; `remaining` is `stepsRemaining`.
  unfoldable pub respond :
      ℕ → CompletionResponse → List Message → W → Option ClauseAnalysis × List Message × W
  unfolding nudge last_call_notice
  respond remaining resp msgs w = elim resp.tool_calls [
    | [] ↦ (none, msgs ++ (nudge (remaining == 0) ∷ []), w)
    | call ∷ calls ↦
        let (found, msgs', w') = answer_calls (call ∷ calls) msgs w in
        (found, last_call_notice found remaining msgs', w')
  ]
