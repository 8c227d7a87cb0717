-- ===== src/Agent/State.antt =====
-- The records of agent/agent.go, and the loop's variables. A nil budget, store or context manager is
-- `none`. Log lines are left out.
use contract_review_ai_agent.Common.{
  ℕ, ◌+◌, ℤ, pos, String, Bool, false, Option, none, some, List, [], ◌∷◌, Error,
}
use contract_review_ai_agent.Domain.{ClauseAnalysis, no_analysis}
use contract_review_ai_agent.Llm.{Llm, user, tool, Message, message, CompletionResponse}
use contract_review_ai_agent.Platform.{Platform}
use contract_review_ai_agent.Tokens.{Tiktoken}
use contract_review_ai_agent.Budget.{Budget, Usage, record_usage, exceeded, snapshot}
use contract_review_ai_agent.Context.{ContextManager}
use contract_review_ai_agent.Store.{AgentStore}
use contract_review_ai_agent.Tool.{Registry}
use contract_review_ai_agent.Prompts.{render_analysis}

pub record AnalyzeClauseTask : Type 0 where
  pub contract_id : String
  pub clause_id : String
  pub clause_text : String

-- The constants of agent/store.go
abbrev pub status_running : String
status_running = "running"

abbrev pub status_submitted : String
status_submitted = "submitted"

-- What surrounds the agent: the context that may be cancelled and the source of identifiers.
pub record Runtime (W : Type 0) : Type 0 where
  pub platform : Platform
  pub tiktoken : Tiktoken
  pub ctx_err : W → Option Error
  pub new_uuid : W → String × W

pub record Agent (W : Type 0) : Type 0 where
  pub llm : Llm W
  pub tools : Registry W
  pub max_steps : ℕ
  pub ctx_mgr : Option (ContextManager W)
  pub store : Option (AgentStore W)

-- `Result`, whose name the errors have
pub record AgentResult : Type 0 where
  pub finding : ClauseAnalysis
  pub steps : ℤ
  pub stop : String
  pub usage : Usage

abbrev pub no_usage : Usage
no_usage = record { input_tokens = 0; output_tokens = 0 }

-- `Result{}`
abbrev pub no_result : AgentResult
no_result = record { finding = no_analysis; steps = pos 0; stop = ""; usage = no_usage }

-- The variables of the loop, with the shared budget and the world.
pub record Session (W : Type 0) : Type 0 where
  pub world : W
  pub budget : Option Budget
  pub msgs : List Message
  pub usage : Usage

-- How one pass of the loop's body ends.
pub data Pass : Type 0 where
  goes_on : Pass
  submits : ClauseAnalysis → Pass
  out_of_budget : Pass
  cancelled : Error → Pass
  aborted : Error → Pass

unfoldable pub initial_messages : AnalyzeClauseTask → List Message
initial_messages task =
    message user
      (render_analysis (record { clause_text = task.clause_text; contract_id = task.contract_id }))
    ∷ []

unfoldable pub tool_result_message : String → String → Message
tool_result_message call_id content = record {
  role = tool;
  content = content;
  tool_calls = [];
  tool_call_id = call_id;
}

unfoldable pub is_exceeded : Option Budget → Bool
is_exceeded none = false
is_exceeded (some b) = exceeded b

unfoldable pub record_response : CompletionResponse → Option Budget → Option Budget
record_response resp none = none
record_response resp (some b) =
    some (record_usage resp.provider resp.model resp.input_tokens resp.output_tokens b)

unfoldable pub add_usage : CompletionResponse → Usage → Usage
add_usage resp u = record {
  input_tokens = u.input_tokens + resp.input_tokens;
  output_tokens = u.output_tokens + resp.output_tokens;
}

-- Used tokens and cost, 0 with no budget
unfoldable pub spent : Option Budget → ℕ × ℕ
spent none = (0, 0)
spent (some b) = let s = snapshot b in (s.used_tokens, s.used_cost_usd)

unfoldable pub pass_of : Option ClauseAnalysis → Pass
pass_of none = goes_on
pass_of (some f) = submits f
