-- ===== src/Command/OneClause.antt =====
-- main.go: the commands `analyze-clause` and `trace`, for one clause.
pub mod Reports
use contract_review_ai_agent.Common.{
  ℕ, ℤ, String, ◌<>◌, Bool, Option, none, some, List, [], ◌∷◌, ◌++◌, Result, ok, err, Error, plain,
  wrap, Go, pure, fail, ◌>>=◌, orelse, find_first, str_eq, decimal_ℤ, if◌then◌else◌,
}
use contract_review_ai_agent.Domain.{Clause, RiskLevel, risk_text, ClauseAnalysis}
use contract_review_ai_agent.Llm.{Llm}
use contract_review_ai_agent.Budget.{Budget}
use contract_review_ai_agent.Store.{AgentRun, AgentStep, Store}
use contract_review_ai_agent.Tool.Catalog.{clause_registry}
use contract_review_ai_agent.Agent.State.{Runtime, Agent, AgentResult, AnalyzeClauseTask}
use contract_review_ai_agent.Agent.Run.{run}
use contract_review_ai_agent.Pipeline.Output.{Writer}
use contract_review_ai_agent.Pipeline.Trace.{render_trace}
use contract_review_ai_agent.Command.Stages.{RunSettings, default_max_steps, context_manager}

line_if_given : String → String → List String
line_if_given label text = if str_eq text "" then [] else (label <> text) ∷ []

-- The lines behind the first two; `none` stands for the nil pointer that the code follows.
finding_lines : ClauseAnalysis → Option RiskLevel → Option (List String)
unfolding line_if_given
finding_lines f none = none
finding_lines f (some risk) = some (
    ("Risk:  " <> risk_text risk)
      ∷ ("Explanation: " <> f.explanation)
      ∷ line_if_given "Ambiguous: " f.ambiguous_language
    ++ (("Recommendations: " <> f.recommendations) ∷ []))

-- What `analyze-clause` prints, `none` where it panics
unfoldable pub report_lines : AgentResult → Option (List String)
unfolding finding_lines
report_lines r =
    elim (if str_eq r.stop "submitted"
      then finding_lines r.finding r.finding.risk_level
      else some []) [
        | none ↦ none
        | some more ↦ some (("Stop:  " <> r.stop) ∷ ("Steps: " <> decimal_ℤ r.steps) ∷ more)
      ]

module _ {W : Type 0} (s : Store W) (rt : Runtime W) where
  unfoldable pub run_trace : Writer W → (ℕ → String) → String → Go W (Unit {0})
  run_trace write fourths clause_id w =
      show (orelse "load agent run" (s.load_agent_run clause_id) w)
    where
      show : Result (Option (AgentRun × List AgentStep)) × W → Result (Unit {0}) × W
      show (err e, v) = (err e, v)
      show (ok none, v) =
          (err (plain ("no agent run found for clause " <> rt.platform.quote clause_id)), v)
      show (ok (some (r, steps)), v) = (ok tt, render_trace rt.platform fourths write r steps v)

  module _ (cfg : RunSettings) (client : Llm W) (contract_id : String) where
    -- The agent saves its steps, and has no budget.
    unfoldable pub one_clause_agent : Agent W
    unfolding context_manager
    one_clause_agent = record {
      llm = client;
      tools = clause_registry rt.platform s contract_id;
      max_steps = default_max_steps;
      ctx_mgr = some (context_manager cfg client);
      store = some s.agent_runs;
    }

    agent_outcome : (AgentResult × Option Error) × Option Budget × W → Result AgentResult × W
    agent_outcome ((r, none), b, w) = (ok r, w)
    agent_outcome ((r, some e), b, w) = (err (wrap "agent run" e), w)

    unfoldable pub analyze_target : String → Option Clause → Go W AgentResult
    unfolding agent_outcome
    analyze_target clause_id none w =
        (err (plain ("clause " <> rt.platform.quote clause_id <> " not found")), w)
    analyze_target clause_id (some c) w = agent_outcome (
        run rt one_clause_agent
          (record { contract_id = c.contract_id; clause_id = c.id; clause_text = c.text }) none w)

    unfoldable pub run_analyze_clause : String → Go W AgentResult
    unfolding analyze_target
    run_analyze_clause clause_id = do
      clauses ← orelse "get clauses" (s.get_clauses contract_id)
      analyze_target clause_id (find_first (λ c. str_eq c.id clause_id) clauses)
