-- ===== src/Store/AgentRuns.antt =====
-- store/postgres.go: the part of the store that the agent uses, with its runs, their steps and the
-- stored finding of a clause.
use contract_review_ai_agent.Common.{
  ℕ, ℤ, String, Option, none, some, List, Result, ok, err, wrap, not_found, is_no_rows, Go, pure,
  ◌>>=◌, orelse, str_eq, if◌then◌else◌,
}
use contract_review_ai_agent.Domain.{ClauseAnalysis}
use contract_review_ai_agent.Store.{AgentRun, AgentStep, AgentStore}
use contract_review_ai_agent.Store.Rows.{AnalysisRow, to_domain_analysis}
use contract_review_ai_agent.Store.Queries.{Queries, Rows, collect}

module _ {W : Type 0} (q : Queries W) (new_uuid : W → String × W) where
  run_column : String → Option String
  run_column run_id = if str_eq run_id "" then none else some run_id

  append_agent_step : String → ℕ → String → String → Go W (Unit {0})
  append_agent_step agent_run_id step_index messages usage w =
      let (id, w') = new_uuid w in
      orelse "append agent step"
        (q.upsert_agent_step (record {
          id = id;
          agent_run_id = agent_run_id;
          step_index = step_index;
          messages = messages;
          usage_json = usage;
        }))
        w'

  steps_of : Rows AgentStep → Go W (List AgentStep)
  unfolding collect
  steps_of rows w = (collect "scan agent step" "agent steps rows" rows.scanned rows.failure, w)

  with_steps : AgentRun → Go W (Option (AgentRun × List AgentStep))
  unfolding steps_of
  with_steps r = do
    rows ← orelse "load agent steps" (q.query_agent_steps r.id)
    steps ← steps_of rows
    pure (some (r, steps))

  -- No row is no run, and no error.
  found_run : Result AgentRun × W → Result (Option (AgentRun × List AgentStep)) × W
  unfolding with_steps
  found_run (ok r, w) = with_steps r w
  found_run (err e, w) = if is_no_rows e then (ok none, w) else (err (wrap "load agent run" e), w)

  unfoldable pub load_agent_run : String → Go W (Option (AgentRun × List AgentStep))
  unfolding found_run
  load_agent_run clause_id w = found_run (q.query_agent_run clause_id w)

  stored_finding : Result AnalysisRow → Result ClauseAnalysis
  stored_finding (ok r) = ok (to_domain_analysis r)
  stored_finding (err e) = if is_no_rows e then err not_found else err (wrap "get stored finding" e)

  get_stored_finding : String → Go W ClauseAnalysis
  unfolding stored_finding
  get_stored_finding clause_id w =
      let (r, w') = q.query_finding clause_id w in (stored_finding r, w')

  start_agent_run : String → String → String → Go W (Unit {0})
  unfolding run_column
  start_agent_run id clause_id run_id =
      orelse "start agent run" (q.insert_agent_run id clause_id (run_column run_id))

  finish_agent_run : String → String → ℤ → ℕ → ℕ → Go W (Unit {0})
  finish_agent_run id status steps tokens cost =
      orelse "finish agent run" (q.update_agent_run id status steps tokens cost)

  unfoldable pub agent_store : AgentStore W
  unfolding start_agent_run finish_agent_run append_agent_step load_agent_run get_stored_finding
  agent_store = record {
    load_agent_run = load_agent_run;
    start_agent_run = start_agent_run;
    append_agent_step = append_agent_step;
    finish_agent_run = finish_agent_run;
    get_stored_finding = get_stored_finding;
  }
