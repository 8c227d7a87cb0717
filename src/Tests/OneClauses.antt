-- ===== src/Tests/OneClauses.antt =====
-- Tests of main.go: `analyze-clause` over the store in memory, and the dry run.
use contract_review_ai_agent.Common.{
  pos, ap, ◌≡◌, ◌≢◌, refl, none, some, [], ◌∷◌, ok, Result, lookup, insert, error_text, decimal,
}
use contract_review_ai_agent.Domain.{analyzed, parse_risk_level, no_analysis}
use contract_review_ai_agent.Llm.{role_text}
use contract_review_ai_agent.Tokens.{count, count_messages}
use contract_review_ai_agent.Context.{prepare}
use contract_review_ai_agent.Prompts.{render_analysis}
use contract_review_ai_agent.Store.{Store, AgentRun}
use contract_review_ai_agent.Store.Fake.{FakeStore, fake_store}
use contract_review_ai_agent.Store.Fake.Status.{fake_store-get_contract}
use contract_review_ai_agent.Tool.{new_registry, schemas, dispatch}
use contract_review_ai_agent.Tool.Submit.{new_submit_finding}
use contract_review_ai_agent.Tool.Catalog.{clause_registry}
use contract_review_ai_agent.Agent.Validate.{parse_and_validate_finding}
use contract_review_ai_agent.Agent.Calls.{answer_call, answer_calls, respond}
use contract_review_ai_agent.Agent.Step.{step, take_prepared, take_response, request, save_step}
use contract_review_ai_agent.Agent.Run.{run, open_run, loop, after_pass, finish, cancel}
use contract_review_ai_agent.Agent.State.{
  AgentResult, is_exceeded, record_response, add_usage, pass_of, initial_messages, spent,
  tool_result_message,
}
use contract_review_ai_agent.Command.Stages.{context_manager}
use contract_review_ai_agent.Command.OneClause.{
  one_clause_agent, analyze_target, run_analyze_clause, report_lines,
}
use contract_review_ai_agent.Command.OneClause.Reports.{
  run_analyze_clause-reports, run_analyze_clause-panics,
}
use contract_review_ai_agent.Command.Dispatch.{take_dry_run, main_with}
use contract_review_ai_agent.Command.Dispatch.DryRuns.{main_with-view}
use contract_review_ai_agent.Fixtures.{found_finding}
use contract_review_ai_agent.Fixtures.Contracts.{
  clause, holding, model, run_time, run_settings, output, outside,
}

analysed : Result AgentResult × FakeStore
unfolding run_analyze_clause analyze_target one_clause_agent context_manager clause_registry
    fake_store run open_run loop after_pass finish cancel step take_prepared take_response request
    respond answer_call answer_calls parse_and_validate_finding parse_risk_level is_exceeded
    record_response add_usage pass_of initial_messages spent tool_result_message render_analysis
    prepare count count_messages role_text new_registry schemas dispatch new_submit_finding insert
    lookup error_text decimal save_step
analysed = run_analyze_clause fake_store run_time run_settings model "c1" "cl-1" (holding analyzed)

abbrev analysis : AgentResult
analysis = record {
  finding = record found_finding { id = "" };
  steps = pos 1;
  stop = "submitted";
  usage = record { input_tokens = 100; output_tokens = 20 };
}

analysed_test : analysed.0 ≡ ok analysis
unfolding analysed
analysed_test = refl

run_analyze_clause-reports_example : report_lines analysis ≢ none
unfolding analysed open_run one_clause_agent fake_store lookup initial_messages
run_analyze_clause-reports_example =
    run_analyze_clause-reports fake_store run_time run_settings model "c1" "cl-1" (clause ∷ [])
      clause (holding analyzed) (holding analyzed) analysed.1 analysis refl refl refl
      (ap (λ r. (r, analysed.1)) analysed_test)

-- A store with a run that was submitted, and an analysis that failed
abbrev submitted_run : AgentRun
submitted_run = record {
  id = "run-0";
  clause_id = "cl-1";
  run_id = "";
  status = "submitted";
  step_count = pos 1;
  used_tokens = 120;
  used_cost_usd = 0;
}

abbrev failed_before : Store FakeStore
failed_before = record fake_store {
  agent_runs = record fake_store.agent_runs {
    load_agent_run = λ clause_id w. (ok (some (submitted_run, [])), w);
    get_stored_finding = λ clause_id w. (ok no_analysis, w);
  };
}

run_analyze_clause-panics_example :
    (a : AgentResult) × (run_analyze_clause failed_before run_time run_settings model "c1" "cl-1"
        (holding analyzed)
      ≡ (ok a, holding analyzed))
    × (report_lines a ≡ none)
unfolding fake_store lookup
run_analyze_clause-panics_example =
    run_analyze_clause-panics failed_before run_time run_settings model "c1" "cl-1" (clause ∷ [])
      clause (holding analyzed) (holding analyzed) (holding analyzed) (holding analyzed)
      submitted_run [] no_analysis refl refl refl refl refl refl

main_with-view_example :
    (main_with fake_store run_time run_settings model output outside
      ("analyze" ∷ "c1" ∷ "--dry-run" ∷ [])
      (holding analyzed)).1
    ≡ holding analyzed
unfolding fake_store take_dry_run lookup
main_with-view_example =
    main_with-view (λ w. w) fake_store run_time run_settings model output outside
      (record {
        get_contract = fake_store-get_contract;
        get_clauses = λ id w. refl;
        stdout = λ text w. refl;
      })
      ("analyze" ∷ "c1" ∷ "--dry-run" ∷ []) "c1" [] (holding analyzed) refl
