-- ===== src/Tests/Processes.antt =====
-- Tests of main.go: `process` over the store in memory, from the file to the wait for a review.
use contract_review_ai_agent.Common.{[], true, Result, lookup, insert, error_text, decimal, String}
use contract_review_ai_agent.Domain.{analyzed, parse_risk_level}
use contract_review_ai_agent.Llm.{role_text}
use contract_review_ai_agent.Platform.{trim_space, has_prefix}
use contract_review_ai_agent.Cost.{estimate}
use contract_review_ai_agent.Tokens.{count, count_messages}
use contract_review_ai_agent.Budget.{new_budget, record_usage, exceeded, snapshot}
use contract_review_ai_agent.Context.{prepare}
use contract_review_ai_agent.Prompts.{render_analysis}
use contract_review_ai_agent.Store.Fake.{FakeStore, fake_store}
use contract_review_ai_agent.Tool.{new_registry, schemas, dispatch}
use contract_review_ai_agent.Tool.Submit.{new_submit_finding}
use contract_review_ai_agent.Tool.Catalog.{clause_registry}
use contract_review_ai_agent.Agent.Validate.{parse_and_validate_finding}
use contract_review_ai_agent.Agent.Calls.{answer_call, answer_calls, respond}
use contract_review_ai_agent.Agent.Step.{step, take_prepared, take_response, request}
use contract_review_ai_agent.Agent.Run.{run, open_run, loop, after_pass, finish, cancel}
use contract_review_ai_agent.Agent.State.{
  is_exceeded, record_response, add_usage, pass_of, initial_messages, spent, tool_result_message,
}
use contract_review_ai_agent.Pipeline.Extract.{run_extract, run_extract_stages}
use contract_review_ai_agent.Pipeline.ClauseSplitting.{
  extract_clauses, split_found, split_contract, extract_clauses_from_llm, parse_clauses, numbered,
}
use contract_review_ai_agent.Pipeline.Analyze.{
  analyze_each, analyze_clauses, analyze_found, analyze_contract, clauses_needing_analysis,
  not_analyzed, is_analyzed, has_finding, record_result, named_finding, failed_analysis,
}
use contract_review_ai_agent.Command.Stages.{
  context_manager, run_analyze, post_analysis, run_post_analysis, run_process,
}
use contract_review_ai_agent.Fixtures.Contracts.{
  holding, model, run_time, run_settings, output, outside,
}

abbrev empty : FakeStore
empty = record (holding analyzed) { contracts = []; clauses = [] }

extraction : (String × Result (Unit {0})) × FakeStore
unfolding run_extract run_extract_stages fake_store insert lookup
extraction = run_extract fake_store outside.base outside.extract "nda.pdf" true empty

processed : Result (Unit {0}) × FakeStore
unfolding run_process run_extract run_extract_stages extract_clauses split_found split_contract
    extract_clauses_from_llm parse_clauses numbered trim_space has_prefix run_analyze
    context_manager clause_registry post_analysis run_post_analysis analyze_clauses analyze_found
    analyze_contract clauses_needing_analysis not_analyzed is_analyzed has_finding analyze_each
    record_result named_finding failed_analysis fake_store run open_run loop after_pass finish
    cancel step take_prepared take_response request respond answer_call answer_calls
    parse_and_validate_finding parse_risk_level is_exceeded exceeded record_response record_usage
    add_usage pass_of initial_messages spent snapshot tool_result_message render_analysis prepare
    count count_messages role_text estimate new_budget new_registry schemas dispatch
    new_submit_finding insert lookup error_text decimal
processed =
    run_process fake_store run_time run_settings model output outside.base outside.extract "nda.pdf"
      true empty
