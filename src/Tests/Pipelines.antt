-- ===== src/Tests/Pipelines.antt =====
-- Tests of pipeline/clause_splitting.go and pipeline/analyze.go over the store in memory.
use contract_review_ai_agent.Common.{
  ap, Result, ◌+◌, ◌≡◌, refl, some, [], ◌∷◌, ok, lookup, insert, error_text, decimal,
}
use contract_review_ai_agent.Domain.{extracted, clauses_extracted, analyzed}
use contract_review_ai_agent.Store.Fake.{FakeStore, fake_store}
use contract_review_ai_agent.Store.Fake.Status.{fake_store-KeepsStatus}
use contract_review_ai_agent.Store.Fake.Clauses.{fake_store-KeepsClauses}
use contract_review_ai_agent.Pipeline.ClauseSplitting.Saved.{SplitFrom, extract_clauses-Saved}
use contract_review_ai_agent.Pipeline.ClauseSplitting.{
  extract_clauses, number_clauses, split_found, split_contract, extract_clauses_from_llm,
  parse_clauses, numbered,
}
use contract_review_ai_agent.Tool.Lookup.{get_contract_section}
use contract_review_ai_agent.Tool.Lookup.Sections.{get_contract_section-number_clauses}
use contract_review_ai_agent.Pipeline.Analyze.{
  no_totals, analyze_each, analyze_clauses, analyze_found, analyze_contract,
  clauses_needing_analysis, not_analyzed, is_analyzed, has_finding, record_result, named_finding,
  failed_analysis,
}
use contract_review_ai_agent.Pipeline.Analyze.Counts.{analyze_each-counts}
use contract_review_ai_agent.Pipeline.Status.{analyze_clauses-status}
use contract_review_ai_agent.Platform.{trim_space}
use contract_review_ai_agent.Tool.{new_registry}
use contract_review_ai_agent.Tool.Submit.{new_submit_finding}
use contract_review_ai_agent.Llm.{role_text}
use contract_review_ai_agent.Context.{prepare}
use contract_review_ai_agent.Cost.{estimate}
use contract_review_ai_agent.Tokens.{count, count_messages}
use contract_review_ai_agent.Prompts.{render_analysis}
use contract_review_ai_agent.Agent.Validate.{parse_and_validate_finding}
use contract_review_ai_agent.Agent.Calls.{answer_call, answer_calls, respond}
use contract_review_ai_agent.Agent.Step.{step, take_prepared, take_response, request}
use contract_review_ai_agent.Agent.Run.{run, open_run, loop, after_pass, finish, cancel}
use contract_review_ai_agent.Domain.{parse_risk_level}
use contract_review_ai_agent.Budget.{new_budget, record_usage, exceeded, snapshot}
use contract_review_ai_agent.Tool.{schemas, dispatch}
use contract_review_ai_agent.Agent.State.{
  is_exceeded, record_response, add_usage, pass_of, initial_messages, spent, tool_result_message,
}
use contract_review_ai_agent.Fixtures.{ascii, limited}
use contract_review_ai_agent.Fixtures.Contracts.{
  clause, holding, model, new_id, run_time, clause_agent,
}

split : FakeStore
unfolding extract_clauses fake_store split_found split_contract extract_clauses_from_llm
    parse_clauses numbered trim_space lookup insert
split = (extract_clauses ascii new_id model fake_store "c1" (holding extracted)).1

split_test : extract_clauses ascii new_id model fake_store "c1" (holding extracted) ≡ (ok tt, split)
unfolding split
split_test = refl

extract_clauses-Saved_example :
    (fake_store-KeepsStatus.status_of split "c1" ≡ some clauses_extracted)
    × SplitFrom fake_store fake_store-KeepsClauses ascii new_id model "c1" (holding extracted) split
extract_clauses-Saved_example =
    extract_clauses-Saved fake_store fake_store-KeepsClauses ascii new_id model "c1"
      fake_store-KeepsStatus (holding extracted) split tt split_test

-- Two texts, the first of which says "2"
abbrev two_clauses : FakeStore
two_clauses = record (holding extracted) {
  clauses =
      record {
        key = "c1";
        value =
            (number_clauses ascii new_id model fake_store "c1" 0 ("see 2" ∷ "two" ∷ [])
              (holding extracted)).0;
      }
      ∷ [];
}

get_contract_section-number_clauses_example :
    get_contract_section ascii fake_store "c1" "2" two_clauses ≡ (ok "two", two_clauses)
unfolding decimal fake_store lookup
get_contract_section-number_clauses_example =
    get_contract_section-number_clauses ascii ascii fake_store new_id model fake_store "c1" "2"
      ("see 2" ∷ []) "two" [] (holding extracted) two_clauses two_clauses refl refl

analyze_each-counts_example :
    let t =
      (analyze_each fake_store run_time clause_agent "openai" "gpt-4o-mini" "c1"
        (clause ∷ [])
        no_totals
        (some limited)
        (holding clauses_extracted)).0 in
    t.ok_count + t.failed_count ≡ 0 + 0 + 1
analyze_each-counts_example =
    analyze_each-counts fake_store run_time clause_agent "openai" "gpt-4o-mini" "c1" (clause ∷ [])
      no_totals (some limited) (holding clauses_extracted)

-- The stage over one clause, whose agent submits at its first answer
stage : Result (Unit {0}) × FakeStore
unfolding analyze_clauses analyze_found analyze_contract clauses_needing_analysis not_analyzed
    is_analyzed has_finding analyze_each record_result named_finding failed_analysis fake_store run
    open_run loop after_pass finish cancel step take_prepared take_response request respond
    answer_call answer_calls parse_and_validate_finding parse_risk_level is_exceeded exceeded
    record_response record_usage add_usage pass_of initial_messages spent snapshot
    tool_result_message render_analysis prepare count count_messages role_text estimate new_budget
    new_registry schemas dispatch new_submit_finding insert lookup error_text decimal
stage =
    analyze_clauses fake_store run_time clause_agent "openai" "gpt-4o-mini" "c1" (some limited)
      (holding clauses_extracted)

stage_test : stage.0 ≡ ok tt
unfolding stage
stage_test = refl

analyze_clauses-status_example : fake_store-KeepsStatus.status_of stage.1 "c1" ≡ some analyzed
unfolding stage
analyze_clauses-status_example =
    analyze_clauses-status fake_store fake_store-KeepsStatus run_time clause_agent "openai"
      "gpt-4o-mini" "c1" (some limited) (holding clauses_extracted) stage.1 tt
      (ap (λ r. (r, stage.1)) stage_test)
