-- ===== src/Tests/Agents.antt =====
-- Tests of agent/agent.go: the loop over a scripted provider.
use contract_review_ai_agent.Common.{
  ◌≡◌, refl, Error, error_text, insert, lookup, decimal, some, none, Option, arith,
}
use contract_review_ai_agent.Domain.{parse_risk_level}
use contract_review_ai_agent.Llm.{role_text}
use contract_review_ai_agent.Llm.Fake.{FakeLlm, complete}
use contract_review_ai_agent.Budget.{Budget, new_budget, record_usage, exceeded, snapshot}
use contract_review_ai_agent.Context.{prepare}
use contract_review_ai_agent.Cost.{estimate}
use contract_review_ai_agent.Tokens.{count, count_messages}
use contract_review_ai_agent.Tool.{new_registry, schemas, dispatch}
use contract_review_ai_agent.Tool.Submit.{new_submit_finding, execute}
use contract_review_ai_agent.Tool.Submit.Accept.{is_submitted, is_ok, execute-accepts}
use contract_review_ai_agent.Prompts.{render_analysis}
use contract_review_ai_agent.Agent.State.{
  AgentResult, is_exceeded, record_response, add_usage, pass_of, initial_messages, spent,
  tool_result_message,
}
use contract_review_ai_agent.Agent.Validate.{IsComplete, parse_and_validate_finding}
use contract_review_ai_agent.Agent.Calls.{answer_call, answer_calls, respond}
use contract_review_ai_agent.Agent.Step.{step, take_prepared, take_response, request}
use contract_review_ai_agent.Agent.Run.{run, open_run, loop, after_pass, finish, cancel}
use contract_review_ai_agent.Agent.Findings.{run-IsComplete}
use contract_review_ai_agent.Agent.Accounting.{Settled, run-accounts}
use contract_review_ai_agent.Fixtures.{ascii, runtime, agent, task, two_tries, limited}

-- `run` with all that a run by evaluation goes through
outcome : (AgentResult × Option Error) × Option Budget × FakeLlm
unfolding run open_run loop after_pass finish cancel step take_prepared take_response request
    respond answer_call answer_calls parse_and_validate_finding parse_risk_level is_exceeded
    exceeded record_response record_usage add_usage pass_of initial_messages spent snapshot
    tool_result_message render_analysis prepare count count_messages role_text complete estimate
    new_budget new_registry schemas dispatch new_submit_finding insert lookup error_text decimal
outcome = run runtime agent task (some limited) two_tries

-- The finding without an explanation is refused, and the loop goes on; the second one is accepted.
submits_test : outcome.0.0.stop ≡ "submitted"
unfolding outcome
submits_test = refl

run-IsComplete_example :
    IsComplete task (run runtime agent task (some limited) two_tries).0.0.finding
unfolding outcome
run-IsComplete_example =
    run-IsComplete runtime agent task (some limited) two_tries refl submits_test

run-accounts_example : let ((r, e), b', w) = outcome in Settled 3 limited r e b'
unfolding outcome
run-accounts_example = run-accounts runtime agent task (some limited) two_tries refl (omega arith)

execute-accepts_example :
    is_submitted ((execute ascii none "silent" two_tries).0)
    ≡ is_ok (parse_and_validate_finding ascii task "silent")
execute-accepts_example = execute-accepts ascii none task "silent" two_tries
