-- ===== src/Tests/Resumes.antt =====
-- Tests of how agent/agent.go takes up a clause that the store knows.
use contract_review_ai_agent.Common.{
  insert, error_text, decimal, pos, String, ◌≡◌, refl, none, some, [], ◌∷◌, ok, arith,
}
use contract_review_ai_agent.Llm.Fake.{FakeLlm}
use contract_review_ai_agent.Store.{AgentRun, AgentStep, AgentStore}
use contract_review_ai_agent.Agent.State.{Agent, no_usage, Session, initial_messages}
use contract_review_ai_agent.Agent.Run.{loop, run}
use contract_review_ai_agent.Agent.Recovery.{Agrees}
use contract_review_ai_agent.Domain.{parse_risk_level}
use contract_review_ai_agent.Llm.{role_text}
use contract_review_ai_agent.Llm.Fake.{FakeLlm, complete}
use contract_review_ai_agent.Context.{prepare}
use contract_review_ai_agent.Tokens.{count, count_messages}
use contract_review_ai_agent.Tool.{new_registry, schemas}
use contract_review_ai_agent.Tool.Submit.{new_submit_finding}
use contract_review_ai_agent.Prompts.{render_analysis}
use contract_review_ai_agent.Agent.State.{
  is_exceeded, record_response, add_usage, pass_of, initial_messages, tool_result_message,
}
use contract_review_ai_agent.Agent.Validate.{parse_and_validate_finding}
use contract_review_ai_agent.Agent.Calls.{answer_call, answer_calls, respond}
use contract_review_ai_agent.Agent.Step.{step, take_prepared, take_response, request}
use contract_review_ai_agent.Agent.State.{Runtime, Pass, goes_on}
use contract_review_ai_agent.Agent.Step.{save_step}
use contract_review_ai_agent.Agent.Saves.{run-survives}
use contract_review_ai_agent.Fixtures.{
  two_tries, ascii, runtime, agent, task, call, response, scripted, found_finding,
}

abbrev stored_run : String → AgentRun
stored_run status = record {
  id = "run-0";
  clause_id = "cl-1";
  run_id = "";
  status = status;
  step_count = pos 1;
  used_tokens = 120;
  used_cost_usd = 0;
}

abbrev saved_step : AgentStep
saved_step = record {
  id = "s-0";
  agent_run_id = "run-0";
  step_index = 0;
  messages = "saved";
  usage_json = "{}";
}

-- A store that knows one run of the clause, with one step.
abbrev knowing : String → AgentStore FakeLlm
knowing status = record {
  load_agent_run = λ clause_id w. (ok (some (stored_run status, saved_step ∷ [])), w);
  start_agent_run = λ id clause_id run_id w. (ok tt, w);
  append_agent_step = λ id i messages usage w. (ok tt, w);
  finish_agent_run = λ id status' steps tokens cost w. (ok tt, w);
  get_stored_finding = λ clause_id w. (ok found_finding, w);
}

abbrev agent_with : String → Agent FakeLlm
agent_with status = record agent { store = some (knowing status) }

abbrev world : FakeLlm
world = scripted (response (call "submit_finding" "good" ∷ []) ∷ [])

-- The first pass of a run whose first submission is refused
abbrev fresh : Session FakeLlm
fresh = record { world = two_tries; budget = none; msgs = initial_messages task; usage = no_usage }

first_pass : Pass × Session FakeLlm
unfolding step take_prepared take_response request respond answer_call answer_calls
    parse_and_validate_finding parse_risk_level is_exceeded record_response add_usage pass_of
    initial_messages tool_result_message render_analysis prepare count count_messages role_text
    complete new_registry schemas new_submit_finding insert error_text decimal save_step
first_pass = step runtime (agent_with "running") task "run-0" 0 fresh

-- A codec that decodes what that pass saved
abbrev reading : Runtime FakeLlm
reading = record runtime {
  platform = record ascii { unmarshal_messages = λ s. ok first_pass.1.msgs };
}

goes : step reading (agent_with "running") task "run-0" 0 fresh ≡ (goes_on, first_pass.1)
unfolding first_pass
goes = refl

run-survives_example :
    Agrees
      (loop reading (agent_with "running") task 3 "run-0" 0 0 fresh)
      ((run reading (agent_with "running") task none first_pass.1.world).0, first_pass.1)
run-survives_example =
    run-survives reading (agent_with "running") task (knowing "running") (stored_run "running") 0 0
      fresh first_pass.1 refl refl (omega arith) goes
      (λ appended. record {
        decodes = refl;
        fresh = refl;
        steps = saved_step ∷ [];
        last = saved_step;
        found = record { has_store = refl; loads = refl };
        running = refl;
        at_last = refl;
        index = refl;
        saved = refl;
      })
