-- ===== src/Tests/Retries.antt =====
-- Tests of llm/retry.go: a provider that fails once and then answers. The world counts the calls.
use contract_review_ai_agent.Common.{
  ℕ, suc, ◌+◌, ◌*◌, ◌^◌, ◌≤◌, ◌<◌, ◌≡◌, refl, none, [], ok, err, transient, arith, ◌==◌,
  if◌then◌else◌,
}
use contract_review_ai_agent.Llm.{CompletionRequest}
use contract_review_ai_agent.Llm.Retry.{
  Clock, RetryingLlm, complete, is_permanent, call, back_off, delay,
}
use contract_review_ai_agent.Llm.Retry.Chains.{Retried, at_first, again, Ends, answered, Settles}
use contract_review_ai_agent.Llm.Retry.Attempts.{complete-Settles, complete-Ends}
use contract_review_ai_agent.Llm.Retry.Delays.{delay-bounds}
use contract_review_ai_agent.Fixtures.{response}

abbrev steady : Clock ℕ
steady = record { ctx_err = λ w. none; int63n = λ n w. (7, w); wait = λ d w. (none, w) }

abbrev once_busy : RetryingLlm ℕ
once_busy = record {
  inner = λ timeout req calls.
      (if calls == 0 then err (transient 429 "busy") else ok (response []), suc calls);
  max_retries = 3;
  base_delay = 500;
  request_timeout = 1000;
}

abbrev request : CompletionRequest
request = record {
  messages = [];
  tools = [];
  max_tokens = 10;
  temperature = 0;
  force_tool_name = "";
  timeout = 0;
}

complete-Settles_example : Settles steady once_busy request 0 (complete steady once_busy request 0)
complete-Settles_example = complete-Settles steady once_busy request 0

failed_once : Retried steady once_busy request 0 1 1
unfolding call is_permanent back_off
failed_once = again 1 1 (transient 429 "busy") at_first refl refl refl refl

then_answered : Ends steady once_busy request 1 1 (ok (response []), 2)
unfolding call
then_answered = answered (response []) 2 refl refl

complete-Ends_example : complete steady once_busy request 0 ≡ (ok (response []), 2)
complete-Ends_example =
    complete-Ends steady once_busy request 1 0 1 (ok (response []), 2) (omega arith) failed_once
      then_answered

delay-bounds_example : (500 * 2 ^ 2 ≤ delay 500 2 7) × (delay 500 2 7 < 500 * 2 ^ 2 + 500)
delay-bounds_example = delay-bounds 500 3 2 7 (omega arith) (omega arith) (omega arith)
