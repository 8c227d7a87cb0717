-- ===== src/Llm/Retry.antt =====
-- llm/retry.go: a provider that calls another one again after an error. What it takes from Go's
-- runtime is a parameter: the context's error, a call under a deadline, a random number below its
-- argument, and the wait that ends with the delay or with the context. Durations are nanoseconds in
-- an int64, whose wrap-around is written out; the number of retries is not negative, as the factory
-- sees to.
pub mod Chains
pub mod Attempts
pub mod Delays
use contract_review_ai_agent.Common.{
  ℕ, zero, Bool, true, false, suc, ◌+◌, ◌*◌, ◌%◌, ◌^◌, Option, none, some, Result, ok, err, Error,
  wrap, permanent, ltb, leb, if◌then◌else◌,
}
use contract_review_ai_agent.Llm.{Llm, CompletionRequest, CompletionResponse}

pub record Clock (W : Type 0) : Type 0 where
  pub ctx_err : W → Option Error
  -- `rand.Int63n`
  pub int63n : ℕ → W → ℕ × W
  -- `select`: an error where the context ended first
  pub wait : ℕ → W → Option Error × W

-- `inner` takes the deadline of its context with the request.
pub record RetryingLlm (W : Type 0) : Type 0 where
  pub inner : ℕ → Llm W
  pub max_retries : ℕ
  pub base_delay : ℕ
  pub request_timeout : ℕ

-- 90 seconds
abbrev pub default_request_timeout : ℕ
default_request_timeout = 90000000000

unfoldable pub new_retrying_llm : {W : Type 0} → (ℕ → Llm W) → ℕ → ℕ → RetryingLlm W
new_retrying_llm inner max_retries base_delay = record {
  inner = inner;
  max_retries = max_retries;
  base_delay = base_delay;
  request_timeout = default_request_timeout;
}

-- The value of an int64 sum: a negative one is waited for as 0 is.
unfoldable pub as_wait : ℕ → ℕ
as_wait n = let m = n % 2 ^ 64 in if leb (2 ^ 63) m then 0 else m

-- `r.baseDelay*(1<<attempt) + jitter`
unfoldable pub delay : ℕ → ℕ → ℕ → ℕ
unfolding as_wait
delay base attempt jitter = as_wait (base * 2 ^ attempt + jitter)

unfoldable pub timeout_of : ℕ → CompletionRequest → ℕ
timeout_of request_timeout req = if ltb 0 req.timeout then req.timeout else request_timeout

-- `err.(*PermanentError)`, which does not look inside a wrapped error
unfoldable pub is_permanent : Error → Bool
is_permanent (permanent code msg) = true
is_permanent _ = false

module _ {W : Type 0} (clock : Clock W) (r : RetryingLlm W) (req : CompletionRequest) where
  -- The wait before the next attempt: what it leaves, with the context's error if that ended it.
  unfoldable pub back_off : ℕ → W → Option Error × W
  back_off attempt w =
      let (jitter, w') = clock.int63n r.base_delay w in
      clock.wait (delay r.base_delay attempt jitter) w'

  waited : (W → Result CompletionResponse × W) → Option Error × W → Result CompletionResponse × W
  waited again (none, w) = again w
  waited again (some e, w) = (err e, w)

  after_error :
      ℕ
      → Option (W → Result CompletionResponse × W)
      → Error
      → W
      → Bool
      → Result CompletionResponse × W
  unfolding waited
  after_error attempt again e w true = (err e, w)
  after_error attempt none e w false = (err (wrap "llm: max retries exceeded" e), w)
  after_error attempt (some again) e w false = waited again (back_off attempt w)

  -- What follows a call of the inner provider; `again` is the rest of the loop, if any is left.
  after_call :
      ℕ
      → Option (W → Result CompletionResponse × W)
      → Result CompletionResponse × W
      → Result CompletionResponse × W
  unfolding after_error
  after_call attempt again (ok resp, w) = (ok resp, w)
  after_call attempt again (err e, w) = after_error attempt again e w (is_permanent e)

  -- The call of the inner provider
  unfoldable pub call : W → Result CompletionResponse × W
  call w = r.inner (timeout_of r.request_timeout req) req w

  in_context :
      ℕ
      → Option (W → Result CompletionResponse × W)
      → W
      → Option Error
      → Result CompletionResponse × W
  unfolding after_call
  in_context attempt again w (some e) = (err e, w)
  in_context attempt again w none = after_call attempt again (call w)

  -- `for attempt := 0; attempt <= r.maxRetries; attempt++`, by the retries left
  unfoldable pub attempts_from : ℕ → ℕ → W → Result CompletionResponse × W
  unfolding in_context
  attempts_from zero attempt w = in_context attempt none w (clock.ctx_err w)
  attempts_from (suc left) attempt w =
      in_context attempt (some (attempts_from left (suc attempt))) w (clock.ctx_err w)

-- `Complete` of a RetryingLLM
unfoldable pub complete : {W : Type 0} → Clock W → RetryingLlm W → Llm W
complete clock r req = attempts_from clock r req r.max_retries 0
