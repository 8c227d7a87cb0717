-- ===== src/Llm/Retry/Chains.antt =====
-- Complete of llm/retry.go, described without its loop: a chain of failed attempts and waits, and one
-- of five ends.
use contract_review_ai_agent.Common.{
  ℕ, suc, ◌≤◌, ◌<◌, ◌≡◌, false, true, none, some, Result, ok, err, Error, wrap,
}
use contract_review_ai_agent.Llm.{CompletionRequest, CompletionResponse}
use contract_review_ai_agent.Llm.Retry.{Clock, RetryingLlm, is_permanent, back_off, call}

module _ {W : Type 0} (clock : Clock W) (r : RetryingLlm W) (req : CompletionRequest) where
  -- `k` attempts have failed for a passing reason since the world `v`, each waited for in full.
  pub data Retried (v : W) : ℕ → W → Type 0 where
    at_first : Retried v 0 v
    again :
        {k : ℕ} {w : W} (w1 w2 : W) (e : Error)
        → Retried v k w
        → clock.ctx_err w ≡ none
        → call clock r req w ≡ (err e, w1)
        → is_permanent e ≡ false
        → back_off clock r req k w1 ≡ (none, w2)
        → Retried v (suc k) w2

  -- How the attempt behind `k` failed ones ends the call.
  pub data Ends (k : ℕ) (w : W) : Result CompletionResponse × W → Type 0 where
    answered :
        (resp : CompletionResponse) (w1 : W)
        → clock.ctx_err w ≡ none
        → call clock r req w ≡ (ok resp, w1)
        → Ends k w (ok resp, w1)
    refused :
        (e : Error) (w1 : W)
        → clock.ctx_err w ≡ none
        → call clock r req w ≡ (err e, w1)
        → is_permanent e ≡ true
        → Ends k w (err e, w1)
    exhausted :
        (e : Error) (w1 : W)
        → k ≡ r.max_retries
        → clock.ctx_err w ≡ none
        → call clock r req w ≡ (err e, w1)
        → is_permanent e ≡ false
        → Ends k w (err (wrap "llm: max retries exceeded" e), w1)
    ended_before : (e : Error) → clock.ctx_err w ≡ some e → Ends k w (err e, w)
    ended_waiting :
        (e e' : Error) (w1 w2 : W)
        → k < r.max_retries
        → clock.ctx_err w ≡ none
        → call clock r req w ≡ (err e, w1)
        → is_permanent e ≡ false
        → back_off clock r req k w1 ≡ (some e', w2)
        → Ends k w (err e', w2)

  -- An outcome is one of the ends behind some chain of failed attempts, at most `max_retries` long.
  pub record Settles (v : W) (out : Result CompletionResponse × W) : Type 0 where
    pub retries : ℕ
    pub at : W
    pub bounded : retries ≤ r.max_retries
    pub path : Retried v retries at
    pub ends : Ends retries at out
