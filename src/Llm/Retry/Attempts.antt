-- ===== src/Llm/Retry/Attempts.antt =====
-- Complete of llm/retry.go against its description by chains of attempts.
use contract_review_ai_agent.Common.{
  Bool, Option, ap, ◌∙◌, ℕ, zero, suc, ◌+◌, ◌-◌, ◌≤◌, ◌<◌, ◌≡◌, refl, false, true, none, some,
  Result, ok, err, Error, arith,
}
use contract_review_ai_agent.Llm.{CompletionRequest, CompletionResponse}
use contract_review_ai_agent.Llm.Retry.{
  Clock, RetryingLlm, is_permanent, back_off, call, attempts_from, complete, in_context, after_call,
  after_error, waited,
}
use contract_review_ai_agent.Llm.Retry.Chains.{
  Retried, at_first, again, Ends, answered, refused, exhausted, ended_before, ended_waiting,
  Settles,
}

module _ {W : Type 0} (clock : Clock W) (r : RetryingLlm W) (req : CompletionRequest) where
  -- What is left of the loop behind attempt `k`: nothing, or one that settles.
  abbrev Rest : W → ℕ → Option (W → Result CompletionResponse × W) → Type 0
  Rest v k none = k ≡ r.max_retries
  Rest v k (some rest) =
      (k < r.max_retries)
      × ((u : W) → Retried clock r req v (suc k) u → Settles clock r req v (rest u))

  waited-Settles :
      (v : W) (k : ℕ) (rest : W → Result CompletionResponse × W) (w w1 : W) (e : Error)
      → Rest v k (some rest)
      → Retried clock r req v k w
      → clock.ctx_err w ≡ none
      → call clock r req w ≡ (err e, w1)
      → is_permanent e ≡ false
      → (o : Option Error × W) → back_off clock r req k w1 ≡ o
      → Settles clock r req v (waited clock r req rest o)
  unfolding waited
  waited-Settles v k rest w w1 e (room, ih) path alive called passing (none, w2) slept =
      ih w2 (again w1 w2 e path alive called passing slept)
  waited-Settles v k rest w w1 e (room, ih) path alive called passing (some e', w2) slept = record {
    retries = k;
    at = w;
    bounded = omega (arith, room);
    path = path;
    ends = ended_waiting e e' w1 w2 room alive called passing slept;
  }

  Rest-le :
      (v : W) (k : ℕ) (rest : Option (W → Result CompletionResponse × W))
      → Rest v k rest
      → k ≤ r.max_retries
  Rest-le v k none h = omega (arith, h)
  Rest-le v k (some rest) (room, ih) = omega (arith, room)

  after_error-Settles :
      (v : W) (k : ℕ) (rest : Option (W → Result CompletionResponse × W)) (w w1 : W) (e : Error)
      → Rest v k rest
      → Retried clock r req v k w
      → clock.ctx_err w ≡ none
      → call clock r req w ≡ (err e, w1)
      → (b : Bool) → is_permanent e ≡ b
      → Settles clock r req v (after_error clock r req k rest e w1 b)
  unfolding after_error
  after_error-Settles v k rest w w1 e h path alive called true final = record {
    retries = k;
    at = w;
    bounded = Rest-le v k rest h;
    path = path;
    ends = refused e w1 alive called final;
  }
  after_error-Settles v k none w w1 e h path alive called false passing = record {
    retries = k;
    at = w;
    bounded = omega (arith, h);
    path = path;
    ends = exhausted e w1 h alive called passing;
  }
  after_error-Settles v k (some rest) w w1 e h path alive called false passing =
      waited-Settles v k rest w w1 e h path alive called passing (back_off clock r req k w1) refl

  after_call-Settles :
      (v : W) (k : ℕ) (rest : Option (W → Result CompletionResponse × W)) (w : W)
      → Rest v k rest
      → Retried clock r req v k w
      → clock.ctx_err w ≡ none
      → (out : Result CompletionResponse × W) → call clock r req w ≡ out
      → Settles clock r req v (after_call clock r req k rest out)
  unfolding after_call
  after_call-Settles v k rest w h path alive (ok resp, w1) called = record {
    retries = k;
    at = w;
    bounded = Rest-le v k rest h;
    path = path;
    ends = answered resp w1 alive called;
  }
  after_call-Settles v k rest w h path alive (err e, w1) called =
      after_error-Settles v k rest w w1 e h path alive called (is_permanent e) refl

  in_context-Settles :
      (v : W) (k : ℕ) (rest : Option (W → Result CompletionResponse × W)) (w : W)
      → Rest v k rest
      → Retried clock r req v k w
      → (c : Option Error) → clock.ctx_err w ≡ c
      → Settles clock r req v (in_context clock r req k rest w c)
  unfolding in_context
  in_context-Settles v k rest w h path (some e) ended = record {
    retries = k;
    at = w;
    bounded = Rest-le v k rest h;
    path = path;
    ends = ended_before e ended;
  }
  in_context-Settles v k rest w h path none alive =
      after_call-Settles v k rest w h path alive (call clock r req w) refl

  attempts_from-Settles :
      (left k : ℕ) (v w : W)
      → left + k ≡ r.max_retries
      → Retried clock r req v k w
      → Settles clock r req v (attempts_from clock r req left k w)
  unfolding attempts_from
  attempts_from-Settles zero k v w total path =
      in_context-Settles v k none w (omega (arith, total)) path (clock.ctx_err w) refl
  attempts_from-Settles (suc left) k v w total path =
      in_context-Settles v k (some (attempts_from clock r req left (suc k))) w
        (omega arith, λ u further. attempts_from-Settles left (suc k) v u (omega arith) further)
        path (clock.ctx_err w) refl

  -- A call always settles: behind at most `max_retries` failed and waited-for attempts it is
  -- answered, refused for good, out of retries, or ended by its context.
  pub complete-Settles : (w : W) → Settles clock r req w (complete clock r req w)
  unfolding complete
  complete-Settles w = attempts_from-Settles r.max_retries 0 w w (omega arith) at_first

  -- The description fixes the outcome: behind the same chain, whatever ends the attempt is what the
  -- loop returns.
  attempts_from-Ends :
      (left k : ℕ) (w : W) (out : Result CompletionResponse × W)
      → left + k ≡ r.max_retries
      → Ends clock r req k w out
      → attempts_from clock r req left k w ≡ out
  unfolding attempts_from in_context after_call after_error waited
  attempts_from-Ends zero k w out total (answered resp w1 alive called) = rw (alive, called) refl
  attempts_from-Ends zero k w out total (refused e w1 alive called final) =
      rw alive (rw called (rw final refl))
  attempts_from-Ends zero k w out total (exhausted e w1 last alive called passing) =
      rw alive (rw called (rw passing refl))
  attempts_from-Ends zero k w out total (ended_before e ended) = rw ended refl
  attempts_from-Ends zero k w out total (ended_waiting e e' w1 w2 room alive called passing slept) =
      absurd (omega arith)
  attempts_from-Ends (suc left) k w out total (answered resp w1 alive called) =
      rw alive (rw called refl)
  attempts_from-Ends (suc left) k w out total (refused e w1 alive called final) =
      rw alive (rw called (rw final refl))
  attempts_from-Ends (suc left) k w out total (exhausted e w1 last alive called passing) =
      absurd (omega arith)
  attempts_from-Ends (suc left) k w out total (ended_before e ended) = rw ended refl
  attempts_from-Ends (suc left) k w out total
        (ended_waiting e e' w1 w2 room alive called passing slept) =
      rw alive (rw called (rw passing (rw slept refl)))

  -- A failed attempt that was waited for leaves the loop at the next one.
  attempts_from-again :
      (left k : ℕ) (w w1 w2 : W) (e : Error)
      → clock.ctx_err w ≡ none
      → call clock r req w ≡ (err e, w1)
      → is_permanent e ≡ false
      → back_off clock r req k w1 ≡ (none, w2)
      → attempts_from clock r req (suc left) k w ≡ attempts_from clock r req left (suc k) w2
  unfolding attempts_from in_context after_call after_error waited
  attempts_from-again left k w w1 w2 e alive called passing slept =
      rw alive (rw called (rw passing (rw slept refl)))

  complete-Retried :
      (v : W) (k : ℕ) (w : W)
      → Retried clock r req v k w
      → (left : ℕ) → left + k ≡ r.max_retries
      → complete clock r req v ≡ attempts_from clock r req left k w
  unfolding complete
  complete-Retried v k w at_first left total =
      ap (λ n. attempts_from clock r req n 0 v) (omega arith)
  complete-Retried v k w (again w1 w2 e path alive called passing slept) left total =
      complete-Retried v _ _ path (suc left) (omega (arith, total))
      ∙ attempts_from-again left _ _ w1 w2 e alive called passing slept

  -- Behind at most `max_retries` failed and waited-for attempts, the end of the next one is what the
  -- call returns.
  pub complete-Ends :
      (k : ℕ) (v w : W) (out : Result CompletionResponse × W)
      → k ≤ r.max_retries
      → Retried clock r req v k w
      → Ends clock r req k w out
      → complete clock r req v ≡ out
  complete-Ends k v w out bounded path ends =
      complete-Retried v k w path (r.max_retries - k) (omega arith)
      ∙ attempts_from-Ends (r.max_retries - k) k w out (omega arith) ends
