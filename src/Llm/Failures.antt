-- ===== src/Llm/Failures.antt =====
-- The errors of llm/openai.go and llm/anthropic.go, as llm/retry.go tells them apart.
use contract_review_ai_agent.Common.{
  ℕ, none, some, ap, subst, String, ◌≡◌, refl, false, List, [], ◌∷◌, Result, ok, err, Error, wrap,
  plain, Go, pure, ◌>>=◌, orelse, continue, wrapping,
}
use contract_review_ai_agent.Llm.{CompletionRequest, CompletionResponse, Llm}
use contract_review_ai_agent.Llm.OpenAi.{
  OpenAiSdk, ChatParams, ChatCompletion, ChatChoice, first_choice, openai_complete,
}
use contract_review_ai_agent.Llm.Anthropic.{
  AnthropicSdk, MessageParams, AnthropicMessage, anthropic_complete,
}
use contract_review_ai_agent.Llm.Retry.{
  Clock, RetryingLlm, is_permanent, call, back_off, timeout_of, complete,
}
use contract_review_ai_agent.Llm.Retry.Chains.{
  Retried, Ends, answered, refused, exhausted, ended_before, ended_waiting,
}
use contract_review_ai_agent.Llm.Retry.Attempts.{complete-Settles}

-- No error of a call is permanent.
abbrev pub IsNeverPermanent : {W A : Type 0} → Go W A → Type 0
IsNeverPermanent {W = W} m = (w w' : W) (e : Error) → m w ≡ (err e, w') → is_permanent e ≡ false

module _ {W A : Type 0} where
  pure-IsNeverPermanent : (a : A) → IsNeverPermanent {W = W} (pure a)
  pure-IsNeverPermanent a w w' e h = absurd cc

  >>=-IsNeverPermanent :
      {B : Type 0} (prefix : String) (m : Go W A) (f : A → Go W B)
      → ((a : A) → IsNeverPermanent (f a))
      → IsNeverPermanent (orelse prefix m >>= f)
  unfolding is_permanent
  >>=-IsNeverPermanent {B = B} prefix m f later w w' e = go ((m w).0) ((m w).1)
    where
      go :
          (r : Result A) (v : W)
          → ◌≡◌ {A = Result B × W} (continue (wrapping prefix r) f v) (err e, w')
          → is_permanent e ≡ false
      go (ok a) v h = later a v w' e h
      go (err x) v h = let same : wrap prefix x ≡ e = cc in rw (← same) refl

module _ {W M T P : Type 0} where
  first_choice-IsNeverPermanent :
      {C : Type 0} (sdk : OpenAiSdk M T P C) (send : ChatParams M T → Go W ChatCompletion)
      (raw : ChatCompletion) (choices : List ChatChoice)
      → IsNeverPermanent (first_choice sdk send raw choices)
  unfolding first_choice is_permanent
  first_choice-IsNeverPermanent sdk send raw [] w w' e h =
      let same : plain "openai returned no choices" ≡ e = cc in rw (← same) refl
  first_choice-IsNeverPermanent sdk send raw (choice ∷ others) w w' e h = absurd cc

  openai_complete-IsNeverPermanent :
      {C : Type 0} (sdk : OpenAiSdk M T P C) (send : ChatParams M T → Go W ChatCompletion)
      (model : String) (req : CompletionRequest)
      → IsNeverPermanent (openai_complete sdk send model req)
  unfolding openai_complete
  openai_complete-IsNeverPermanent sdk send model req =
      >>=-IsNeverPermanent "openai completion" _ _
        λ raw. first_choice-IsNeverPermanent sdk send raw raw.choices

  anthropic_complete-IsNeverPermanent :
      (sdk : AnthropicSdk M T P) (send : MessageParams M T → Go W AnthropicMessage) (model : String)
      (req : CompletionRequest)
      → IsNeverPermanent (anthropic_complete sdk send model req)
  unfolding anthropic_complete
  anthropic_complete-IsNeverPermanent sdk send model req =
      >>=-IsNeverPermanent "anthropic completion" _ _ λ raw. pure-IsNeverPermanent _

-- The clients of llm/openai.go and llm/anthropic.go; the deadline is part of the call.
pub data IsClient {W : Type 0} : (ℕ → Llm W) → Type 1 where
  openai :
      {M T P C : Type 0} (sdk : OpenAiSdk M T P C) (send : ℕ → ChatParams M T → Go W ChatCompletion)
      (model : String)
      → IsClient (λ d. openai_complete sdk (send d) model)
  anthropic :
      {M T P : Type 0} (sdk : AnthropicSdk M T P)
      (send : ℕ → MessageParams M T → Go W AnthropicMessage) (model : String)
      → IsClient (λ d. anthropic_complete sdk (send d) model)

client-IsNeverPermanent :
    {W : Type 0} (inner : ℕ → Llm W)
    → IsClient inner
    → (deadline : ℕ) (req : CompletionRequest) → IsNeverPermanent (inner deadline req)
client-IsNeverPermanent _ (openai sdk send model) d req =
    openai_complete-IsNeverPermanent sdk (send d) model req
client-IsNeverPermanent _ (anthropic sdk send model) d req =
    anthropic_complete-IsNeverPermanent sdk (send d) model req

module _ {W : Type 0} (clock : Clock W) (r : RetryingLlm W) (req : CompletionRequest) (v : W)
    (client : IsClient r.inner) (goes_on : (w : W) → clock.ctx_err w ≡ none)
    (waits : (d : ℕ) (w : W) → (clock.wait d w).0 ≡ none) where
  -- Every attempt was made, and the last error is reported.
  abbrev pub Exhausted : Error → W → Type 0
  Exhausted e w' =
      (w : W) × Retried clock r req v r.max_retries w
      × (last : Error) × (call clock r req w ≡ (err last, w'))
      × (e ≡ wrap "llm: max retries exceeded" last)

  ends-Exhausted :
      (k : ℕ) (w : W) (out : Result CompletionResponse × W) (w' : W) (e : Error)
      → Retried clock r req v k w
      → Ends clock r req k w out
      → out ≡ (err e, w')
      → Exhausted e w'
  unfolding call back_off
  ends-Exhausted k w _ w' e path (answered resp w1 alive called) h = absurd cc
  ends-Exhausted k w _ w' e path (refused x w1 alive called final) h =
      let passing : is_permanent x ≡ false =
        client-IsNeverPermanent r.inner client (timeout_of r.request_timeout req) req w w1 x
          called in
      absurd cc
  ends-Exhausted k w _ w' e path (exhausted x w1 full alive called passing) h =
      (w, subst (λ n. Retried clock r req v n w) full path, x, cc, cc)
  ends-Exhausted k w _ w' e path (ended_before x over) h =
      let going : clock.ctx_err w ≡ none = goes_on w in absurd cc
  ends-Exhausted k w _ w' e path (ended_waiting x x' w1 w2 room alive called passing stopped) h =
      let slept : (back_off clock r req k w1).0 ≡ none = waits _ _ in
      let woken : (back_off clock r req k w1).0 ≡ some x' = ap (λ o. o.0) stopped in absurd cc

  -- Where the inner provider is one of the two clients and neither the context nor a wait ends early, a
  -- call that fails has made every attempt, whatever the errors: max_retries failed and were waited for,
  -- and the error is that of the last one, as retries that are exceeded.
  pub complete-Exhausted :
      (w' : W) (e : Error)
      → complete clock r req v ≡ (err e, w')
      → (w : W) × Retried clock r req v r.max_retries w
        × (last : Error) × (call clock r req w ≡ (err last, w'))
        × (e ≡ wrap "llm: max retries exceeded" last)
  complete-Exhausted w' e failed =
      let settled = complete-Settles clock r req v in
      ends-Exhausted settled.retries settled.at (complete clock r req v) w' e settled.path
        settled.ends failed
