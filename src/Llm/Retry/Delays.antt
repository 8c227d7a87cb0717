-- ===== src/Llm/Retry/Delays.antt =====
-- The waits between the attempts of llm/retry.go.
use native.Mathlib.Nat.{pow-le-pow_right, mul-le-mul_left}
use contract_review_ai_agent.Common.{ℕ, ◌+◌, ◌*◌, ◌^◌, ◌≤◌, ◌<◌, ◌≡◌, arith}
use contract_review_ai_agent.Llm.Retry.{as_wait, delay}

-- A sum that fits is waited for as it is.
as_wait-fits : (n : ℕ) → n < 2 ^ 63 → as_wait n ≡ n
unfolding as_wait
as_wait-fits n h = ground arith

-- With a base and a number of retries whose largest delay fits an int64, the wait behind attempt `k`
-- is at least the base times `2 ^ k`, and less than one base more.
pub delay-bounds :
    (base retries attempt jitter : ℕ)
    → attempt ≤ retries
    → jitter < base
    → base * 2 ^ retries + base ≤ 2 ^ 63
    → (base * 2 ^ attempt ≤ delay base attempt jitter)
      × (delay base attempt jitter < base * 2 ^ attempt + base)
unfolding delay
delay-bounds base retries attempt jitter h1 h2 h3 =
    let larger = mul-le-mul_left base (pow-le-pow_right {n = 2} (omega arith) h1) in
    let exact : delay base attempt jitter ≡ base * 2 ^ attempt + jitter =
      as_wait-fits (base * 2 ^ attempt + jitter) (omega (arith, larger)) in
    (omega (arith, exact), omega (arith, exact))
