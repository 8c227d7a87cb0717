-- ===== src/Cost.antt =====
-- cost/pricing.go: the price list and the estimate of a call's cost.
-- A dollar amount is a natural number of nanodollars. Every rate of the list is a whole number of
-- nanodollars for each token ($2.50 for a million tokens is 2500), so sums are exact, where the
-- source's float64 rounds.
use contract_review_ai_agent.Common.{
  ℕ, ◌+◌, ◌*◌, String, ◌<>◌, Option, none, some, List, [], ◌∷◌, str_eq, if◌then◌else◌,
}

pub record Rate : Type 0 where
  pub in_per_token : ℕ
  pub out_per_token : ℕ

abbrev rate : ℕ → ℕ → Rate
rate i o = record { in_per_token = i; out_per_token = o }

abbrev pub rates : List (String × Rate)
rates =
    ("openai:gpt-4o", rate 2500 10000)
    ∷ ("openai:gpt-4o-mini", rate 150 600)
    ∷ ("openai:gpt-4o-mini-2024-07-18", rate 150 600)
    ∷ ("anthropic:claude-sonnet-4-6", rate 3000 15000)
    ∷ ("anthropic:claude-haiku-4-5-20251001", rate 800 4000)
    ∷ ("anthropic:claude-opus-4-8", rate 15000 75000)
    ∷ []

unfoldable pub rate_of : String → List (String × Rate) → Option Rate
rate_of key [] = none
rate_of key ((k, r) ∷ rs) = if str_eq k key then some r else rate_of key rs

abbrev charge : ℕ → ℕ → Option Rate → ℕ
charge i o none = 0
charge i o (some r) = i * r.in_per_token + o * r.out_per_token

-- An unknown model costs nothing.
unfoldable pub estimate : String → String → ℕ → ℕ → ℕ
unfolding rate_of
estimate provider model i o = charge i o (rate_of (provider <> ":" <> model) rates)
