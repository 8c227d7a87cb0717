-- ===== src/Pipeline/Summarize/Inputs.antt =====
-- The inputs of the report (pipeline/summarize.go): its counts, and its shortened texts.
use contract_review_ai_agent.Common.{
  ℕ, zero, suc, ◌+◌, ◌≤◌, ◌<◌, subst, String, ◌<>◌, ◌≡◌, refl, inl, inr, Bool, true, false, Option,
  none, some, List, [], ◌∷◌, take, length, runes, from_runes, select, Assoc, str_eq, eq_iff, arith,
  Bool-cases, leb→le, leb,
}
use contract_review_ai_agent.Domain.{
  RiskLevel, high, medium, low, Clause, ClauseAnalysis, Review, risk_text,
}
use contract_review_ai_agent.Pipeline.Summarize.Prompt.{RiskCounts, ReviewCounts, ClauseInput}
use contract_review_ai_agent.Pipeline.Summarize.{
  is_override, longest_fitting, truncate_to_token_budget, analysis_at, review_at, count_risk,
  count_decision, count_override, risk_label, input_of, build_inputs,
}

-- The beginning of `k` runes is too long with the ellipsis behind it.
abbrev pub IsOver : (String → ℕ) → ℕ → String → ℕ → Type 0
IsOver tokens budget s k = budget < tokens (from_runes (take k (runes s))) + tokens "…"

-- The beginnings of at least `n` runes that are shorter than the text are all too long.
abbrev pub AreOver : (String → ℕ) → ℕ → String → ℕ → Type 0
AreOver tokens budget s n = (k : ℕ) → n ≤ k → k < length (runes s) → IsOver tokens budget s k

-- What a text becomes within a budget: itself, where it fits; otherwise its longest shorter beginning
-- that fits with the ellipsis behind it; nothing where no beginning does.
pub data Fits (tokens : String → ℕ) (budget : ℕ) (s : String) : String → Type 0 where
  whole : tokens s ≤ budget → Fits tokens budget s s
  cut :
      (n : ℕ)
      → budget < tokens s
      → n < length (runes s)
      → tokens (from_runes (take n (runes s))) + tokens "…" ≤ budget
      → AreOver tokens budget s (suc n)
      → Fits tokens budget s (from_runes (take n (runes s)) <> "…")
  nothing : budget < tokens s → AreOver tokens budget s 0 → Fits tokens budget s ""

AreOver-suc :
    (tokens : String → ℕ) (budget : ℕ) (s : String) (n : ℕ)
    → IsOver tokens budget s n
    → AreOver tokens budget s (suc n)
    → AreOver tokens budget s n
AreOver-suc tokens budget s n here above k h below = elim (Bool-cases (leb (suc n) k)) [
  | inl more ↦ above k (leb→le (suc n) k more) below
  | inr same ↦ subst (IsOver tokens budget s) (ground arith) here
]

longest_fitting-Fits :
    (tokens : String → ℕ) (budget : ℕ) (s : String) (n : ℕ)
    → budget < tokens s
    → n ≤ length (runes s)
    → AreOver tokens budget s n
    → Fits tokens budget s (longest_fitting tokens budget (runes s) n)
unfolding longest_fitting
longest_fitting-Fits tokens budget s zero long within above = nothing long above
longest_fitting-Fits tokens budget s (suc n) long within above =
    let candidate = from_runes (take n (runes s)) in
    elim (Bool-cases (leb (tokens candidate + tokens "…") budget)) [
      | inl fits ↦
          rw fits
            (cut n long (omega arith) (leb→le (tokens candidate + tokens "…") budget fits) above)
      | inr over ↦ rw over (
          longest_fitting-Fits tokens budget s n long (omega arith)
            (AreOver-suc tokens budget s n (ground arith) above))
    ]

-- A text that keeps to the budget stays as it is. A longer one becomes its longest beginning that keeps
-- to the budget with an ellipsis behind it, and nothing where no beginning, the empty one included, does.
pub truncate_to_token_budget-Fits :
    (tokens : String → ℕ) (s : String) (budget : ℕ)
    → Fits tokens budget s (truncate_to_token_budget tokens s budget)
unfolding truncate_to_token_budget
truncate_to_token_budget-Fits tokens s budget = elim (Bool-cases (leb (tokens s) budget)) [
  | inl fits ↦ rw fits (whole (leb→le (tokens s) budget fits))
  | inr over ↦ rw over (
      longest_fitting-Fits tokens budget s (length (runes s)) (ground arith) (omega arith)
        (λ k h below. absurd (omega arith)))
]

-- The clause inputs of a risk, and of a decision
abbrev of_risk : String → List ClauseInput → ℕ
of_risk risk inputs = length (select (λ i. str_eq i.risk_level risk) inputs)

abbrev of_decision : String → List ClauseInput → ℕ
of_decision decision inputs = length (select (λ i. str_eq i.decision decision) inputs)

-- The counts, from the ones there were, are those of the inputs.
pub record Tallies (rc : RiskCounts) (rvc : ReviewCounts) (rc' : RiskCounts) (rvc' : ReviewCounts)
    (inputs : List ClauseInput) : Type 0 where
  pub high_risk : rc'.high ≡ rc.high + of_risk "high" inputs
  pub medium_risk : rc'.medium ≡ rc.medium + of_risk "medium" inputs
  pub low_risk : rc'.low ≡ rc.low + of_risk "low" inputs
  pub approvals : rvc'.approved ≡ rvc.approved + of_decision "approved" inputs
  pub rejections : rvc'.rejected ≡ rvc.rejected + of_decision "rejected" inputs
  pub overruled :
      rvc'.overrides + rvc.approved + rvc.rejected ≤ rvc.overrides + rvc'.approved + rvc'.rejected

-- One clause more is one more in the count of its own risk, and in no other.
count_risk-cons :
    (risk : Option RiskLevel) (rc : RiskCounts) (i : ClauseInput) (is : List ClauseInput)
    → i.risk_level ≡ risk_label risk
    → ((count_risk risk rc).high + of_risk "high" is ≡ rc.high + of_risk "high" (i ∷ is))
      × ((count_risk risk rc).medium + of_risk "medium" is ≡ rc.medium + of_risk "medium" (i ∷ is))
      × ((count_risk risk rc).low + of_risk "low" is ≡ rc.low + of_risk "low" (i ∷ is))
unfolding count_risk risk_label risk_text
count_risk-cons none rc i is h = rw h (omega arith, omega arith, omega arith)
count_risk-cons (some high) rc i is h = rw h (omega arith, omega arith, omega arith)
count_risk-cons (some medium) rc i is h = rw h (omega arith, omega arith, omega arith)
count_risk-cons (some low) rc i is h = rw h (omega arith, omega arith, omega arith)

count_override-keeps :
    (b : Bool) (rvc : ReviewCounts)
    → ((count_override b rvc).approved ≡ rvc.approved)
      × ((count_override b rvc).rejected ≡ rvc.rejected)
      × ((count_override b rvc).overrides ≤ rvc.overrides + 1)
unfolding count_override
count_override-keeps true rvc = (refl, refl, omega arith)
count_override-keeps false rvc = (refl, refl, omega arith)

count_decision-cons :
    (decision : String) (rvc : ReviewCounts) (i : ClauseInput) (is : List ClauseInput)
    → i.decision ≡ decision
    → ((count_decision decision rvc).approved + of_decision "approved" is
        ≡ rvc.approved + of_decision "approved" (i ∷ is))
      × ((count_decision decision rvc).rejected + of_decision "rejected" is
          ≡ rvc.rejected + of_decision "rejected" (i ∷ is))
      × ((count_decision decision rvc).overrides ≡ rvc.overrides)
unfolding count_decision
count_decision-cons decision rvc i is h = rw h (elim (Bool-cases (str_eq decision "approved")) [
  | inl approves ↦
      let same : decision ≡ "approved" = ground (arith, eq_iff decision "approved") in
      rw same (omega arith, omega arith, refl)
  | inr other ↦ rw other (
    ground (arith, eq_iff decision "rejected"),
    ground (arith, eq_iff decision "rejected"),
    ground (arith, eq_iff decision "rejected"),
  )
])

-- An override stands for an approval or a rejection of its own.
count_override-le :
    (risk : Option RiskLevel) (decision : String) (rvc : ReviewCounts)
    → let rvc' = count_override (is_override risk decision) (count_decision decision rvc) in
      rvc'.overrides + rvc.approved + rvc.rejected ≤ rvc.overrides + rvc'.approved + rvc'.rejected
unfolding count_override is_override count_decision
count_override-le none decision rvc =
    ground (arith, eq_iff decision "approved", eq_iff decision "rejected")
count_override-le (some high) decision rvc =
    ground (arith, eq_iff decision "approved", eq_iff decision "rejected")
count_override-le (some medium) decision rvc =
    ground (arith, eq_iff decision "approved", eq_iff decision "rejected")
count_override-le (some low) decision rvc =
    ground (arith, eq_iff decision "approved", eq_iff decision "rejected")

module _ (tokens : String → ℕ) (budget : ℕ) where
  -- The counts that the prompt states are the ones that its clause data has: each risk and each
  -- decision, and no more overrides than decisions.
  pub build_inputs-Tallies :
      (cs : List Clause) (analyses : Assoc ClauseAnalysis) (reviews : Assoc Review)
      (rc : RiskCounts) (rvc : ReviewCounts)
      → let (rc', rvc', inputs) = build_inputs tokens budget cs analyses reviews rc rvc in
        Tallies rc rvc rc' rvc' inputs
  unfolding build_inputs input_of
  build_inputs-Tallies [] analyses reviews rc rvc = record {
    high_risk = omega arith;
    medium_risk = omega arith;
    low_risk = omega arith;
    approvals = omega arith;
    rejections = omega arith;
    overruled = omega arith;
  }
  build_inputs-Tallies (c ∷ cs) analyses reviews rc rvc =
      let a = analysis_at analyses c.id in
      let r = review_at reviews c.id in
      let input = input_of tokens budget c a r in
      let rc1 = count_risk a.risk_level rc in
      let decided = count_decision r.decision rvc in
      let rvc1 = count_override (is_override a.risk_level r.decision) decided in
      let ih = build_inputs-Tallies cs analyses reviews rc1 rvc1 in
      let inputs = (build_inputs tokens budget cs analyses reviews rc1 rvc1).2 in
      let (highs, mediums, lows) = count_risk-cons a.risk_level rc input inputs refl in
      let (approvals, rejections, same) = count_decision-cons r.decision rvc input inputs refl in
      let (same_approved, same_rejected, more) =
        count_override-keeps (is_override a.risk_level r.decision) decided in
      record {
        high_risk = omega (arith, ih.high_risk, highs);
        medium_risk = omega (arith, ih.medium_risk, mediums);
        low_risk = omega (arith, ih.low_risk, lows);
        approvals = omega (arith, ih.approvals, approvals, same_approved);
        rejections = omega (arith, ih.rejections, rejections, same_rejected);
        overruled = omega (arith, ih.overruled, count_override-le a.risk_level r.decision rvc);
      }
