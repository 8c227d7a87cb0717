-- ===== src/Tool/Submit/Accept.antt =====
-- The two readers of a submission: Execute of tool/submit_finding.go, and parseAndValidateFinding of
-- agent/agent.go.
use text.Mathlib.TextPositions.{starts_with-append}
use text.Mathlib.Text.{starts_with}
use contract_review_ai_agent.Common.{
  String, ◌<>◌, ◌≡◌, refl, ◌∙◌, sym, Option, Bool, true, false, not, ◌||◌, ◌&&◌, Result, ok, err,
  error_text, str_eq, eq_iff, arith, Bool-cases, inl, inr,
}
use contract_review_ai_agent.Domain.{RiskLevel, high, medium, low, parse_risk_level}
use contract_review_ai_agent.Platform.{Platform, SubmitFindingArgs}
use contract_review_ai_agent.Agent.State.{AnalyzeClauseTask}
use contract_review_ai_agent.Agent.Validate.{
  parse_and_validate_finding, check_args, check_risk, check_texts,
}
use contract_review_ai_agent.Tool.Submit.{Finding, execute, submit}

-- Arguments that decode, with one of the three levels, an explanation and recommendations
is_acceptable : Result SubmitFindingArgs → Bool
is_acceptable (err e) = false
is_acceptable (ok a) =
    (str_eq a.risk_level "high" || str_eq a.risk_level "medium" || str_eq a.risk_level "low")
    && not (str_eq a.explanation "")
    && not (str_eq a.recommendations "")

pub is_ok : {A : Type 0} → Result A → Bool
is_ok (ok a) = true
is_ok (err e) = false

-- The tool's answer is that of an accepted finding.
pub is_submitted : Result String → Bool
is_submitted (ok s) = str_eq s "finding submitted"
is_submitted (err e) = false

-- A text that begins otherwise is not that answer.
is_submitted-append :
    (prefix s : String)
    → starts_with "finding submitted" prefix ≡ false
    → is_submitted (ok (prefix <> s)) ≡ false
unfolding is_submitted
is_submitted-append prefix s h =
    ground (arith, eq_iff (prefix <> s) "finding submitted", starts_with-append prefix s)

check_texts-is_ok :
    (task : AnalyzeClauseTask) (a : SubmitFindingArgs) (risk : RiskLevel)
    → is_ok (check_texts task a risk)
      ≡ not (str_eq a.explanation "") && not (str_eq a.recommendations "")
unfolding is_ok check_texts
check_texts-is_ok task a risk = elim (Bool-cases (str_eq a.explanation "")) [
  | inl silent ↦ rw silent refl
  | inr said ↦ rw said (elim (Bool-cases (str_eq a.recommendations "")) [
    | inl none_given ↦ rw none_given refl
    | inr given ↦ rw given refl
  ])
]

check_args-is_acceptable :
    (quote : String → String) (task : AnalyzeClauseTask) (r : Result SubmitFindingArgs)
    → is_ok (check_args quote task r) ≡ is_acceptable r
unfolding is_acceptable is_ok check_args check_risk check_texts parse_risk_level
check_args-is_acceptable quote task (err e) = refl
check_args-is_acceptable quote task (ok a) = elim (Bool-cases (str_eq a.risk_level "high")) [
  | inl is_high ↦ rw is_high (check_texts-is_ok task a high)
  | inr other ↦ rw other (elim (Bool-cases (str_eq a.risk_level "medium")) [
    | inl is_medium ↦ rw is_medium (check_texts-is_ok task a medium)
    | inr other2 ↦ rw other2 (elim (Bool-cases (str_eq a.risk_level "low")) [
      | inl is_low ↦ rw is_low (check_texts-is_ok task a low)
      | inr unknown ↦ rw unknown refl
    ])
  ])
]

submit-is_acceptable :
    {W : Type 0} (p : Platform) (on_finding : Option (Finding → W → W))
    (r : Result SubmitFindingArgs) (w : W)
    → is_submitted ((submit p on_finding r w).0) ≡ is_acceptable r
unfolding is_acceptable submit is_submitted
submit-is_acceptable p on_finding (err e) w =
    is_submitted-append "invalid args: " (error_text e) refl
submit-is_acceptable p on_finding (ok a) w =
    elim (Bool-cases
      (str_eq a.risk_level "high" || str_eq a.risk_level "medium" || str_eq a.risk_level "low")) [
        | inr unknown ↦ rw unknown (
            is_submitted-append "invalid risk_level "
              (p.quote a.risk_level <> ": must be 'high', 'medium', or 'low'") refl)
        | inl known ↦ rw known (elim (Bool-cases (str_eq a.explanation "")) [
          | inl silent ↦ rw silent refl
          | inr said ↦ rw said (elim (Bool-cases (str_eq a.recommendations "")) [
            | inl none_given ↦ rw none_given refl
            | inr given ↦ rw given refl
          ])
        ])
      ]

-- The tool answers "finding submitted" to exactly the arguments that end the agent's run.
pub execute-accepts :
    {W : Type 0} (p : Platform) (on_finding : Option (Finding → W → W)) (task : AnalyzeClauseTask)
    (args : String) (w : W)
    → is_submitted ((execute p on_finding args w).0)
      ≡ is_ok (parse_and_validate_finding p task args)
unfolding execute parse_and_validate_finding
execute-accepts p on_finding task args w =
    submit-is_acceptable p on_finding (p.unmarshal_submit args) w
    ∙ sym (check_args-is_acceptable p.quote task (p.unmarshal_submit args))
