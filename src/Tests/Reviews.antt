-- ===== src/Tests/Reviews.antt =====
-- Tests of pipeline/review.go and pipeline/summarize.go.
use contract_review_ai_agent.Common.{
  ◌≡◌, ◌≢◌, refl, none, some, [], ◌∷◌, length, ok, err, plain, lookup, insert, runes,
}
use contract_review_ai_agent.Domain.{Review}
use contract_review_ai_agent.Store.Fake.{FakeStore, fake_store}
use contract_review_ai_agent.Pipeline.Review.{approved, note, parse_decision, decide}
use contract_review_ai_agent.Pipeline.Review.Decisions.{
  no_lines, one_refused, decide-answers, decide-at_end, decide-final,
}
use contract_review_ai_agent.Pipeline.Summarize.{
  build_inputs, truncate_to_token_budget, no_risks, no_decisions,
}
use contract_review_ai_agent.Pipeline.Summarize.Inputs.{
  Tallies, build_inputs-Tallies, Fits, truncate_to_token_budget-Fits,
}
use contract_review_ai_agent.Platform.{to_lower, trim_space}
use contract_review_ai_agent.Domain.{review_pending}
use contract_review_ai_agent.Pipeline.Review.{
  run_resume, resume_found, missing, is_reviewed, require_all,
}
use contract_review_ai_agent.Pipeline.Review.Resume.{Checked, run_resume-Checked}
use contract_review_ai_agent.Fixtures.{ascii, found_finding}
use contract_review_ai_agent.Fixtures.Contracts.{clause, holding, new_id}

refused :
    parse_decision ascii (trim_space ascii "yes")
    ≡ err (plain "invalid input \"yes\": enter a, r, or n")
unfolding parse_decision trim_space to_lower
refused = refl

approves : parse_decision ascii (trim_space ascii "a") ≡ ok approved
unfolding parse_decision trim_space to_lower
approves = refl

approved-ne-note : approved ≢ note
approved-ne-note h = cc

decide-answers_example : decide ascii 2 ("yes" ∷ "a" ∷ "r" ∷ []) ≡ some ((approved, ""), "r" ∷ [])
decide-answers_example =
    decide-answers ascii ("yes" ∷ []) "a" ("r" ∷ []) approved
      (one_refused (plain "invalid input \"yes\": enter a, r, or n") refused no_lines) approves
      approved-ne-note

decide-at_end_example : decide ascii 7 [] ≡ none
decide-at_end_example = decide-at_end ascii 7

decide-final_example : approved ≢ note
decide-final_example =
    decide-final ascii 2 ("yes" ∷ "a" ∷ "r" ∷ []) approved "" ("r" ∷ []) decide-answers_example

abbrev review : Review
review = record { id = "r-1"; clause_id = "cl-1"; decision = "approved"; annotation = "" }

build_inputs-Tallies_example :
    let (rc, rvc, inputs) =
      build_inputs
        (λ s. length (runes s))
        200
        (clause ∷ [])
        (record { key = "cl-1"; value = found_finding } ∷ [])
        (record { key = "cl-1"; value = review } ∷ [])
        no_risks
        no_decisions in
    Tallies no_risks no_decisions rc rvc inputs
build_inputs-Tallies_example =
    build_inputs-Tallies (λ s. length (runes s)) 200 (clause ∷ [])
      (record { key = "cl-1"; value = found_finding } ∷ [])
      (record { key = "cl-1"; value = review } ∷ []) no_risks no_decisions

truncate_to_token_budget-Fits_example :
    Fits
      (λ s. length (runes s))
      5
      "unlimited"
      (truncate_to_token_budget (λ s. length (runes s)) "unlimited" 5)
truncate_to_token_budget-Fits_example =
    truncate_to_token_budget-Fits (λ s. length (runes s)) "unlimited" 5

-- The contract waits for its review, and its clause has one.
abbrev reviewed : FakeStore
reviewed = record (holding review_pending) {
  reviews = record { key = "cl-1"; value = review } ∷ [];
}

checked : FakeStore
unfolding run_resume fake_store resume_found missing is_reviewed require_all lookup insert
checked = (run_resume ascii new_id fake_store (λ id w. (ok tt, w)) "c1" reviewed).1

checked_test :
    run_resume ascii new_id fake_store (λ id w. (ok tt, w)) "c1" reviewed ≡ (ok tt, checked)
unfolding checked
checked_test = refl

run_resume-Checked_example : Checked ascii new_id fake_store (λ id w. (ok tt, w)) "c1" reviewed
run_resume-Checked_example =
    run_resume-Checked ascii new_id fake_store (λ id w. (ok tt, w)) "c1" reviewed checked tt
      checked_test
