-- ===== src/Pipeline/Review/Decisions.antt =====
-- What a reviewer's lines decide (pipeline/review.go).
use contract_review_ai_agent.Common.{
  ℕ, zero, suc, String, ◌≡◌, ◌≢◌, refl, none, some, List, [], ◌∷◌, ◌++◌, length, Result, ok, err,
  Error,
}
use contract_review_ai_agent.Platform.{Platform, trim_space, to_lower}
use contract_review_ai_agent.Pipeline.Review.{
  Decided, Decision, approved, rejected, note, parse_decision, decide, decide_noted, after_note,
  after_line, read_line,
}

module _ (p : Platform) where
  -- A line that the outer loop asks again for
  pub data AreRefused : List String → Type 0 where
    no_lines : AreRefused []
    one_refused :
        {l : String} {ls : List String} (e : Error)
        → parse_decision p (trim_space p l) ≡ err e
        → AreRefused ls
        → AreRefused (l ∷ ls)

  -- Behind any number of refused lines, an approval or a rejection is the decision, with no
  -- annotation; one round for each line is fuel enough, and the lines behind it are left.
  pub decide-answers :
      (before : List String) (line : String) (rest : List String) (d : Decision)
      → AreRefused before
      → parse_decision p (trim_space p line) ≡ ok d
      → d ≢ note
      → decide p (suc (length before)) (before ++ (line ∷ rest)) ≡ some ((d, ""), rest)
  unfolding decide read_line after_line
  decide-answers _ line rest approved no_lines answer final = rw answer refl
  decide-answers _ line rest rejected no_lines answer final = rw answer refl
  decide-answers _ line rest note no_lines answer final = absurd (final refl)
  decide-answers _ line rest d (one_refused e bad others) answer final =
      rw bad (decide-answers _ line rest d others answer final)

  -- At the end of the input the loop never decides, whatever the number of rounds.
  pub decide-at_end : (fuel : ℕ) → decide p fuel [] ≡ none
  unfolding decide read_line after_line parse_decision to_lower trim_space
  decide-at_end zero = refl
  decide-at_end (suc fuel) = decide-at_end fuel

  -- The rest of a loop never decides on a note.
  abbrev NeverNote : (List String → Decided) → Type 0
  NeverNote again =
      (ls : List String) (d : Decision) (a : String) (rest : List String)
      → again ls ≡ some ((d, a), rest)
      → d ≢ note

  after_note-final :
      (again : List String → Decided) (annotation : String) (ls : List String) (r : Result Decision)
      (d : Decision) (a : String) (rest : List String)
      → NeverNote again
      → after_note p again annotation ls r ≡ some ((d, a), rest)
      → d ≢ note
  unfolding after_note
  after_note-final again annotation ls (ok approved) d a rest ih h = λ e. cc
  after_note-final again annotation ls (ok rejected) d a rest ih h = λ e. cc
  after_note-final again annotation ls (ok note) d a rest ih h = ih ls d a rest h
  after_note-final again annotation ls (err x) d a rest ih h = ih ls d a rest h

  decide_noted-final : (fuel : ℕ) (annotation : String) → NeverNote (decide_noted p fuel annotation)
  unfolding decide_noted
  decide_noted-final zero annotation ls d a rest h = cc
  decide_noted-final (suc fuel) annotation ls d a rest h =
      let (line, later) = read_line ls in
      after_note-final (decide_noted p fuel annotation) annotation later
        (parse_decision p (trim_space p line)) d a rest (decide_noted-final fuel annotation) h

  after_line-final :
      (again : List String → Decided) (fuel : ℕ) (ls : List String) (r : Result Decision)
      (d : Decision) (a : String) (rest : List String)
      → NeverNote again
      → after_line p again fuel ls r ≡ some ((d, a), rest)
      → d ≢ note
  unfolding after_line
  after_line-final again fuel ls (ok approved) d a rest ih h = λ e. cc
  after_line-final again fuel ls (ok rejected) d a rest ih h = λ e. cc
  after_line-final again fuel ls (ok note) d a rest ih h =
      let (line, later) = read_line ls in
      decide_noted-final fuel (trim_space p line) later d a rest h
  after_line-final again fuel ls (err x) d a rest ih h = ih ls d a rest h

  -- Whatever the lines, a note is never the decision that is saved.
  pub decide-final :
      (fuel : ℕ) (ls : List String) (d : Decision) (a : String) (rest : List String)
      → decide p fuel ls ≡ some ((d, a), rest)
      → d ≢ note
  unfolding decide
  decide-final zero ls d a rest h = cc
  decide-final (suc fuel) ls d a rest h =
      let (line, later) = read_line ls in
      after_line-final (decide p fuel) fuel later (parse_decision p (trim_space p line)) d a rest
        (decide-final fuel) h
