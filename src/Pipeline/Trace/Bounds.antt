-- ===== src/Pipeline/Trace/Bounds.antt =====
-- How long a text of pipeline/trace.go is.
use contract_review_ai_agent.Common.{
  ℕ, ◌+◌, ◌≤◌, String, ◌≡◌, refl, ◌++◌, length, take, leb, runes, from_runes, runes-from_runes,
  runes-append, length-append, length-take, Bool-cases, inl, inr, leb→le, arith, ◌⊎◌,
}
use contract_review_ai_agent.Pipeline.Trace.{trace_str}

-- A shortened text is at most one rune longer than its bound: it is the text, where that fits, or the
-- bound's number of the text's first runes and an ellipsis.
pub trace_str-bounds :
    (s : String) (n : ℕ)
    → (length (runes (trace_str s n)) ≤ n + 1)
      × ((trace_str s n ≡ s)
          ⊎ ((runes (trace_str s n) ≡ take n (runes s) ++ runes "…") × (n + 1 ≤ length (runes s))))
unfolding trace_str
trace_str-bounds s n = elim (Bool-cases (leb (length (runes s)) n)) [
  | inl fits ↦ rw fits (omega (arith, leb→le (length (runes s)) n fits), inl refl)
  | inr long ↦ rw long (
      rw (runes-append (from_runes (take n (runes s))) "…", runes-from_runes (take n (runes s)))
        (
          omega (arith, length-append (take n (runes s)) (runes "…"), length-take n (runes s)),
          inr (refl, ground arith),
        ))
]
