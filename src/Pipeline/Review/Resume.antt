-- ===== src/Pipeline/Review/Resume.antt =====
-- The check of RunResume (pipeline/review.go) before the report.
use contract_review_ai_agent.Common.{
  ℕ, String, ◌≡◌, refl, true, List, [], ◌∷◌, ok, Go, orelse, >>=-first, orelse-ok, arith,
  Bool-cases, inl, inr,
}
use contract_review_ai_agent.Domain.{ContractStatus, review_pending, Contract, Clause, Review}
use contract_review_ai_agent.Platform.{Platform}
use contract_review_ai_agent.Store.{Store}
use contract_review_ai_agent.Pipeline.Review.{
  is_reviewed, missing, require_all, resume_found, run_resume,
}

-- Each clause has a review among those.
pub data AllReviewed (reviews : List Review) : List Clause → Type 0 where
  no_clauses : AllReviewed reviews []
  one_reviewed :
      {c : Clause} {cs : List Clause}
      → is_reviewed reviews c ≡ true
      → AllReviewed reviews cs
      → AllReviewed reviews (c ∷ cs)

missing-AllReviewed :
    (cs : List Clause) (reviews : List Review) → missing cs reviews ≡ 0 → AllReviewed reviews cs
unfolding missing
missing-AllReviewed [] reviews h = no_clauses
missing-AllReviewed (c ∷ cs) reviews h = elim (Bool-cases (is_reviewed reviews c)) [
  | inl seen ↦ one_reviewed seen (missing-AllReviewed cs reviews (ground (arith, h, seen)))
  | inr unseen ↦ absurd (ground (arith, h, unseen))
]

module _ {W : Type 0} (p : Platform) (new_uuid : W → String × W) (s : Store W)
    (summarize : String → Go W (Unit {0})) (id : String) where
  require_all-zero :
      (n : ℕ) (w w' : W) (u : Unit {0}) → require_all p new_uuid s id n w ≡ (ok u, w') → n ≡ 0
  unfolding require_all
  require_all-zero n w w' u h = ground (arith, h)

  -- What the store gave to a check that began in `w`: the contract, which waited for its review, its
  -- clauses, and then reviews in which each of the clauses has one.
  pub record Checked (w : W) : Type 0 where
    pub contract : Contract
    pub clauses : List Clause
    pub reviews : List Review
    pub before : W
    pub between : W
    pub after : W
    pub read_contract : s.get_contract id w ≡ (ok contract, before)
    pub waited : contract.status ≡ review_pending
    pub read_clauses : s.get_clauses id before ≡ (ok clauses, between)
    pub read_reviews : s.get_reviews id between ≡ (ok reviews, after)
    pub all_reviewed : AllReviewed reviews clauses

  resume_found-Checked :
      (w0 : W) (c : Contract) (w : W)
      → s.get_contract id w0 ≡ (ok c, w)
      → (st : ContractStatus) → c.status ≡ st
      → (w' : W) (u : Unit {0}) → resume_found p new_uuid s summarize id st w ≡ (ok u, w')
      → Checked w0
  unfolding resume_found
  resume_found-Checked w0 c w found review_pending pending w' u h =
      >>=-first (Checked w0) (orelse "get clauses" (s.get_clauses id)) _ w w' u
        (λ clauses v read rest.
          >>=-first (Checked w0) (orelse "get reviews" (s.get_reviews id)) _ v w' u
            (λ reviews v2 read2 rest2.
              >>=-first (Checked w0) (require_all p new_uuid s id (missing clauses reviews)) _ v2 w'
                u
                (λ x v3 passed rest3. record {
                  clauses = clauses;
                  reviews = reviews;
                  contract = c;
                  before = w;
                  read_contract = found;
                  waited = pending;
                  between = v;
                  after = v2;
                  read_clauses = orelse-ok "get clauses" (s.get_clauses id) w v clauses read;
                  read_reviews = orelse-ok "get reviews" (s.get_reviews id) v v2 reviews read2;
                  all_reviewed =
                      missing-AllReviewed clauses reviews
                        (require_all-zero (missing clauses reviews) v2 v3 x passed);
                })
                rest2)
            rest)
        h
  resume_found-Checked w0 c w found st other w' u h = absurd cc

  -- Where RunResume reports success, the contract waited for its review, and the store gave its
  -- clauses and then reviews in which each of the clauses has one.
  pub run_resume-Checked :
      (w w' : W) (u : Unit {0}) → run_resume p new_uuid s summarize id w ≡ (ok u, w') → Checked w
  unfolding run_resume
  run_resume-Checked w w' u =
      >>=-first (Checked w) (orelse "get contract" (s.get_contract id)) _ w w' u λ c v read rest.
        resume_found-Checked w c v (orelse-ok "get contract" (s.get_contract id) w v c read)
          c.status refl w' u rest
