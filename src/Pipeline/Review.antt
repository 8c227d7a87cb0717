-- ===== src/Pipeline/Review.antt =====
-- pipeline/review.go: the decisions of a human reviewer, read line by line, and the check that every
-- clause has one. The input is the list of the lines that are left; past its end ReadString gives an
-- empty line for ever, and the loops that wait for a decision take fuel. Prompts are left out.
pub mod Decisions
pub mod Resume
use contract_review_ai_agent.Common.{
  ℕ, zero, suc, ◌+◌, String, ◌<>◌, Bool, true, false, not, Option, none, some, List, [], ◌∷◌,
  Result, ok, err, Error, plain, Go, pure, fail, ◌>>=◌, ◌>>◌, orelse, length, decimal, select,
  exists_in, str_eq, if◌then◌else◌, ltb,
}
use contract_review_ai_agent.Domain.{
  ContractStatus, review_pending, review_complete, Contract, Clause, Review,
}
use contract_review_ai_agent.Platform.{Platform, to_lower, trim_space}
use contract_review_ai_agent.Store.{Store}
use contract_review_ai_agent.Pipeline.ClauseSplitting.{wrong_status}

pub data Decision : Type 0 where
  approved rejected note : Decision

unfoldable pub decision_text : Decision → String
decision_text approved = "approved"
decision_text rejected = "rejected"
decision_text note = "note"

module _ (p : Platform) where
  decision_of : String → String → Result Decision
  decision_of input key =
      if str_eq key "a"
      then ok approved
      else if str_eq key "r"
      then ok rejected
      else if str_eq key "n"
      then ok note
      else err (plain ("invalid input " <> p.quote input <> ": enter a, r, or n"))

  unfoldable pub parse_decision : String → Result Decision
  unfolding decision_of
  parse_decision input = decision_of input (to_lower p (trim_space p input))

-- `ReadString('\n')` with its error dropped
unfoldable pub read_line : List String → String × List String
read_line [] = ("", [])
read_line (l ∷ ls) = (l, ls)

-- A final decision with its annotation, and the lines left
abbrev pub Decided : Type 0
Decided = Option ((Decision × String) × List String)

module _ (p : Platform) where
  -- The inner loop, behind an annotation: a note is no decision.
  after_note : (List String → Decided) → String → List String → Result Decision → Decided
  after_note again annotation ls (ok approved) = some ((approved, annotation), ls)
  after_note again annotation ls (ok rejected) = some ((rejected, annotation), ls)
  after_note again annotation ls (ok note) = again ls
  after_note again annotation ls (err e) = again ls

  unfoldable pub decide_noted : ℕ → String → List String → Decided
  unfolding after_note
  decide_noted zero annotation ls = none
  decide_noted (suc fuel) annotation ls =
      let (line, rest) = read_line ls in
      after_note (decide_noted fuel annotation) annotation rest
        (parse_decision p (trim_space p line))

  after_line : (List String → Decided) → ℕ → List String → Result Decision → Decided
  after_line again fuel ls (ok approved) = some ((approved, ""), ls)
  after_line again fuel ls (ok rejected) = some ((rejected, ""), ls)
  after_line again fuel ls (ok note) =
      let (line, rest) = read_line ls in decide_noted fuel (trim_space p line) rest
  after_line again fuel ls (err e) = again ls

  -- The outer loop
  unfoldable pub decide : ℕ → List String → Decided
  unfolding after_line
  decide zero ls = none
  decide (suc fuel) ls =
      let (line, rest) = read_line ls in
      after_line (decide fuel) fuel rest (parse_decision p (trim_space p line))

unfoldable pub is_reviewed : List Review → Clause → Bool
is_reviewed reviews c = exists_in (λ r. str_eq r.clause_id c.id) reviews

unfoldable pub missing : List Clause → List Review → ℕ
missing clauses reviews = length (select (λ c. not (is_reviewed reviews c)) clauses)

module _ {W : Type 0} (p : Platform) (new_uuid : W → String × W) (s : Store W) where
  save_decision : Clause → Decision → String → Go W (Unit {0})
  save_decision c d annotation w =
      let (id, w') = new_uuid w in
      orelse ("save review for clause " <> c.id)
        (s.save_review (record {
          id = id;
          clause_id = c.id;
          decision = decision_text d;
          annotation = annotation;
        }))
        w'

  -- `false`: the fuel ran out, and the loop still waits for a decision.
  decided : (List String → Go W Bool) → Clause → Decided → Go W Bool
  unfolding save_decision
  decided rest c none = pure false
  decided rest c (some ((d, annotation), ls)) = do save_decision c d annotation; rest ls

  unfoldable pub review_clauses : ℕ → List Review → List Clause → List String → Go W Bool
  unfolding decided
  review_clauses fuel reviews [] ls = pure true
  review_clauses fuel reviews (c ∷ cs) ls =
      let others = review_clauses fuel reviews cs in
      if is_reviewed reviews c then others ls else decided others c (decide p fuel ls)

  -- `RunReview`
  unfoldable pub review_found : ℕ → String → ContractStatus → List String → Go W Bool
  unfolding review_clauses
  review_found fuel contract_id review_pending ls = do
    clauses ← orelse "get clauses" (s.get_clauses contract_id)
    analyses ← orelse "get analyses" (s.get_analyses contract_id)
    reviews ← orelse "get reviews" (s.get_reviews contract_id)
    review_clauses fuel reviews clauses ls
  review_found fuel contract_id status ls = fail (wrong_status contract_id status review_pending)

  unfoldable pub run_review : ℕ → String → List String → Go W Bool
  unfolding review_found
  run_review fuel contract_id ls = do
    contract ← orelse "get contract" (s.get_contract contract_id)
    review_found fuel contract_id contract.status ls

  -- `RunResume`
  unfoldable pub require_all : String → ℕ → Go W (Unit {0})
  require_all contract_id n =
      if ltb 0 n
      then fail (
          plain (
            decimal n <> " clause(s) still need a decision — run: go run . review " <> contract_id))
      else pure tt

  unfoldable pub resume_found :
      (String → Go W (Unit {0})) → String → ContractStatus → Go W (Unit {0})
  resume_found summarize contract_id review_pending = do
    clauses ← orelse "get clauses" (s.get_clauses contract_id)
    reviews ← orelse "get reviews" (s.get_reviews contract_id)
    require_all contract_id (missing clauses reviews)
    orelse "update status" (s.update_contract_status contract_id review_complete)
    summarize contract_id
  resume_found summarize contract_id status = fail (wrong_status contract_id status review_pending)

  unfoldable pub run_resume : (String → Go W (Unit {0})) → String → Go W (Unit {0})
  unfolding resume_found
  run_resume summarize contract_id = do
    contract ← orelse "get contract" (s.get_contract contract_id)
    resume_found summarize contract_id contract.status
