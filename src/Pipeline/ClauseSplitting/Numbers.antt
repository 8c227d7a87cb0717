-- ===== src/Pipeline/ClauseSplitting/Numbers.antt =====
-- The numbers of the clauses that pipeline/clause_splitting.go saves.
use contract_review_ai_agent.Common.{ℕ, suc, String, ◌≡◌, refl, List, [], ◌∷◌}
use contract_review_ai_agent.Domain.{Clause}
use contract_review_ai_agent.Llm.{Llm}
use contract_review_ai_agent.Platform.{Platform}
use contract_review_ai_agent.Store.{Store}
use contract_review_ai_agent.Pipeline.ClauseSplitting.{number_clauses}

-- The clauses stand for the texts, in order, under the numbers from `suc i` on, in one contract.
pub data AreNumbered (contract_id : String) : ℕ → List String → List Clause → Type 0 where
  none_left : {i : ℕ} → AreNumbered contract_id i [] []
  one_more :
      {i : ℕ} {t : String} {ts : List String} {c : Clause} {cs : List Clause}
      → c.text ≡ t
      → c.sequence_number ≡ suc i
      → c.contract_id ≡ contract_id
      → AreNumbered contract_id (suc i) ts cs
      → AreNumbered contract_id i (t ∷ ts) (c ∷ cs)

module _ {W : Type 0} (p : Platform) (new_uuid : W → String × W) (client : Llm W)
    (s : Store W) where
  -- The clauses that are saved are the texts in order, numbered from 1 without a gap.
  pub number_clauses-AreNumbered :
      (contract_id : String) (i : ℕ) (texts : List String) (w : W)
      → AreNumbered contract_id i texts (number_clauses p new_uuid client s contract_id i texts w).0
  unfolding number_clauses
  number_clauses-AreNumbered contract_id i [] w = none_left
  number_clauses-AreNumbered contract_id i (t ∷ ts) w =
      one_more refl refl refl (number_clauses-AreNumbered contract_id (suc i) ts ((new_uuid w).1))
