-- ===== src/Store/Laws.antt =====
-- What the pipeline relies on of a store (store/store.go): a read changes nothing, the status that was
-- written is the one read, and the clauses that were saved stay.
use mathlib.Core.List.{Subset}
use contract_review_ai_agent.Common.{String, ◌≡◌, Option, some, List, ok}
use contract_review_ai_agent.Domain.{ContractStatus, Contract, Clause}
use contract_review_ai_agent.Store.{Store}

-- The status of a contract as a function of the world, and what the calls do to it.
pub record KeepsStatus {W : Type 0} (s : Store W) : Type 0 where
  pub status_of : W → String → Option ContractStatus
  pub reads :
      (id : String) (w w1 : W) (c : Contract)
      → s.get_contract id w ≡ (ok c, w1)
      → (w1 ≡ w) × (status_of w id ≡ some c.status)
  pub writes :
      (id : String) (status : ContractStatus) (w w1 : W) (u : Unit {0})
      → s.update_contract_status id status w ≡ (ok u, w1)
      → status_of w1 id ≡ some status

-- The clauses of a contract as a function of the world: those that a read lists. A save leaves the saved
-- ones among them, and a change of a status none other.
pub record KeepsClauses {W : Type 0} (s : Store W) : Type 0 where
  pub clauses_of : W → String → List Clause
  pub lists :
      (id : String) (w w1 : W) (cs : List Clause)
      → s.get_clauses id w ≡ (ok cs, w1)
      → clauses_of w id ≡ cs
  pub saves :
      (id : String) (cs : List Clause) (w w1 : W) (u : Unit {0})
      → s.save_clauses id cs w ≡ (ok u, w1)
      → Subset cs (clauses_of w1 id)
  pub keeps :
      (id other : String) (status : ContractStatus) (w w1 : W) (u : Unit {0})
      → s.update_contract_status id status w ≡ (ok u, w1)
      → clauses_of w1 other ≡ clauses_of w other
