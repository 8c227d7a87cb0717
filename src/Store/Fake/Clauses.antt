-- ===== src/Store/Fake/Clauses.antt =====
-- The clauses of contracts in the store in memory (store/fake.go).
use mathlib.Core.List.{Subset, Subset-refl}
use contract_review_ai_agent.Common.{
  String, ◌≡◌, refl, subst, sym, Option, none, some, List, ok, lookup, insert, lookup-insert,
  eq_refl,
}
use contract_review_ai_agent.Domain.{ContractStatus, Contract, Clause}
use contract_review_ai_agent.Store.Fake.{
  FakeStore, fake_store, changed, change_contract, clauses_of, get_clauses, save_clauses,
  update_contract_status,
}
use contract_review_ai_agent.Store.Laws.{KeepsClauses}

listed : FakeStore → String → List Clause
unfolding clauses_of
listed f id = clauses_of id f

fake_store-lists :
    (id : String) (f g : FakeStore) (cs : List Clause)
    → fake_store.get_clauses id f ≡ (ok cs, g)
    → listed f id ≡ cs
unfolding fake_store get_clauses listed
fake_store-lists id f g cs h = cc

fake_store-saves :
    (id : String) (cs : List Clause) (f g : FakeStore) (u : Unit {0})
    → fake_store.save_clauses id cs f ≡ (ok u, g)
    → Subset cs (listed g id)
unfolding fake_store save_clauses listed clauses_of
fake_store-saves id cs f g u h =
    let stored : g.clauses ≡ insert id cs f.clauses = cc in
    let same : listed g id ≡ cs = rw (stored, clauses_of, lookup-insert, eq_refl) refl in
    subst (Subset cs) (sym same) (Subset-refl cs)

changed-keeps :
    (id other : String) (change : Contract → Contract) (o : Option Contract) (f g : FakeStore)
    (u : Unit {0})
    → changed change id o f ≡ (ok u, g)
    → listed g other ≡ listed f other
unfolding changed listed clauses_of
changed-keeps id other change none f g u h = absurd cc
changed-keeps id other change (some c) f g u h =
    let same : g.clauses ≡ f.clauses = cc in rw same refl

fake_store-keeps :
    (id other : String) (status : ContractStatus) (f g : FakeStore) (u : Unit {0})
    → fake_store.update_contract_status id status f ≡ (ok u, g)
    → listed g other ≡ listed f other
unfolding fake_store update_contract_status change_contract
fake_store-keeps id other status f g u =
    changed-keeps id other (λ c. record c { status = status }) (lookup id f.contracts) f g u

-- The store in memory keeps the clauses of its contracts.
pub fake_store-KeepsClauses : KeepsClauses fake_store
fake_store-KeepsClauses = record {
  clauses_of = listed;
  lists = fake_store-lists;
  saves = fake_store-saves;
  keeps = fake_store-keeps;
}
