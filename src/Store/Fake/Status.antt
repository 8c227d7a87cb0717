-- ===== src/Store/Fake/Status.antt =====
-- The statuses of contracts in the store in memory (store/fake.go).
use contract_review_ai_agent.Common.{
  String, ◌≡◌, refl, Option, none, some, ok, lookup, insert, lookup-insert, eq_refl, Option-cases,
  inl, inr,
}
use contract_review_ai_agent.Domain.{ContractStatus, Contract}
use contract_review_ai_agent.Store.Fake.{
  FakeStore, fake_store, changed, change_contract, get_contract, update_contract_status,
}
use contract_review_ai_agent.Store.Laws.{KeepsStatus}

status_in : Option Contract → Option ContractStatus
status_in none = none
status_in (some c) = some c.status

fake_status : FakeStore → String → Option ContractStatus
unfolding status_in
fake_status f id = status_in (lookup id f.contracts)

-- A read of a contract, found or not, leaves the store as it is.
pub fake_store-get_contract : (id : String) (f : FakeStore) → (fake_store.get_contract id f).1 ≡ f
unfolding fake_store get_contract
fake_store-get_contract id f = elim (Option-cases (lookup id f.contracts)) [
  | inl absent ↦ rw (absent, get_contract) refl
  | inr (c, there) ↦ rw (there, get_contract) refl
]

fake_store-reads :
    (id : String) (f g : FakeStore) (c : Contract)
    → fake_store.get_contract id f ≡ (ok c, g)
    → (g ≡ f) × (fake_status f id ≡ some c.status)
unfolding fake_store fake_status status_in get_contract
fake_store-reads id f g c = go (lookup id f.contracts) refl
  where
    go :
        (o : Option Contract)
        → lookup id f.contracts ≡ o
        → fake_store.get_contract id f ≡ (ok c, g)
        → (g ≡ f) × (status_in (lookup id f.contracts) ≡ some c.status)
    go none absent = rw absent (λ h. cc)
    go (some d) there = rw there (λ h. (cc, cc))

changed-writes :
    (id : String) (status : ContractStatus) (o : Option Contract) (f g : FakeStore) (u : Unit {0})
    → changed (λ c. record c { status = status }) id o f ≡ (ok u, g)
    → fake_status g id ≡ some status
unfolding changed fake_status status_in
changed-writes id status none f g u h = cc
changed-writes id status (some c) f g u h =
    let stored : g.contracts ≡ insert id (record c { status = status }) f.contracts = cc in
    rw (stored, lookup-insert, eq_refl) refl

fake_store-writes :
    (id : String) (status : ContractStatus) (f g : FakeStore) (u : Unit {0})
    → fake_store.update_contract_status id status f ≡ (ok u, g)
    → fake_status g id ≡ some status
unfolding fake_store update_contract_status change_contract
fake_store-writes id status f g u = changed-writes id status (lookup id f.contracts) f g u

-- The store in memory keeps the statuses of its contracts.
pub fake_store-KeepsStatus : KeepsStatus fake_store
fake_store-KeepsStatus = record {
  status_of = fake_status;
  reads = fake_store-reads;
  writes = fake_store-writes;
}
