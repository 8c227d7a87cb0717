-- ===== src/Store/Fake.antt =====
-- store/fake.go: the store in memory, as an instance of the interface. Its five maps are association
-- lists; `uuid.New` is the function `uuids` of the number of identifiers issued before. The mutex is
-- held for the whole of each method, so a method is one step.
pub mod Status
pub mod Clauses
use contract_review_ai_agent.Common.{
  ℕ, suc, String, Bool, false, Option, none, some, List, [], ◌∷◌, ok, err, not_found, Go, Assoc,
  lookup, insert,
}
use contract_review_ai_agent.Domain.{
  ContractStatus, uploaded, Contract, Clause, ClauseAnalysis, Review, Summary, LibraryClause,
}
use contract_review_ai_agent.Store.{AgentStore, Store}

pub record FakeStore : Type 0 where
  pub contracts : Assoc Contract
  pub clauses : Assoc (List Clause)
  pub analyses : Assoc ClauseAnalysis
  pub reviews : Assoc Review
  pub summaries : Assoc Summary
  pub uuids : ℕ → String
  pub issued : ℕ

unfoldable pub new_fake_store : (ℕ → String) → FakeStore
new_fake_store uuids = record {
  contracts = [];
  clauses = [];
  analyses = [];
  reviews = [];
  summaries = [];
  uuids = uuids;
  issued = 0;
}

create_contract_with_options : String → String → Bool → Go FakeStore Contract
create_contract_with_options filename raw_text requires_review f =
    let c : Contract = record {
      id = f.uuids f.issued;
      filename = filename;
      raw_text = raw_text;
      status = uploaded;
      requires_review = requires_review;
    } in
    (ok c, record f { contracts = insert c.id c f.contracts; issued = suc f.issued })

get_contract : String → Go FakeStore Contract
get_contract id f = elim (lookup id f.contracts) [ some c ↦ (ok c, f) | none ↦ (err not_found, f) ]

-- A change of a contract that is there
changed : (Contract → Contract) → String → Option Contract → Go FakeStore (Unit {0})
changed change id none f = (err not_found, f)
changed change id (some c) f = (ok tt, record f { contracts = insert id (change c) f.contracts })

change_contract : (Contract → Contract) → String → Go FakeStore (Unit {0})
unfolding changed
change_contract change id f = changed change id (lookup id f.contracts) f

update_contract_status : String → ContractStatus → Go FakeStore (Unit {0})
unfolding change_contract
update_contract_status id status = change_contract (λ c. record c { status = status }) id

update_contract_text : String → String → Go FakeStore (Unit {0})
unfolding change_contract
update_contract_text id raw_text = change_contract (λ c. record c { raw_text = raw_text }) id

save_clauses : String → List Clause → Go FakeStore (Unit {0})
save_clauses contract_id cs f = (ok tt, record f { clauses = insert contract_id cs f.clauses })

-- A missing key gives Go's nil slice.
unfoldable pub clauses_of : String → FakeStore → List Clause
clauses_of contract_id f = elim (lookup contract_id f.clauses) [ some cs ↦ cs | none ↦ [] ]

get_clauses : String → Go FakeStore (List Clause)
unfolding clauses_of
get_clauses contract_id f = (ok (clauses_of contract_id f), f)

-- The values kept for the clauses of a list, in its order
unfoldable pub kept_for : {A : Type 0} → Assoc A → List Clause → List A
kept_for m [] = []
kept_for m (c ∷ cs) =
    let rest = kept_for m cs in elim (lookup c.id m) [ some a ↦ a ∷ rest | none ↦ rest ]

save_analysis : ClauseAnalysis → Go FakeStore (Unit {0})
save_analysis a f = (ok tt, record f { analyses = insert a.clause_id a f.analyses })

get_analyses : String → Go FakeStore (List ClauseAnalysis)
unfolding clauses_of kept_for
get_analyses contract_id f = (ok (kept_for f.analyses (clauses_of contract_id f)), f)

save_review : Review → Go FakeStore (Unit {0})
save_review r f = (ok tt, record f { reviews = insert r.clause_id r f.reviews })

get_reviews : String → Go FakeStore (List Review)
unfolding clauses_of kept_for
get_reviews contract_id f = (ok (kept_for f.reviews (clauses_of contract_id f)), f)

save_summary : String → String → Go FakeStore (Unit {0})
save_summary contract_id content f =
    let s : Summary = record {
      id = f.uuids f.issued;
      contract_id = contract_id;
      content = content;
    } in
    (ok tt, record f { summaries = insert contract_id s f.summaries; issued = suc f.issued })

get_summary : String → Go FakeStore Summary
get_summary contract_id f = elim (lookup contract_id f.summaries) [
  | some s ↦ (ok s, f)
  | none ↦ (err not_found, f)
]

no_agent_runs : AgentStore FakeStore
no_agent_runs = record {
  load_agent_run = λ clause_id f. (ok none, f);
  start_agent_run = λ id clause_id run_id f. (ok tt, f);
  append_agent_step = λ id i messages usage f. (ok tt, f);
  finish_agent_run = λ id status steps tokens cost f. (ok tt, f);
  get_stored_finding = λ clause_id f. (err not_found, f);
}

unfoldable pub fake_store : Store FakeStore
unfolding create_contract_with_options get_contract update_contract_status update_contract_text
    save_clauses get_clauses save_analysis get_analyses save_review get_reviews save_summary
    get_summary no_agent_runs
fake_store = record {
  create_contract = λ filename raw_text. create_contract_with_options filename raw_text false;
  create_contract_with_options = create_contract_with_options;
  get_contract = get_contract;
  update_contract_status = update_contract_status;
  update_contract_text = update_contract_text;
  save_clauses = save_clauses;
  get_clauses = get_clauses;
  save_analysis = save_analysis;
  get_analyses = get_analyses;
  save_review = save_review;
  get_reviews = get_reviews;
  save_summary = save_summary;
  get_summary = get_summary;
  search_clause_library = λ query f. (ok [], f);
  get_standard_clause = λ clause_type f. (err not_found, f);
  start_run = λ id contract_id f. (ok tt, f);
  finish_run = λ id status f. (ok tt, f);
  agent_runs = no_agent_runs;
}
