-- ===== src/Fixtures/Databases.antt =====
-- Data for the tests of the store over PostgreSQL: a database without rights.
use contract_review_ai_agent.Common.{[], none, err, plain, no_rows, Go, pure, fail}
use contract_review_ai_agent.Store.Queries.{Queries}

abbrev pub refused : {A W : Type 0} → Go W A
refused w = (err (plain "permission denied"), w)

-- What writes is refused, and what reads finds nothing.
abbrev pub refusing : {W : Type 0} → Queries W
refusing = record {
  create_contract_with_options = λ row. refused;
  get_contract = λ id. fail no_rows;
  update_contract_status = λ id status. pure tt;
  update_contract_text = λ id text. pure tt;
  begin = refused;
  commit = refused;
  rollback = refused;
  create_clause = λ row. refused;
  get_clauses_by_contract = λ id. pure [];
  create_clause_analysis = λ row. refused;
  get_analyses_by_contract = λ id. refused;
  create_review = λ row. refused;
  get_reviews_by_contract = λ id. pure [];
  upsert_summary = λ row. refused;
  get_summary_by_contract = λ id. fail no_rows;
  query_library = λ pattern. pure (record { scanned = []; failure = none });
  query_standard_clause = λ clause_type. fail no_rows;
  insert_run = λ id contract_id. refused;
  update_run = λ id status. pure tt;
  insert_agent_run = λ id clause_id run_id. refused;
  upsert_agent_step = λ step. refused;
  update_agent_run = λ id status steps tokens cost. pure tt;
  query_agent_run = λ clause_id. fail no_rows;
  query_agent_steps = λ id. pure (record { scanned = []; failure = none });
  query_finding = λ clause_id. fail no_rows;
}
