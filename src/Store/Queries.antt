-- ===== src/Store/Queries.antt =====
-- The database as store/postgres.go calls it: the queries of store/db and those that the code gives as
-- text are calls on the world, and what the database does with them is a parameter.
use contract_review_ai_agent.Common.{
  ℕ, ℤ, String, Option, none, some, List, [], ◌∷◌, Result, ok, err, wrap, Error, Go,
}
use contract_review_ai_agent.Domain.{LibraryClause}
use contract_review_ai_agent.Store.{AgentRun, AgentStep}
use contract_review_ai_agent.Store.Rows.{ContractRow, ClauseRow, AnalysisRow, ReviewRow, SummaryRow}

-- What `rows.Next` and `rows.Scan` give one after another, and `rows.Err()` behind the last.
pub record Rows (A : Type 0) : Type 0 where
  pub scanned : List (Result A)
  pub failure : Option Error

-- The loop over the rows of a query; an error of a row or of their end is named.
unfoldable pub collect :
    {A : Type 0} → String → String → List (Result A) → Option Error → Result (List A)
collect row_error end_error [] none = ok []
collect row_error end_error [] (some e) = err (wrap end_error e)
collect row_error end_error (err e ∷ rows) failure = err (wrap row_error e)
collect row_error end_error (ok a ∷ rows) failure =
    elim (collect row_error end_error rows failure) [ ok found ↦ ok (a ∷ found) | err e ↦ err e ]

-- The queries that the store runs, under the names of store/db where they have one.
pub record Queries (W : Type 0) : Type 0 where
  pub create_contract_with_options : ContractRow → Go W ContractRow
  pub get_contract : String → Go W ContractRow
  pub update_contract_status : String → String → Go W (Unit {0})
  pub update_contract_text : String → String → Go W (Unit {0})
  pub begin : Go W (Unit {0})
  pub commit : Go W (Unit {0})
  pub rollback : Go W (Unit {0})
  pub create_clause : ClauseRow → Go W ClauseRow
  pub get_clauses_by_contract : String → Go W (List ClauseRow)
  pub create_clause_analysis : AnalysisRow → Go W AnalysisRow
  pub get_analyses_by_contract : String → Go W (List AnalysisRow)
  pub create_review : ReviewRow → Go W ReviewRow
  pub get_reviews_by_contract : String → Go W (List ReviewRow)
  pub upsert_summary : SummaryRow → Go W SummaryRow
  pub get_summary_by_contract : String → Go W SummaryRow
  -- the pattern of both ILIKE tests
  pub query_library : String → Go W (Rows LibraryClause)
  pub query_standard_clause : String → Go W LibraryClause
  pub insert_run : String → String → Go W (Unit {0})
  pub update_run : String → String → Go W (Unit {0})
  -- a missing run's identifier is NULL
  pub insert_agent_run : String → String → Option String → Go W (Unit {0})
  pub upsert_agent_step : AgentStep → Go W (Unit {0})
  pub update_agent_run : String → String → ℤ → ℕ → ℕ → Go W (Unit {0})
  pub query_agent_run : String → Go W AgentRun
  pub query_agent_steps : String → Go W (Rows AgentStep)
  pub query_finding : String → Go W AnalysisRow
