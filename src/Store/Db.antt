-- ===== src/Store/Db.antt =====
-- The queries of store/db/*.sql.go, over the connection of store/db/db.go. The connection is a parameter:
-- it takes a statement with its arguments and gives rows of values.
pub mod Statements
pub mod Scan
pub mod Stored
use contract_review_ai_agent.Common.{
  ℕ, String, Bool, true, false, Option, none, some, List, [], ◌∷◌, Result, ok, err, Error, Go, pure,
  ◌>>=◌, if◌then◌else◌,
}
use contract_review_ai_agent.Store.Rows.{
  Text, ContractRow, ClauseRow, AnalysisRow, ReviewRow, SummaryRow,
}
use contract_review_ai_agent.Store.Queries.{Rows, Queries}
use contract_review_ai_agent.Store.Db.Scan.{
  Value, text_value, int_value, bool_value, text_argument, scan_contract, scan_clause,
  scan_analysis, scan_review, scan_summary, analysis_arguments,
}
use contract_review_ai_agent.Store.Db.Statements.{
  create_contract_sql, create_contract_with_options_sql, get_contract_sql,
  update_contract_status_sql, update_contract_text_sql, create_clause_sql,
  get_clauses_by_contract_sql, create_clause_analysis_sql, get_analyses_by_contract_sql,
  create_review_sql, get_reviews_by_contract_sql, get_summary_by_contract_sql, upsert_summary_sql,
}

-- `DBTX`. A row that does not fit the variables it is scanned into is an error of pgx.
pub record Dbtx (W : Type 0) : Type 0 where
  pub exec : String → List Value → Go W (Unit {0})
  pub query_row : String → List Value → Go W (List Value)
  pub query : String → List Value → Go W (Rows (List Value))
  pub scan_error : Error

module _ {W : Type 0} (db : Dbtx W) where
  scanned : {A : Type 0} → Option A → Result A
  scanned none = err db.scan_error
  scanned (some a) = ok a

  -- A query of one row
  one : {A : Type 0} → (List Value → Option A) → String → List Value → Go W A
  unfolding scanned
  one scan sql arguments = db.query_row sql arguments >>= λ row w. (scanned (scan row), w)

  -- The rows up to the first error, of a row or of their end
  each :
      {A : Type 0}
      → (List Value → Option A)
      → List (Result (List Value))
      → Option Error
      → Result (List A)
  unfolding scanned
  each scan [] none = ok []
  each scan [] (some e) = err e
  each scan (err e ∷ rows) failure = err e
  each scan (ok row ∷ rows) failure = elim (scanned (scan row)) [
    | err e ↦ err e
    | ok a ↦ elim (each scan rows failure) [ ok items ↦ ok (a ∷ items) | err e ↦ err e ]
  ]

  -- A query of many rows
  many : {A : Type 0} → (List Value → Option A) → String → List Value → Go W (List A)
  unfolding each
  many scan sql arguments =
      db.query sql arguments >>= λ rows w. (each scan rows.scanned rows.failure, w)

  -- `CreateContract`, which the store does not call
  create_contract : String → String → String → String → Go W ContractRow
  unfolding one scan_contract
  create_contract id filename raw_text status =
      one scan_contract create_contract_sql
        (text_value id ∷ text_value filename ∷ text_value raw_text ∷ text_value status ∷ [])

  create_contract_with_options : ContractRow → Go W ContractRow
  unfolding one scan_contract
  create_contract_with_options r = one scan_contract create_contract_with_options_sql (
      text_value r.id
      ∷ text_value r.filename
      ∷ text_value r.raw_text
      ∷ text_value r.status
      ∷ bool_value r.requires_review
      ∷ [])

  get_contract : String → Go W ContractRow
  unfolding one scan_contract
  get_contract id = one scan_contract get_contract_sql (text_value id ∷ [])

  update_contract_status : String → String → Go W (Unit {0})
  update_contract_status id status =
      db.exec update_contract_status_sql (text_value id ∷ text_value status ∷ [])

  update_contract_text : String → String → Go W (Unit {0})
  update_contract_text id raw_text =
      db.exec update_contract_text_sql (text_value id ∷ text_value raw_text ∷ [])

  create_clause : ClauseRow → Go W ClauseRow
  unfolding one scan_clause
  create_clause r = one scan_clause create_clause_sql (
      text_value r.id
      ∷ text_value r.contract_id
      ∷ int_value r.sequence_number
      ∷ text_value r.text
      ∷ [])

  get_clauses_by_contract : String → Go W (List ClauseRow)
  unfolding many scan_clause
  get_clauses_by_contract id = many scan_clause get_clauses_by_contract_sql (text_value id ∷ [])

  create_clause_analysis : AnalysisRow → Go W AnalysisRow
  unfolding one scan_analysis
  create_clause_analysis r = one scan_analysis create_clause_analysis_sql (analysis_arguments r)

  get_analyses_by_contract : String → Go W (List AnalysisRow)
  unfolding many scan_analysis
  get_analyses_by_contract id = many scan_analysis get_analyses_by_contract_sql (text_value id ∷ [])

  create_review : ReviewRow → Go W ReviewRow
  unfolding one scan_review text_argument
  create_review r = one scan_review create_review_sql (
      text_value r.id
      ∷ text_value r.clause_id
      ∷ text_value r.decision
      ∷ text_argument r.annotation
      ∷ [])

  get_reviews_by_contract : String → Go W (List ReviewRow)
  unfolding many scan_review
  get_reviews_by_contract id = many scan_review get_reviews_by_contract_sql (text_value id ∷ [])

  get_summary_by_contract : String → Go W SummaryRow
  unfolding one scan_summary
  get_summary_by_contract id = one scan_summary get_summary_by_contract_sql (text_value id ∷ [])

  upsert_summary : SummaryRow → Go W SummaryRow
  unfolding one scan_summary
  upsert_summary r =
      one scan_summary upsert_summary_sql
        (text_value r.id ∷ text_value r.contract_id ∷ text_value r.content ∷ [])

  -- The queries that the store runs, beside those that it gives as text and the transactions
  unfoldable pub db_queries : Queries W → Queries W
  unfolding create_contract_with_options get_contract update_contract_status update_contract_text
      create_clause get_clauses_by_contract create_clause_analysis get_analyses_by_contract
      create_review get_reviews_by_contract get_summary_by_contract upsert_summary
  db_queries given = record given {
    create_contract_with_options = create_contract_with_options;
    get_contract = get_contract;
    update_contract_status = update_contract_status;
    update_contract_text = update_contract_text;
    create_clause = create_clause;
    get_clauses_by_contract = get_clauses_by_contract;
    create_clause_analysis = create_clause_analysis;
    get_analyses_by_contract = get_analyses_by_contract;
    create_review = create_review;
    get_reviews_by_contract = get_reviews_by_contract;
    get_summary_by_contract = get_summary_by_contract;
    upsert_summary = upsert_summary;
  }
