-- ===== src/Store/Db/Stored.antt =====
-- What the queries of store/db give back, through the store of store/postgres.go.
use contract_review_ai_agent.Common.{String, ◌≡◌, refl, ap, none, List, [], ◌∷◌, map, ok}
use contract_review_ai_agent.Domain.{ClauseAnalysis}
use contract_review_ai_agent.Store.Rows.{analysis_row, to_domain_analysis}
use contract_review_ai_agent.Store.Rows.Laws.{to_domain_analysis-analysis_row}
use contract_review_ai_agent.Store.Queries.{Queries}
use contract_review_ai_agent.Store.Postgres.{postgres_store, save_analysis, get_analyses}
use contract_review_ai_agent.Store.Db.Statements.{
  create_clause_analysis_sql, get_analyses_by_contract_sql,
}
use contract_review_ai_agent.Store.Db.Scan.{Value, text_value, scan_analysis, analysis_arguments}
use contract_review_ai_agent.Store.Db.Scan.RoundTrips.{scan_analysis-analysis_arguments}
use contract_review_ai_agent.Store.Db.{
  Dbtx, db_queries, one, many, each, scanned, create_clause_analysis, get_analyses_by_contract,
}

-- The values that an analysis is written with
abbrev pub stored : ClauseAnalysis → List Value
stored a = analysis_arguments (analysis_row a)

module _ {W : Type 0} (db : Dbtx W) (given : Queries W) (new_uuid : W → String × W) where
  each-stored :
      (as_saved : List ClauseAnalysis)
      → each db scan_analysis (map (λ a. ok (stored a)) as_saved) none
        ≡ ok (map analysis_row as_saved)
  unfolding each scanned
  each-stored [] = refl
  each-stored (a ∷ others) =
      rw (scan_analysis-analysis_arguments a, each) (rw (each-stored others, each) refl)

  to_domain_analysis-map :
      (as_saved : List ClauseAnalysis)
      → map to_domain_analysis (map analysis_row as_saved) ≡ as_saved
  to_domain_analysis-map [] = refl
  to_domain_analysis-map (a ∷ others) =
      rw (to_domain_analysis-analysis_row a) (ap (λ t. a ∷ t) (to_domain_analysis-map others))

  -- Where the database answers the insert of an analysis with the values that it was given, and later
  -- lists the values that analyses were written with, the store saves the one without an error and lists
  -- exactly the others, in their order.
  pub saved_analyses-listed :
      (a : ClauseAnalysis) (listed : List ClauseAnalysis) (contract_id : String) (w w1 w2 w3 : W)
      → db.query_row create_clause_analysis_sql (stored a) w ≡ (ok (stored a), w1)
      → db.query get_analyses_by_contract_sql (text_value contract_id ∷ []) w2
        ≡ (ok (record { scanned = map (λ x. ok (stored x)) listed; failure = none }), w3)
      → let s = postgres_store (db_queries db given) new_uuid in
        (s.save_analysis a w ≡ (ok tt, w1)) × (s.get_analyses contract_id w2 ≡ (ok listed, w3))
  unfolding postgres_store save_analysis get_analyses db_queries create_clause_analysis
      get_analyses_by_contract one many scanned
  saved_analyses-listed a listed contract_id w w1 w2 w3 inserted selected = (
    rw inserted (rw (scan_analysis-analysis_arguments a) refl),
    rw selected (rw (each-stored listed) (ap (λ x. (ok x, w3)) (to_domain_analysis-map listed))),
  )
