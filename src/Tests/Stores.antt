-- ===== src/Tests/Stores.antt =====
-- Tests of store/postgres.go over a database that holds what was inserted, in order.
use contract_review_ai_agent.Common.{map, String, ◌≡◌, refl, List, [], ◌∷◌, ◌++◌, none, ok, plain}
use contract_review_ai_agent.Store.{Store}
use contract_review_ai_agent.Store.Queries.{Queries}
use contract_review_ai_agent.Store.Postgres.{postgres_store}
use contract_review_ai_agent.Store.Db.{Dbtx, db_queries}
use contract_review_ai_agent.Store.Db.Scan.{Value}
use contract_review_ai_agent.Store.Db.Stored.{stored, saved_analyses-listed}
use contract_review_ai_agent.Fixtures.{found_finding}
use contract_review_ai_agent.Fixtures.Databases.{refusing, refused}

abbrev Db : Type 0
Db = List (List Value)

abbrev database : Queries Db
database = refusing

abbrev connection : Dbtx Db
connection = record {
  exec = λ sql arguments. refused;
  query_row = λ sql arguments w. (ok arguments, w ++ (arguments ∷ []));
  query = λ sql arguments w. (ok (record { scanned = map ok w; failure = none }), w);
  scan_error = plain "cannot scan";
}

abbrev new_id : Db → String × Db
new_id w = ("id", w)

abbrev over_database : Store Db
over_database = postgres_store (db_queries connection database) new_id

-- The analysis that is saved stands behind an earlier one.
saved_analyses-listed_example :
    (over_database.save_analysis found_finding (stored found_finding ∷ [])
      ≡ (ok tt, stored found_finding ∷ stored found_finding ∷ []))
    × (over_database.get_analyses "c1" (stored found_finding ∷ stored found_finding ∷ []) ≡ (
      ok (found_finding ∷ found_finding ∷ []),
      stored found_finding ∷ stored found_finding ∷ [],
    ))
saved_analyses-listed_example =
    saved_analyses-listed connection database new_id found_finding
      (found_finding ∷ found_finding ∷ []) "c1" (stored found_finding ∷ [])
      (stored found_finding ∷ stored found_finding ∷ [])
      (stored found_finding ∷ stored found_finding ∷ [])
      (stored found_finding ∷ stored found_finding ∷ []) refl refl
