-- ===== src/Store/Db/Statements.antt =====
-- The statements of store/db/contracts.sql.go, clauses.sql.go, clause_analyses.sql.go, reviews.sql.go
-- and summaries.sql.go.
use contract_review_ai_agent.Common.{String, ◌<>◌}

abbrev pub create_contract_with_options_sql : String
create_contract_with_options_sql =
    "-- name: CreateContractWithOptions :one\n"
    <> "INSERT INTO contracts (id, filename, raw_text, status, requires_review)\n"
    <> "VALUES ($1, $2, $3, $4, $5)\n"
    <> "RETURNING id, filename, raw_text, status, created_at, requires_review\n"

abbrev pub get_contract_sql : String
get_contract_sql =
    "-- name: GetContract :one\n"
    <> "SELECT id, filename, raw_text, status, created_at, requires_review FROM contracts WHERE id = $1\n"

abbrev pub update_contract_status_sql : String
update_contract_status_sql =
    "-- name: UpdateContractStatus :exec\n" <> "UPDATE contracts SET status = $2 WHERE id = $1\n"

abbrev pub update_contract_text_sql : String
update_contract_text_sql =
    "-- name: UpdateContractText :exec\n" <> "UPDATE contracts SET raw_text = $2 WHERE id = $1\n"

abbrev pub create_contract_sql : String
create_contract_sql =
    "-- name: CreateContract :one\n" <> "INSERT INTO contracts (id, filename, raw_text, status)\n"
    <> "VALUES ($1, $2, $3, $4)\n"
    <> "RETURNING id, filename, raw_text, status, created_at, requires_review\n"

abbrev pub create_clause_sql : String
create_clause_sql =
    "-- name: CreateClause :one\n"
    <> "INSERT INTO clauses (id, contract_id, sequence_number, text)\n"
    <> "VALUES ($1, $2, $3, $4)\n" <> "RETURNING id, contract_id, sequence_number, text\n"

abbrev pub get_clauses_by_contract_sql : String
get_clauses_by_contract_sql =
    "-- name: GetClausesByContract :many\n"
    <> "SELECT id, contract_id, sequence_number, text FROM clauses WHERE contract_id = $1 ORDER BY sequence_number\n"

abbrev pub create_clause_analysis_sql : String
create_clause_analysis_sql =
    "-- name: CreateClauseAnalysis :one\n"
    <> "INSERT INTO clause_analyses (id, clause_id, risk_level, explanation, ambiguous_language, recommendations, status)\n"
    <> "VALUES ($1, $2, $3, $4, $5, $6, $7)\n"
    <> "RETURNING id, clause_id, risk_level, explanation, ambiguous_language, recommendations, status\n"

abbrev pub get_analyses_by_contract_sql : String
get_analyses_by_contract_sql =
    "-- name: GetAnalysesByContract :many\n"
    <> "SELECT ca.id, ca.clause_id, ca.risk_level, ca.explanation, ca.ambiguous_language, ca.recommendations, ca.status\n"
    <> "FROM clause_analyses ca\n" <> "JOIN clauses c ON c.id = ca.clause_id\n"
    <> "WHERE c.contract_id = $1\n"

abbrev pub create_review_sql : String
create_review_sql =
    "-- name: CreateReview :one\n" <> "INSERT INTO reviews (id, clause_id, decision, annotation)\n"
    <> "VALUES ($1, $2, $3, $4)\n" <> "RETURNING id, clause_id, decision, annotation\n"

abbrev pub get_reviews_by_contract_sql : String
get_reviews_by_contract_sql =
    "-- name: GetReviewsByContract :many\n"
    <> "SELECT r.id, r.clause_id, r.decision, r.annotation\n" <> "FROM reviews r\n"
    <> "JOIN clauses c ON c.id = r.clause_id\n" <> "WHERE c.contract_id = $1\n"

abbrev pub get_summary_by_contract_sql : String
get_summary_by_contract_sql =
    "-- name: GetSummaryByContract :one\n"
    <> "SELECT id, contract_id, content, created_at FROM summaries WHERE contract_id = $1\n"

abbrev pub upsert_summary_sql : String
upsert_summary_sql =
    "-- name: UpsertSummary :one\n" <> "INSERT INTO summaries (id, contract_id, content)\n"
    <> "VALUES ($1, $2, $3)\n"
    <> "ON CONFLICT (contract_id) DO UPDATE SET content = EXCLUDED.content\n"
    <> "RETURNING id, contract_id, content, created_at\n"
