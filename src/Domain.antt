-- ===== src/Domain.antt =====
-- domain/domain.go: the statuses of a contract, the risk levels and the records of the pipeline.
-- A time stamp (`CreatedAt`) is written by the database and read by nothing, and is left out.
use contract_review_ai_agent.Common.{
  ℕ, String, ◌<>◌, Bool, Option, none, Result, ok, err, plain, str_eq, if◌then◌else◌,
}

-- `ContractStatus` is a text in Go: the constants, and any other text.
pub data ContractStatus : Type 0 where
  uploaded extracting extracted analyzing_clauses clauses_extracted : ContractStatus
  analyzing analyzed review_pending review_complete summarizing done : ContractStatus
  other : String → ContractStatus

-- The text of a status, as the database keeps it.
unfoldable pub status_text : ContractStatus → String
status_text uploaded = "uploaded"
status_text extracting = "extracting"
status_text extracted = "extracted"
status_text analyzing_clauses = "analyzing_clauses"
status_text clauses_extracted = "clauses_extracted"
status_text analyzing = "analyzing"
status_text analyzed = "analyzed"
status_text review_pending = "review_pending"
status_text review_complete = "review_complete"
status_text summarizing = "summarizing"
status_text done = "done"
status_text (other s) = s

pub data RiskLevel : Type 0 where
  high medium low : RiskLevel

unfoldable pub risk_text : RiskLevel → String
risk_text high = "high"
risk_text medium = "medium"
risk_text low = "low"

-- `quote` is fmt's `%q`.
unfoldable pub parse_risk_level : (String → String) → String → Result RiskLevel
parse_risk_level quote s =
    if str_eq s "high"
    then ok high
    else if str_eq s "medium"
    then ok medium
    else if str_eq s "low"
    then ok low
    else err (plain ("invalid risk level: " <> quote s))

pub record Contract : Type 0 where
  pub id : String
  pub filename : String
  pub raw_text : String
  pub status : ContractStatus
  pub requires_review : Bool

pub record Clause : Type 0 where
  pub id : String
  pub contract_id : String
  pub sequence_number : ℕ
  pub text : String

-- A nil `RiskLevel` is `none`.
pub record ClauseAnalysis : Type 0 where
  pub id : String
  pub clause_id : String
  pub risk_level : Option RiskLevel
  pub explanation : String
  pub ambiguous_language : String
  pub recommendations : String
  pub status : String

-- `domain.ClauseAnalysis{}`
abbrev pub no_analysis : ClauseAnalysis
no_analysis = record {
  id = "";
  clause_id = "";
  risk_level = none;
  explanation = "";
  ambiguous_language = "";
  recommendations = "";
  status = "";
}

pub record Review : Type 0 where
  pub id : String
  pub clause_id : String
  pub decision : String
  pub annotation : String

-- `domain.Review{}`
abbrev pub no_review : Review
no_review = record { id = ""; clause_id = ""; decision = ""; annotation = "" }

pub record Summary : Type 0 where
  pub id : String
  pub contract_id : String
  pub content : String

pub record LibraryClause : Type 0 where
  pub id : String
  pub clause_type : String
  pub standard_text : String
  pub notes : String
