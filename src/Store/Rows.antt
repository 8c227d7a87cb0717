-- ===== src/Store/Rows.antt =====
-- The rows of store/db/models.go, and the conversions of store/postgres.go between them and the records
-- of the domain. A risk level that is none of the three is read as no level: Go keeps any text, but
-- the schema's CHECK admits no other beside a status other than "failed", and the program writes none.
pub mod Laws
use contract_review_ai_agent.Common.{
  ℕ, ◌%◌, ◌^◌, String, ◌<>◌, Bool, true, false, not, Option, none, some, Result, ok, err, plain,
  str_eq, if◌then◌else◌,
}
use contract_review_ai_agent.Domain.{
  ContractStatus, uploaded, extracting, extracted, analyzing_clauses, clauses_extracted, analyzing,
  analyzed, review_pending, review_complete, summarizing, done, other, status_text, RiskLevel, high,
  medium, low, risk_text, Contract, Clause, ClauseAnalysis, Review, Summary,
}

-- `pgtype.Text`: a column that may be NULL
pub record Text : Type 0 where
  pub string : String
  pub valid : Bool

pub record ContractRow : Type 0 where
  pub id : String
  pub filename : String
  pub raw_text : String
  pub status : String
  pub requires_review : Bool

-- The sequence number is an int32, as its bit pattern.
pub record ClauseRow : Type 0 where
  pub id : String
  pub contract_id : String
  pub sequence_number : ℕ
  pub text : String

pub record AnalysisRow : Type 0 where
  pub id : String
  pub clause_id : String
  pub risk_level : Text
  pub explanation : Text
  pub ambiguous_language : Text
  pub recommendations : Text
  pub status : String

pub record ReviewRow : Type 0 where
  pub id : String
  pub clause_id : String
  pub decision : String
  pub annotation : Text

pub record SummaryRow : Type 0 where
  pub id : String
  pub contract_id : String
  pub content : String

-- `domain.ContractStatus(s)`
unfoldable pub contract_status : String → ContractStatus
contract_status s =
    if str_eq s "uploaded"
    then uploaded
    else if str_eq s "extracting"
    then extracting
    else if str_eq s "extracted"
    then extracted
    else if str_eq s "analyzing_clauses"
    then analyzing_clauses
    else if str_eq s "clauses_extracted"
    then clauses_extracted
    else if str_eq s "analyzing"
    then analyzing
    else if str_eq s "analyzed"
    then analyzed
    else if str_eq s "review_pending"
    then review_pending
    else if str_eq s "review_complete"
    then review_complete
    else if str_eq s "summarizing"
    then summarizing
    else if str_eq s "done"
    then done
    else other s

unfoldable pub risk_of : Text → Option RiskLevel
risk_of t =
    if not t.valid
    then none
    else if str_eq t.string "high"
    then some high
    else if str_eq t.string "medium"
    then some medium
    else if str_eq t.string "low"
    then some low
    else none

unfoldable pub risk_column : Option RiskLevel → Text
risk_column none = record { string = ""; valid = false }
risk_column (some r) = record { string = risk_text r; valid = true }

-- `pgtype.Text{String: s, Valid: s != ""}`
unfoldable pub text_column : String → Text
text_column s = record { string = s; valid = not (str_eq s "") }

unfoldable pub text_of : Text → String
text_of t = if t.valid then t.string else ""

-- `int32(n)`, as a bit pattern
unfoldable pub int32 : ℕ → ℕ
int32 n = n % 2 ^ 32

unfoldable pub to_domain_contract : ContractRow → Contract
to_domain_contract r = record {
  id = r.id;
  filename = r.filename;
  raw_text = r.raw_text;
  status = contract_status r.status;
  requires_review = r.requires_review;
}

unfoldable pub to_domain_clause : ClauseRow → Clause
to_domain_clause r = record {
  id = r.id;
  contract_id = r.contract_id;
  sequence_number = r.sequence_number;
  text = r.text;
}

unfoldable pub to_domain_analysis : AnalysisRow → ClauseAnalysis
unfolding risk_of text_of
to_domain_analysis r = record {
  id = r.id;
  clause_id = r.clause_id;
  risk_level = risk_of r.risk_level;
  explanation = text_of r.explanation;
  ambiguous_language = text_of r.ambiguous_language;
  recommendations = text_of r.recommendations;
  status = r.status;
}

unfoldable pub to_domain_review : ReviewRow → Review
unfolding text_of
to_domain_review r = record {
  id = r.id;
  clause_id = r.clause_id;
  decision = r.decision;
  annotation = text_of r.annotation;
}

unfoldable pub to_domain_summary : SummaryRow → Summary
to_domain_summary r = record { id = r.id; contract_id = r.contract_id; content = r.content }

-- The rows that the saves write
unfoldable pub clause_row : String → Clause → ClauseRow
unfolding int32
clause_row contract_id c = record {
  id = c.id;
  contract_id = contract_id;
  sequence_number = int32 c.sequence_number;
  text = c.text;
}

unfoldable pub analysis_row : ClauseAnalysis → AnalysisRow
unfolding risk_column text_column
analysis_row a = record {
  id = a.id;
  clause_id = a.clause_id;
  risk_level = risk_column a.risk_level;
  explanation = text_column a.explanation;
  ambiguous_language = text_column a.ambiguous_language;
  recommendations = text_column a.recommendations;
  status = a.status;
}

unfoldable pub review_row : Review → ReviewRow
unfolding text_column
review_row r = record {
  id = r.id;
  clause_id = r.clause_id;
  decision = r.decision;
  annotation = text_column r.annotation;
}
