-- ===== src/Store/Db/Scan.antt =====
-- The arguments of the queries of store/db/*.sql.go, and the scans of their rows.
pub mod RoundTrips
use contract_review_ai_agent.Common.{
  ℕ, String, Bool, true, false, Option, none, some, List, [], ◌∷◌, if◌then◌else◌,
}
use contract_review_ai_agent.Store.Rows.{
  Text, ContractRow, ClauseRow, AnalysisRow, ReviewRow, SummaryRow,
}

-- What a column or an argument holds; an integer is an int32's bit pattern, and nothing reads a time.
pub data Value : Type 0 where
  text_value : String → Value
  int_value : ℕ → Value
  bool_value : Bool → Value
  time_value : Value
  null_value : Value

-- A `pgtype.Text` as an argument
unfoldable pub text_argument : Text → Value
text_argument t = if t.valid then text_value t.string else null_value

text_scanned : Value → Option Text
text_scanned (text_value s) = some (record { string = s; valid = true })
text_scanned null_value = some (record { string = ""; valid = false })
text_scanned _ = none

-- `row.Scan` into the fields of a contract, with its creation's time
unfoldable pub scan_contract : List Value → Option ContractRow
scan_contract
      (text_value id
        ∷ text_value filename
        ∷ text_value raw_text
        ∷ text_value status
        ∷ time_value
        ∷ bool_value requires_review
        ∷ []) =
    some (record {
      id = id;
      filename = filename;
      raw_text = raw_text;
      status = status;
      requires_review = requires_review;
    })
scan_contract _ = none

unfoldable pub scan_clause : List Value → Option ClauseRow
scan_clause (text_value id ∷ text_value contract_id ∷ int_value n ∷ text_value text ∷ []) =
    some (record { id = id; contract_id = contract_id; sequence_number = n; text = text })
scan_clause _ = none

analysis_scanned :
    String
    → String
    → String
    → Option Text
    → Option Text
    → Option Text
    → Option Text
    → Option AnalysisRow
analysis_scanned id clause_id status (some risk) (some explanation) (some ambiguous)
      (some recommendations) =
    some (record {
      id = id;
      clause_id = clause_id;
      risk_level = risk;
      explanation = explanation;
      ambiguous_language = ambiguous;
      recommendations = recommendations;
      status = status;
    })
analysis_scanned id clause_id status _ _ _ _ = none

unfoldable pub scan_analysis : List Value → Option AnalysisRow
unfolding analysis_scanned text_scanned
scan_analysis
      (text_value id
        ∷ text_value clause_id
        ∷ risk
        ∷ explanation
        ∷ ambiguous
        ∷ recommendations
        ∷ text_value status
        ∷ []) =
    analysis_scanned id clause_id status (text_scanned risk) (text_scanned explanation)
      (text_scanned ambiguous) (text_scanned recommendations)
scan_analysis _ = none

review_scanned : String → String → String → Option Text → Option ReviewRow
review_scanned id clause_id decision (some annotation) =
    some (record { id = id; clause_id = clause_id; decision = decision; annotation = annotation })
review_scanned id clause_id decision none = none

unfoldable pub scan_review : List Value → Option ReviewRow
unfolding review_scanned text_scanned
scan_review (text_value id ∷ text_value clause_id ∷ text_value decision ∷ annotation ∷ []) =
    review_scanned id clause_id decision (text_scanned annotation)
scan_review _ = none

unfoldable pub scan_summary : List Value → Option SummaryRow
scan_summary (text_value id ∷ text_value contract_id ∷ text_value content ∷ time_value ∷ []) =
    some (record { id = id; contract_id = contract_id; content = content })
scan_summary _ = none

-- The arguments of the inserts
unfoldable pub analysis_arguments : AnalysisRow → List Value
unfolding text_argument
analysis_arguments r =
    text_value r.id
    ∷ text_value r.clause_id
    ∷ text_argument r.risk_level
    ∷ text_argument r.explanation
    ∷ text_argument r.ambiguous_language
    ∷ text_argument r.recommendations
    ∷ text_value r.status
    ∷ []
