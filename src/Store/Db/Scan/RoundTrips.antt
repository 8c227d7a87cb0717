-- ===== src/Store/Db/Scan/RoundTrips.antt =====
-- The values that a row is written with, and the row that is scanned from them (store/db/*.sql.go).
use contract_review_ai_agent.Common.{
  String, ◌≡◌, refl, Bool-cases, inl, inr, Option, none, some, eq_iff, str_eq,
}
use contract_review_ai_agent.Domain.{ClauseAnalysis, RiskLevel}
use contract_review_ai_agent.Store.Rows.{analysis_row, risk_column, text_column}
use contract_review_ai_agent.Store.Db.Scan.{
  text_argument, text_scanned, analysis_scanned, scan_analysis, analysis_arguments,
}

text_scanned-text_column :
    (s : String) → text_scanned (text_argument (text_column s)) ≡ some (text_column s)
unfolding text_scanned text_argument text_column
text_scanned-text_column s = elim (Bool-cases (str_eq s "")) [
  | inl empty ↦ let nothing : s ≡ "" = (eq_iff s "").0 empty in rw nothing refl
  | inr given ↦ rw given refl
]

text_scanned-risk_column :
    (r : Option RiskLevel) → text_scanned (text_argument (risk_column r)) ≡ some (risk_column r)
unfolding text_scanned text_argument risk_column
text_scanned-risk_column none = refl
text_scanned-risk_column (some r) = refl

-- The values that an analysis is written with are scanned into its row.
pub scan_analysis-analysis_arguments :
    (a : ClauseAnalysis)
    → scan_analysis (analysis_arguments (analysis_row a)) ≡ some (analysis_row a)
unfolding scan_analysis analysis_arguments analysis_row analysis_scanned
scan_analysis-analysis_arguments a =
    rw
      (
        text_scanned-risk_column a.risk_level,
        text_scanned-text_column a.explanation,
        text_scanned-text_column a.ambiguous_language,
        text_scanned-text_column a.recommendations,
      )
      refl
