-- ===== src/Store/Rows/Laws.antt =====
-- The conversions between rows and records (store/postgres.go).
use contract_review_ai_agent.Common.{
  ◌<◌, ◌%◌, ◌^◌, String, ◌≡◌, refl, Option, none, some, eq_iff, arith,
}
use contract_review_ai_agent.Domain.{
  status_text, RiskLevel, high, medium, low, risk_text, Clause, ClauseAnalysis, Review,
}
use contract_review_ai_agent.Store.Rows.{
  contract_status, risk_of, risk_column, text_column, text_of, int32, to_domain_clause,
  to_domain_analysis, to_domain_review, clause_row, analysis_row, review_row,
}

-- A text is read as the status that has that text.
pub status_text-contract_status : (s : String) → status_text (contract_status s) ≡ s
unfolding contract_status status_text
status_text-contract_status s = ground (
  arith,
  eq_iff s "uploaded",
  eq_iff s "extracting",
  eq_iff s "extracted",
  eq_iff s "analyzing_clauses",
  eq_iff s "clauses_extracted",
  eq_iff s "analyzing",
  eq_iff s "analyzed",
  eq_iff s "review_pending",
  eq_iff s "review_complete",
  eq_iff s "summarizing",
  eq_iff s "done",
)

risk_of-risk_column : (r : Option RiskLevel) → risk_of (risk_column r) ≡ r
unfolding risk_of risk_column risk_text
risk_of-risk_column none = refl
risk_of-risk_column (some high) = refl
risk_of-risk_column (some medium) = refl
risk_of-risk_column (some low) = refl

-- An empty text is stored as NULL and read back as empty.
text_of-text_column : (s : String) → text_of (text_column s) ≡ s
unfolding text_of text_column
text_of-text_column s = ground (arith, eq_iff s "")

-- What is written of an analysis is read back as the analysis.
pub to_domain_analysis-analysis_row : (a : ClauseAnalysis) → to_domain_analysis (analysis_row a) ≡ a
unfolding to_domain_analysis analysis_row
to_domain_analysis-analysis_row a =
    rw
      (
        risk_of-risk_column a.risk_level,
        text_of-text_column a.explanation,
        text_of-text_column a.ambiguous_language,
        text_of-text_column a.recommendations,
      )
      refl

-- What is written of a review is read back as the review.
pub to_domain_review-review_row : (r : Review) → to_domain_review (review_row r) ≡ r
unfolding to_domain_review review_row
to_domain_review-review_row r = rw (text_of-text_column r.annotation) refl

-- A clause whose number fits an int32 is read back, in the contract that it was saved under.
pub to_domain_clause-clause_row :
    (contract_id : String) (c : Clause)
    → c.sequence_number < 2 ^ 31
    → to_domain_clause (clause_row contract_id c) ≡ record c { contract_id = contract_id }
unfolding to_domain_clause clause_row int32
to_domain_clause-clause_row contract_id c h =
    let fits : c.sequence_number % 2 ^ 32 ≡ c.sequence_number = omega arith in rw fits refl
