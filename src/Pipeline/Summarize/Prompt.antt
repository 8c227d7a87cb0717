-- ===== src/Pipeline/Summarize/Prompt.antt =====
-- The prompt of prompts/summarization.go: the counts are stated, then each clause, then the form of
-- the report.
use contract_review_ai_agent.Common.{
  ℕ, String, ◌<>◌, List, [], ◌∷◌, decimal, leb, str_eq, if◌then◌else◌,
}
use contract_review_ai_agent.Platform.{Platform, to_upper}

pub record RiskCounts : Type 0 where
  pub high : ℕ
  pub medium : ℕ
  pub low : ℕ

pub record ReviewCounts : Type 0 where
  pub approved : ℕ
  pub rejected : ℕ
  pub overrides : ℕ

pub record ClauseInput : Type 0 where
  pub sequence_number : ℕ
  pub gist : String
  pub risk_level : String
  pub decision : String
  pub annotation : String
  pub recommendations : String
  pub ambiguous_language : String

pub record SummarizationPrompt : Type 0 where
  pub filename : String
  pub reviewing_party : String
  pub governing_law : String
  pub contract_type : String
  pub risk_counts : RiskCounts
  pub review_counts : ReviewCounts
  pub clause_inputs : List ClauseInput

-- A line that is left out where its text is empty
line_unless_empty : String → String → String
line_unless_empty label text = if str_eq text "" then "" else label <> text <> "\n"

recommended_edit : ClauseInput → String
recommended_edit c =
    if str_eq c.recommendations ""
    then (if str_eq c.decision "rejected"
        then "Recommended edit: Negotiation required — no draft language provided.\n"
        else "")
    else "Recommended edit: " <> c.recommendations <> "\n"

governing_law_line : String → String
governing_law_line law =
    if str_eq law ""
    then "Governing law: not specified — flag any recommendations that depend on jurisdiction.\n"
    else "Governing law: " <> law <> "\n"

counts_text : RiskCounts → ReviewCounts → String
counts_text rc rvc =
    "Risk counts: High: "
    <> decimal rc.high
    <> ", Medium: "
    <> decimal rc.medium
    <> ", Low: "
    <> decimal rc.low
    <> "\n"
    <> "Review counts: Approved: "
    <> decimal rvc.approved
    <> ", Rejected: "
    <> decimal rvc.rejected
    <> ", Overrides: "
    <> decimal rvc.overrides
    <> "\n\n"

medium_cluster_note : ℕ → String
medium_cluster_note n =
    if leb 3 n
    then " Also include a medium-risk cluster warning: flag that there are "
      <> decimal n
      <> " medium-risk clauses that collectively require negotiation even if none individually triggers a 'Do Not Sign'."
    else ""

-- The form of the report
report_form : String → String → String
report_form party note =
    "---\n\n"
    <> "Using ONLY the data above, produce a professional contract review report in clean markdown.\n"
    <> "Start with `# Contract Review Report` and include exactly these five sections:\n\n"
    <> "1. **Executive Summary** — 3-5 sentences: overall risk profile from the " <> party
    <> "'s perspective, top concerns, and a clear signing recommendation (Do not sign / Sign with changes / Sign as-is).\n\n"
    <> "2. **Signing Recommendation** — one of: `⛔ Do Not Sign`, `⚠\u{fe0f} Sign With Changes`, or `✅ Sign As-Is`. Follow with 1-2 sentences explaining why.\n\n"
    <> "3. **Priority Issues** — bullet list of ALL high-risk clauses. Each bullet: clause number, one-sentence issue, and the recommended edit verbatim from the data above (if the recommended edit says 'Negotiation required', reproduce that verbatim). If no high-risk clauses exist, write 'No high-risk clauses identified.'"
    <> note <> "\n\n" <> "4. **Risk Breakdown** — reproduce the counts verbatim:\n"
    <> "   - High / Medium / Low risk clause counts\n"
    <> "   - Approved / Rejected / Overrides (human review) counts\n\n"
    <> "5. **Clause-by-Clause Detail** — markdown table with columns: Clause | Risk | Decision | Issue | Recommended Edit. Rejected clauses must include the human note in the Issue cell. If a clause was rejected and has no recommended edit, the Recommended Edit cell must say 'Negotiation required — no draft language provided' rather than being left blank.\n\n"
    <> "Rules: No preamble. No commentary outside the five sections. Output clean markdown only.\n"

module _ (p : Platform) where
  clause_text : ClauseInput → String
  unfolding line_unless_empty recommended_edit
  clause_text c =
      "### Clause "
      <> decimal c.sequence_number
      <> " ["
      <> to_upper p c.risk_level
      <> "]\n"
      <> "Issue: "
      <> c.gist
      <> "\n"
      <> line_unless_empty "Ambiguous language: " c.ambiguous_language
      <> recommended_edit c
      <> line_unless_empty "Human decision: " c.decision
      <> line_unless_empty "Human note: " c.annotation
      <> "\n"

  clause_texts : List ClauseInput → String
  unfolding clause_text
  clause_texts [] = ""
  clause_texts (c ∷ cs) = clause_text c <> clause_texts cs

  unfoldable pub party_of : String → String
  party_of party = if str_eq party "" then "client" else party

  unfoldable pub render_summary : SummarizationPrompt → String
  unfolding clause_texts line_unless_empty governing_law_line counts_text medium_cluster_note
      report_form
  render_summary q =
      let party = party_of q.reviewing_party in
      "You are a senior contract lawyer reviewing on behalf of the "
      <> party
      <> ".\n"
      <> "Contract file: "
      <> p.quote q.filename
      <> "\n"
      <> line_unless_empty "Contract type: " q.contract_type
      <> governing_law_line q.governing_law
      <> "\n"
      <> "Every risk, issue, and recommendation below must be framed from the "
      <> party
      <> "'s perspective.\n\n"
      <> "The pre-computed counts below are authoritative — reproduce them verbatim; do not recount.\n\n"
      <> counts_text q.risk_counts q.review_counts
      <> "## Clause Data\n\n"
      <> clause_texts q.clause_inputs
      <> report_form party (medium_cluster_note q.risk_counts.medium)
