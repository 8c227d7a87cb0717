-- ===== src/Pipeline/Summarize.antt =====
-- pipeline/summarize.go and prompts/summarization.go: the inputs of the report, its prompt, and the
-- stage that asks for it and saves it. `sort.Slice` and `os.WriteFile` are parameters; the printed
-- report is left out.
pub mod Prompt
pub mod Inputs
use contract_review_ai_agent.Common.{
  ℕ, zero, suc, ◌+◌, String, ◌<>◌, Char, Bool, true, false, Option, none, some, List, [], ◌∷◌, take,
  length, runes, from_runes, Go, pure, fail, ◌>>=◌, ◌>>◌, orelse, decimal, leb, str_eq, Assoc,
  lookup, insert, if◌then◌else◌,
}
use contract_review_ai_agent.Domain.{
  ContractStatus, review_complete, summarizing, done, RiskLevel, high, medium, low, risk_text,
  Contract, Clause, ClauseAnalysis, no_analysis, Review, no_review,
}
use contract_review_ai_agent.Llm.{Llm, user, message, CompletionRequest}
use contract_review_ai_agent.Platform.{Platform}
use contract_review_ai_agent.Store.{Store}
use contract_review_ai_agent.Pipeline.ClauseSplitting.{wrong_status}
use contract_review_ai_agent.Pipeline.Summarize.Prompt.{
  RiskCounts, ReviewCounts, ClauseInput, SummarizationPrompt, render_summary,
}

unfoldable pub is_override : Option RiskLevel → String → Bool
is_override (some high) decision = str_eq decision "approved"
is_override (some low) decision = str_eq decision "rejected"
is_override _ decision = false

-- The loop over shorter and shorter beginnings: `n` runes are left to try.
unfoldable pub longest_fitting : (String → ℕ) → ℕ → List Char → ℕ → String
longest_fitting tokens budget rs zero = ""
longest_fitting tokens budget rs (suc n) =
    let shorter = longest_fitting tokens budget rs n in
    let candidate = from_runes (take n rs) in
    if leb (tokens candidate + tokens "…") budget then candidate <> "…" else shorter

unfoldable pub truncate_to_token_budget : (String → ℕ) → String → ℕ → String
unfolding longest_fitting
truncate_to_token_budget tokens s budget =
    if leb (tokens s) budget then s else longest_fitting tokens budget (runes s) (length (runes s))

-- The maps `analysisByClause` and `reviewByClause`: the last entry of a clause wins.
unfoldable pub analyses_by_clause :
    List ClauseAnalysis → Assoc ClauseAnalysis → Assoc ClauseAnalysis
analyses_by_clause [] m = m
analyses_by_clause (a ∷ later) m = analyses_by_clause later (insert a.clause_id a m)

unfoldable pub reviews_by_clause : List Review → Assoc Review → Assoc Review
reviews_by_clause [] m = m
reviews_by_clause (r ∷ rs) m = reviews_by_clause rs (insert r.clause_id r m)

-- A read of a missing key gives Go's zero value.
unfoldable pub analysis_at : Assoc ClauseAnalysis → String → ClauseAnalysis
analysis_at m id = elim (lookup id m) [ some a ↦ a | none ↦ no_analysis ]

unfoldable pub review_at : Assoc Review → String → Review
review_at m id = elim (lookup id m) [ some r ↦ r | none ↦ no_review ]

unfoldable pub count_risk : Option RiskLevel → RiskCounts → RiskCounts
count_risk none rc = rc
count_risk (some high) rc = record rc { high = rc.high + 1 }
count_risk (some medium) rc = record rc { medium = rc.medium + 1 }
count_risk (some low) rc = record rc { low = rc.low + 1 }

unfoldable pub count_decision : String → ReviewCounts → ReviewCounts
count_decision decision rvc =
    if str_eq decision "approved"
    then record rvc { approved = rvc.approved + 1 }
    else if str_eq decision "rejected"
    then record rvc { rejected = rvc.rejected + 1 }
    else rvc

unfoldable pub count_override : Bool → ReviewCounts → ReviewCounts
count_override true rvc = record rvc { overrides = rvc.overrides + 1 }
count_override false rvc = rvc

unfoldable pub risk_label : Option RiskLevel → String
risk_label none = "unknown"
risk_label (some r) = risk_text r

abbrev pub no_risks : RiskCounts
no_risks = record { high = 0; medium = 0; low = 0 }

abbrev pub no_decisions : ReviewCounts
no_decisions = record { approved = 0; rejected = 0; overrides = 0 }

module _ (tokens : String → ℕ) (clause_token_budget : ℕ) where
  unfoldable pub input_of : Clause → ClauseAnalysis → Review → ClauseInput
  unfolding truncate_to_token_budget
  input_of c a r = record {
    sequence_number = c.sequence_number;
    gist = truncate_to_token_budget tokens a.explanation clause_token_budget;
    risk_level = risk_label a.risk_level;
    decision = r.decision;
    annotation = r.annotation;
    recommendations = truncate_to_token_budget tokens a.recommendations clause_token_budget;
    ambiguous_language = a.ambiguous_language;
  }

  unfoldable pub build_inputs :
      List Clause
      → Assoc ClauseAnalysis
      → Assoc Review
      → RiskCounts
      → ReviewCounts
      → RiskCounts × ReviewCounts × List ClauseInput
  build_inputs [] analyses reviews rc rvc = (rc, rvc, [])
  build_inputs (c ∷ cs) analyses reviews rc rvc =
      let a = analysis_at analyses c.id in
      let r = review_at reviews c.id in
      let (rc', rvc', inputs) =
        build_inputs cs analyses reviews (count_risk a.risk_level rc)
          (count_override (is_override a.risk_level r.decision) (count_decision r.decision rvc)) in
      (rc', rvc', input_of c a r ∷ inputs)

-- What the stage takes from outside: the sort by number, the tokens of a text, and the write of a file
-- of a name in the output directory.
pub record Output (W : Type 0) : Type 0 where
  pub sort_by_number : List Clause → List Clause
  pub tokens : String → ℕ
  pub write_file : String → String → Go W (Unit {0})
  pub clause_token_budget : ℕ

-- The options of the report
pub record Report : Type 0 where
  pub reviewing_party : String
  pub governing_law : String
  pub contract_type : String

module _ {W : Type 0} (p : Platform) (s : Store W) (client : Llm W) (out : Output W)
    (report : Report) where
  summary_prompt : Contract → RiskCounts × ReviewCounts × List ClauseInput → SummarizationPrompt
  summary_prompt c (rc, rvc, inputs) = record {
    filename = c.filename;
    reviewing_party = report.reviewing_party;
    governing_law = report.governing_law;
    contract_type = report.contract_type;
    risk_counts = rc;
    review_counts = rvc;
    clause_inputs = inputs;
  }

  report_request : Contract → List Clause → List ClauseAnalysis → List Review → CompletionRequest
  unfolding summary_prompt
  report_request c clauses analyses reviews =
      let inputs =
        build_inputs out.tokens out.clause_token_budget (out.sort_by_number clauses)
          (analyses_by_clause analyses []) (reviews_by_clause reviews []) no_risks no_decisions in
      record {
        messages = message user (render_summary p (summary_prompt c inputs)) ∷ [];
        tools = [];
        max_tokens = 8192;
        temperature = 2;
        force_tool_name = "";
        timeout = 0;
      }

  unfoldable pub write_report : String → Contract → Go W (Unit {0})
  unfolding report_request
  write_report id c = do
    orelse "set summarizing" (s.update_contract_status id summarizing)
    clauses ← orelse "get clauses" (s.get_clauses id)
    analyses ← orelse "get analyses" (s.get_analyses id)
    reviews ← orelse "get reviews" (s.get_reviews id)
    resp ← orelse "llm complete" (client (report_request c clauses analyses reviews))
    orelse "save summary" (s.save_summary id resp.content)
    orelse "write file" (out.write_file ("summary_" <> id <> ".md") resp.content)
    orelse "set done" (s.update_contract_status id done)

  -- The guards: done already, whose summary is only read; ready; or not ready.
  unfoldable pub summarize_found : String → Contract → ContractStatus → Go W (Unit {0})
  unfolding write_report
  summarize_found id c done = do orelse "get existing summary" (s.get_summary id); pure tt
  summarize_found id c review_complete = write_report id c
  summarize_found id c status = fail (wrong_status id status review_complete)

  unfoldable pub run_summarize : String → Go W (Unit {0})
  unfolding summarize_found
  run_summarize id = do c ← orelse "get contract" (s.get_contract id); summarize_found id c c.status
