-- ===== src/Command/OneClause/Reports.antt =====
-- What `analyze-clause` of main.go prints of the end of its agent's run.
use contract_review_ai_agent.Common.{
  ℕ, String, ◌≡◌, ◌≢◌, refl, ap, ◌∙◌, subst, Option, none, some, List, ok, Error, find_first,
  str_eq, eq_iff, Bool-cases, inl, inr,
}
use contract_review_ai_agent.Domain.{Clause, ClauseAnalysis, RiskLevel}
use contract_review_ai_agent.Llm.{Llm, Message}
use contract_review_ai_agent.Budget.{Budget}
use contract_review_ai_agent.Store.{AgentRun, AgentStep, Store}
use contract_review_ai_agent.Agent.State.{Runtime, AgentResult, AnalyzeClauseTask}
use contract_review_ai_agent.Agent.Validate.{IsComplete}
use contract_review_ai_agent.Agent.Run.{enters, open_run, run}
use contract_review_ai_agent.Agent.Findings.{run-IsComplete}
use contract_review_ai_agent.Agent.Resume.{run-submitted}
use contract_review_ai_agent.Command.Stages.{RunSettings}
use contract_review_ai_agent.Command.OneClause.{
  report_lines, finding_lines, one_clause_agent, agent_outcome, analyze_target, run_analyze_clause,
}

-- The lines are printed wherever a submitted finding has a level.
report_lines-none :
    (r : AgentResult)
    → (r.stop ≡ "submitted" → (risk : RiskLevel) × (r.finding.risk_level ≡ some risk))
    → report_lines r ≢ none
unfolding report_lines finding_lines
report_lines-none r levelled = elim (Bool-cases (str_eq r.stop "submitted")) [
  | inr other ↦ rw (other, report_lines) (λ h. cc)
  | inl submitted ↦
      let (risk, level) = levelled ((eq_iff r.stop "submitted").0 submitted) in
      rw (submitted, report_lines) (rw (level, finding_lines) (λ h. cc))
]

abbrev pub clause_task : Clause → AnalyzeClauseTask
clause_task c = record { contract_id = c.contract_id; clause_id = c.id; clause_text = c.text }

module _ {W : Type 0} (s : Store W) (rt : Runtime W) (cfg : RunSettings) (client : Llm W)
    (contract_id clause_id : String) where
  agent_outcome-ok :
      (x : (AgentResult × Option Error) × Option Budget × W) (r : AgentResult) (w : W)
      → agent_outcome s rt cfg client contract_id x ≡ (ok r, w)
      → x.0.0 ≡ r
  unfolding agent_outcome
  agent_outcome-ok ((r', none), b, v) r w h = cc
  agent_outcome-ok ((r', some e), b, v) r w h = absurd cc

  -- Where the clause is found and its agent enters its loop, afresh or resumed, a run that ends without
  -- an error is printed to the last line.
  pub run_analyze_clause-reports :
      (cs : List Clause) (c : Clause) (w w1 w' : W) (r : AgentResult) {id : String} {start : ℕ}
      {msgs : List Message} {b : Option Budget} {w2 : W}
      → s.get_clauses contract_id w ≡ (ok cs, w1)
      → find_first (λ x. str_eq x.id clause_id) cs ≡ some c
      → open_run rt
          (one_clause_agent s rt cfg client contract_id)
          (clause_task c)
          (rt.new_uuid w1).0
          none
          (rt.new_uuid w1).1
        ≡ (enters id start msgs, b, w2)
      → run_analyze_clause s rt cfg client contract_id clause_id w ≡ (ok r, w')
      → report_lines r ≢ none
  unfolding run_analyze_clause analyze_target
  run_analyze_clause-reports cs c w w1 w' r read found opened = rw read (
      rw found (λ ended.
        let out : (run rt (one_clause_agent s rt cfg client contract_id) (clause_task c) none
              w1).0.0
            ≡ r =
          agent_outcome-ok _ r w' ended in
        report_lines-none r (λ submitted.
          let complete : IsComplete (clause_task c) r.finding =
            subst (λ x. IsComplete (clause_task c) x.finding) out
              (run-IsComplete rt (one_clause_agent s rt cfg client contract_id) (clause_task c) none
                w1 opened (ap (λ x. x.stop) out ∙ submitted)) in
          complete.risk)))

  -- Where the clause's run was submitted before and the analysis that the store gives for it has no
  -- level, as a failed one has, the command panics behind the run.
  pub run_analyze_clause-panics :
      (cs : List Clause) (c : Clause) (w w1 w2 w3 : W) (r : AgentRun) (steps : List AgentStep)
      (f : ClauseAnalysis)
      → s.get_clauses contract_id w ≡ (ok cs, w1)
      → find_first (λ x. str_eq x.id clause_id) cs ≡ some c
      → s.load_agent_run c.id (rt.new_uuid w1).1 ≡ (ok (some (r, steps)), w2)
      → r.status ≡ "submitted"
      → s.get_stored_finding c.id w2 ≡ (ok f, w3)
      → f.risk_level ≡ none
      → (a : AgentResult) × (run_analyze_clause s rt cfg client contract_id clause_id w
          ≡ (ok a, w3))
        × (report_lines a ≡ none)
  unfolding run_analyze_clause analyze_target agent_outcome one_clause_agent report_lines
      finding_lines
  run_analyze_clause-panics cs c w w1 w2 w3 r steps f read found loaded submitted stored no_level =
      let ends =
        run-submitted rt (one_clause_agent s rt cfg client contract_id) (clause_task c) none w1
          s.agent_runs r steps w2 w3 f (record { has_store = refl; loads = loaded }) submitted
          stored in
      (
        record {
          finding = f;
          steps = r.step_count;
          stop = "submitted";
          usage = record { input_tokens = r.used_tokens; output_tokens = 0 };
        },
        rw read (rw found (rw ends refl)),
        rw no_level refl,
      )
