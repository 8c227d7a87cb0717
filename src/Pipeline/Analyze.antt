-- ===== src/Pipeline/Analyze.antt =====
-- pipeline/analyze.go: the clauses that have no finding yet are given to one agent each, all on one
-- budget. The goroutines of the group run here one after another, an order that the group allows at
-- any limit; agent/budget.go's interleavings are those of Budget.Shared. Log lines are left out.
pub mod Counts
use contract_review_ai_agent.Common.{
  ℕ, ◌+◌, String, Bool, true, false, ◌||◌, ◌&&◌, not, Option, none, some, List, [], ◌∷◌, Result, ok,
  err, Error, error_text, Go, pure, fail, ◌>>=◌, ◌>>◌, orelse, ignoring, select, exists_in, str_eq,
  if◌then◌else◌,
}
use contract_review_ai_agent.Domain.{
  ContractStatus, clauses_extracted, analyzing, analyzed, Contract, Clause, ClauseAnalysis,
}
use contract_review_ai_agent.Budget.{Budget}
use contract_review_ai_agent.Cost.{estimate}
use contract_review_ai_agent.Store.{Store}
use contract_review_ai_agent.Agent.State.{Runtime, Agent, AnalyzeClauseTask, AgentResult}
use contract_review_ai_agent.Agent.Run.{run}
use contract_review_ai_agent.Pipeline.ClauseSplitting.{wrong_status}

-- The totals of the run
pub record Totals : Type 0 where
  pub total_tokens : ℕ
  pub total_cost : ℕ
  pub ok_count : ℕ
  pub failed_count : ℕ

abbrev pub no_totals : Totals
no_totals = record { total_tokens = 0; total_cost = 0; ok_count = 0; failed_count = 0 }

unfoldable pub has_finding : ClauseAnalysis → Bool
has_finding a = str_eq a.status "analyzed" || str_eq a.status "ok"

unfoldable pub is_analyzed : List ClauseAnalysis → Clause → Bool
unfolding has_finding
is_analyzed analyses c = exists_in (λ a. has_finding a && str_eq a.clause_id c.id) analyses

unfoldable pub not_analyzed : List ClauseAnalysis → List Clause → List Clause
not_analyzed analyses = select (λ c. not (is_analyzed analyses c))

unfoldable pub failed_analysis : String → String → String → ClauseAnalysis
failed_analysis id clause_id reason = record {
  id = id;
  clause_id = clause_id;
  risk_level = none;
  explanation = reason;
  ambiguous_language = "";
  recommendations = "";
  status = "failed";
}

unfoldable pub named_finding : String → String → ClauseAnalysis → ClauseAnalysis
named_finding id clause_id f = record f { id = id; clause_id = clause_id; status = "ok" }

module _ {W : Type 0} (s : Store W) where
  unfoldable pub clauses_needing_analysis : List Clause → Go W (List Clause)
  clauses_needing_analysis [] = pure []
  clauses_needing_analysis (c ∷ cs) = do
    analyses ← s.get_analyses c.contract_id
    pure (not_analyzed analyses (c ∷ cs))

  module _ (rt : Runtime W) (ag : Agent W) (provider model contract_id : String) where
    task_of : Clause → AnalyzeClauseTask
    task_of c = record { contract_id = contract_id; clause_id = c.id; clause_text = c.text }

    -- A failure to save is logged and dropped.
    save_failed : Clause → String → W → W
    save_failed c reason w =
        let (id, w') = rt.new_uuid w in
        ignoring (s.save_analysis (failed_analysis id c.id reason)) w'

    save_finding : Clause → ClauseAnalysis → W → W
    save_finding c f w =
        let (id, w') = rt.new_uuid w in ignoring (s.save_analysis (named_finding id c.id f)) w'

    paid : AgentResult → Totals → Totals
    paid r t = record t {
      total_tokens = t.total_tokens + (r.usage.input_tokens + r.usage.output_tokens);
      total_cost =
          t.total_cost + estimate provider model r.usage.input_tokens r.usage.output_tokens;
    }

    -- What a goroutine does with the end of its agent's run: exactly one analysis is saved.
    unfoldable pub record_result : Clause → AgentResult × Option Error → Totals → W → Totals × W
    unfolding save_failed save_finding paid
    record_result c (r, some e) t w =
        (record t { failed_count = t.failed_count + 1 }, save_failed c (error_text e) w)
    record_result c (r, none) t w =
        if str_eq r.stop "submitted"
        then (let u = paid r t in
            (record u { ok_count = u.ok_count + 1 }, save_finding c r.finding w))
        else (let u = paid r t in
            (record u { failed_count = u.failed_count + 1 }, save_failed c r.stop w))

    unfoldable pub analyze_each :
        List Clause → Totals → Option Budget → W → Totals × Option Budget × W
    unfolding task_of
    analyze_each [] t b w = (t, b, w)
    analyze_each (c ∷ cs) t b w =
        let (out, b', w1) = run rt ag (task_of c) b w in
        let (t', w2) = record_result c out t w1 in analyze_each cs t' b' w2

    pub analyze_all : Option Budget → List Clause → Go W Totals
    unfolding analyze_each
    analyze_all b clauses w = let (t, b', w') = analyze_each clauses no_totals b w in (ok t, w')

    unfoldable pub analyze_contract : Option Budget → Go W (Unit {0})
    unfolding analyze_all
    analyze_contract b = do
      clauses ← orelse "get clauses" (s.get_clauses contract_id)
      orelse "update status to analyzing" (s.update_contract_status contract_id analyzing)
      to_analyze ← orelse "filter clauses needing analysis" (clauses_needing_analysis clauses)
      totals ← analyze_all b to_analyze
      orelse "update status to analyzed" (s.update_contract_status contract_id analyzed)

    -- The guards: done already, ready, under way, or not ready.
    unfoldable pub analyze_found : Option Budget → ContractStatus → Go W (Unit {0})
    unfolding analyze_contract
    analyze_found b analyzed = pure tt
    analyze_found b clauses_extracted = analyze_contract b
    analyze_found b analyzing = analyze_contract b
    analyze_found b status = fail (wrong_status contract_id status clauses_extracted)

    unfoldable pub analyze_clauses : Option Budget → Go W (Unit {0})
    unfolding analyze_found
    analyze_clauses b = do
      contract ← orelse "get contract" (s.get_contract contract_id)
      analyze_found b contract.status
