-- ===== src/Pipeline/Analyze/Counts.antt =====
-- The counts of pipeline/analyze.go, and the clauses that it gives to agents.
use contract_review_ai_agent.Common.{
  ◌+◌, String, ◌≡◌, Option, none, some, List, [], ◌∷◌, length, Error, arith, Bool-cases, inl, inr,
  str_eq,
}
use contract_review_ai_agent.Domain.{Clause}
use contract_review_ai_agent.Budget.{Budget}
use contract_review_ai_agent.Store.{Store}
use contract_review_ai_agent.Agent.State.{Runtime, Agent, AgentResult}
use contract_review_ai_agent.Agent.Run.{run}
use contract_review_ai_agent.Pipeline.Analyze.{Totals, record_result, analyze_each, task_of}

module _ {W : Type 0} (s : Store W) (rt : Runtime W) (ag : Agent W)
    (provider model contract_id : String) where
  -- One clause is one more in the two counts together.
  record_result-counts :
      (c : Clause) (out : AgentResult × Option Error) (t : Totals) (w : W)
      → let t' = (record_result s rt ag provider model contract_id c out t w).0 in
        t'.ok_count + t'.failed_count ≡ t.ok_count + t.failed_count + 1
  unfolding record_result
  record_result-counts c (r, some e) t w = omega arith
  record_result-counts c (r, none) t w = elim (Bool-cases (str_eq r.stop "submitted")) [
    | inl submitted ↦ rw submitted (omega arith)
    | inr stopped ↦ rw stopped (omega arith)
  ]

  -- The counts of analysed and of failed clauses together grow by the number of clauses given to
  -- agents.
  pub analyze_each-counts :
      (cs : List Clause) (t : Totals) (b : Option Budget) (w : W)
      → let t' = (analyze_each s rt ag provider model contract_id cs t b w).0 in
        t'.ok_count + t'.failed_count ≡ t.ok_count + t.failed_count + length cs
  unfolding analyze_each
  analyze_each-counts [] t b w = omega arith
  analyze_each-counts (c ∷ cs) t b w =
      let (out, b', w1) = run rt ag (task_of s rt ag provider model contract_id c) b w in
      let (t', w2) = record_result s rt ag provider model contract_id c out t w1 in
      omega (arith, record_result-counts c out t w1, analyze_each-counts cs t' b' w2)
