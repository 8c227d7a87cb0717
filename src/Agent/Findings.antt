-- ===== src/Agent/Findings.antt =====
-- The finding of a run of agent/agent.go that reports a submission.
use contract_review_ai_agent.Common.{
  ℕ, zero, suc, ◌-◌, String, ◌≡◌, Option, List, Error, eq_iff, arith,
}
use contract_review_ai_agent.Budget.{Budget}
use contract_review_ai_agent.Llm.{Message}
use contract_review_ai_agent.Agent.State.{
  Runtime, Agent, AnalyzeClauseTask, AgentResult, no_usage, Session, Pass, goes_on, submits,
  out_of_budget, cancelled, aborted,
}
use contract_review_ai_agent.Agent.Validate.{IsComplete}
use contract_review_ai_agent.Agent.Step.{step}
use contract_review_ai_agent.Agent.Run.{enters, after_pass, finish, cancel, loop, open_run, run}
use contract_review_ai_agent.Agent.Effect.{Effect, step-Effect}

module _ {W : Type 0} (rt : Runtime W) (ag : Agent W) (task : AnalyzeClauseTask) where
  -- A result that says "submitted" has a complete finding.
  abbrev pub SubmitsComplete : (AgentResult × Option Error) × Session W → Type 0
  SubmitsComplete ((r, e), s) = r.stop ≡ "submitted" → IsComplete task r.finding

  after_pass-SubmitsComplete :
      (rest : Session W → (AgentResult × Option Error) × Session W) (run_id : String) (start i : ℕ)
      (s : Session W) (pass : Pass) (s' : Session W)
      → Effect task s pass s'
      → SubmitsComplete (rest s')
      → SubmitsComplete (after_pass rt ag task rest run_id start i pass s')
  unfolding after_pass finish cancel
  after_pass-SubmitsComplete rest run_id start i s goes_on s' e ih = ih
  after_pass-SubmitsComplete rest run_id start i s (submits f) s' e ih = λ h. e.1
  after_pass-SubmitsComplete rest run_id start i s out_of_budget s' e ih =
      λ h. absurd (ground (arith, eq_iff "budget" "submitted"))
  after_pass-SubmitsComplete rest run_id start i s (cancelled x) s' e ih =
      λ h. absurd (ground (arith, eq_iff "cancelled" "submitted"))
  after_pass-SubmitsComplete rest run_id start i s (aborted x) s' e ih =
      λ h. absurd (ground (arith, eq_iff "" "submitted"))

  loop-SubmitsComplete :
      (rounds : ℕ) (run_id : String) (start i : ℕ) (s : Session W)
      → SubmitsComplete (loop rt ag task rounds run_id start i s)
  unfolding loop finish
  loop-SubmitsComplete zero run_id start i s =
      λ h. absurd (ground (arith, eq_iff "max_steps" "submitted"))
  loop-SubmitsComplete (suc rounds) run_id start i s =
      let (pass, s') = step rt ag task run_id i s in
      after_pass-SubmitsComplete (loop rt ag task rounds run_id start (suc i)) run_id start i s pass
        s' (step-Effect rt ag task run_id i s) (loop-SubmitsComplete rounds run_id start (suc i) s')

  -- A run that enters its loop, afresh or resumed, and reports "submitted", returns a finding for the
  -- task's own clause, with a risk level, an explanation and recommendations.
  pub run-IsComplete :
      (b : Option Budget) (w : W) {id : String} {start : ℕ} {msgs : List Message}
      {b' : Option Budget} {w' : W}
      → open_run rt ag task (rt.new_uuid w).0 b (rt.new_uuid w).1 ≡ (enters id start msgs, b', w')
      → (run rt ag task b w).0.0.stop ≡ "submitted"
      → IsComplete task (run rt ag task b w).0.0.finding
  unfolding run
  run-IsComplete b w {id} {start} {msgs} {b'} {w'} opened = rw opened (
      loop-SubmitsComplete (ag.max_steps - start) id start start
        (record { world = w'; budget = b'; msgs = msgs; usage = no_usage }))
