-- ===== src/Agent/Run.antt =====
-- Run of agent/agent.go: what the store knows of the clause, the loop, and the end of the run. Go's
-- pair `(Result, error)` is a pair here, since a cancelled run returns both.
use contract_review_ai_agent.Common.{
  ℕ, zero, suc, ◌+◌, ◌-◌, ℤ, pos, sub_ℕ, String, Option, none, some, List, last?, Result, ok, err,
  Error, wrap, ignoring, str_eq, if◌then◌else◌,
}
use contract_review_ai_agent.Domain.{ClauseAnalysis, no_analysis}
use contract_review_ai_agent.Llm.{Message}
use contract_review_ai_agent.Budget.{Budget, restore_tokens}
use contract_review_ai_agent.Store.{AgentRun, AgentStep, AgentStore}
use contract_review_ai_agent.Agent.State.{
  Runtime, Agent, AnalyzeClauseTask, AgentResult, no_result, no_usage, Session, Pass, goes_on,
  submits, out_of_budget, cancelled, aborted, spent, initial_messages, status_running,
  status_submitted,
}
use contract_review_ai_agent.Agent.Step.{step}

-- What `Run` does before its loop: it returns, or it enters the loop under a run's identifier, at a
-- step, with messages.
pub data Entry : Type 0 where
  returns : AgentResult → Option Error → Entry
  enters : String → ℕ → List Message → Entry

unfoldable pub restored : AgentRun → Option Budget → Option Budget
restored run none = none
restored run (some b) = some (restore_tokens run.used_tokens run.used_cost_usd b)

module _ {W : Type 0} (rt : Runtime W) (ag : Agent W) (task : AnalyzeClauseTask) where
  -- A run that was submitted before: its finding is read back.
  stored_result : AgentRun → Result ClauseAnalysis → Entry
  stored_result run (err e) = returns no_result (some (wrap "get stored finding" e))
  stored_result run (ok f) =
      returns
        (record {
          finding = f;
          steps = run.step_count;
          stop = "submitted";
          usage = record { input_tokens = run.used_tokens; output_tokens = 0 };
        })
        none

  -- The messages of the last saved step, decoded
  taken_up : AgentRun → ℕ → Option Budget → W → Result (List Message) → Entry × Option Budget × W
  taken_up run step_index b w (err e) =
      (returns no_result (some (wrap "unmarshal messages" e)), b, w)
  taken_up run step_index b w (ok msgs) = (enters run.id (step_index + 1) msgs, restored run b, w)

  -- A run that was under way: its last saved step gives the messages and the step to go on at.
  resumed : AgentRun → Option AgentStep → Option Budget → W → Entry × Option Budget × W
  unfolding taken_up
  resumed run none b w = (enters run.id 0 (initial_messages task), restored run b, w)
  resumed run (some last) b w =
      taken_up run last.step_index b w (rt.platform.unmarshal_messages last.messages)

  started : String → Result (Unit {0}) → Entry
  started id (err e) = returns no_result (some (wrap "start agent run" e))
  started id (ok u) = enters id 0 (initial_messages task)

  -- A run that ended otherwise (`max_steps`, `budget`) leaves the new identifier, and no run of that
  -- identifier is started.
  after_load :
      AgentStore W
      → String
      → Option Budget
      → Result (Option (AgentRun × List AgentStep)) × W
      → Entry × Option Budget × W
  unfolding stored_result resumed started
  after_load st id b (err e, w) = (returns no_result (some (wrap "load agent run" e)), b, w)
  after_load st id b (ok none, w) =
      let (r, w') = st.start_agent_run id task.clause_id "" w in (started id r, b, w')
  after_load st id b (ok (some (run, steps)), w) =
      if str_eq run.status status_submitted
      then (let (r, w') = st.get_stored_finding task.clause_id w in (stored_result run r, b, w'))
      else if str_eq run.status status_running
      then resumed run (last? steps) b w
      else (enters id 0 (initial_messages task), b, w)

  unfoldable pub open_run : String → Option Budget → W → Entry × Option Budget × W
  unfolding after_load
  open_run id b w = elim ag.store [
    | none ↦ (enters id 0 (initial_messages task), b, w)
    | some st ↦ after_load st id b (st.load_agent_run task.clause_id w)
  ]

  tell : Option (AgentStore W) → String → String → ℤ → Option Budget → W → W
  tell none run_id status steps b w = w
  tell (some st) run_id status steps b w =
      let (tokens, cost) = spent b in
      ignoring (st.finish_agent_run run_id status steps tokens cost) w

  -- The end of a run that reached its end: the store is told, then the result returned.
  unfoldable pub finish :
      String → String → ℤ → ClauseAnalysis → Session W → (AgentResult × Option Error) × Session W
  unfolding tell
  finish run_id stop steps f s = (
    (record { finding = f; steps = steps; stop = stop; usage = s.usage }, none),
    record s { world = tell ag.store run_id stop steps s.budget s.world },
  )

  unfoldable pub cancel : Error → ℕ → Session W → (AgentResult × Option Error) × Session W
  cancel e steps s = (
    (
      record { finding = no_analysis; steps = pos steps; stop = "cancelled"; usage = s.usage },
      some e,
    ),
    s,
  )

  -- What the loop does with the end of a pass; `rest` is the passes that follow.
  unfoldable pub after_pass :
      (Session W → (AgentResult × Option Error) × Session W)
      → String
      → ℕ
      → ℕ
      → Pass
      → Session W
      → (AgentResult × Option Error) × Session W
  after_pass rest run_id start i goes_on s = rest s
  after_pass rest run_id start i (submits f) s = finish run_id "submitted" (pos (i - start + 1)) f s
  after_pass rest run_id start i out_of_budget s =
      finish run_id "budget" (pos (i - start)) no_analysis s
  after_pass rest run_id start i (cancelled e) s = cancel e (i - start) s
  after_pass rest run_id start i (aborted e) s = ((no_result, some e), s)

  -- `for step := startStep; step < a.maxSteps; step++`, by the rounds left
  unfoldable pub loop : ℕ → String → ℕ → ℕ → Session W → (AgentResult × Option Error) × Session W
  loop zero run_id start i s = finish run_id "max_steps" (sub_ℕ ag.max_steps start) no_analysis s
  loop (suc rounds) run_id start i s =
      let (pass, s') = step rt ag task run_id i s in
      after_pass (loop rounds run_id start (suc i)) run_id start i pass s'

  enter : Entry × Option Budget × W → (AgentResult × Option Error) × Option Budget × W
  enter (returns r e, b, w) = ((r, e), b, w)
  enter (enters run_id start msgs, b, w) =
      let s : Session W = record { world = w; budget = b; msgs = msgs; usage = no_usage } in
      let (out, s') = loop (ag.max_steps - start) run_id start start s in (out, s'.budget, s'.world)

  unfoldable pub run : Option Budget → W → (AgentResult × Option Error) × Option Budget × W
  unfolding enter
  run b w = let (id, w') = rt.new_uuid w in enter (open_run id b w')
