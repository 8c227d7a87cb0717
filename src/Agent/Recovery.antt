-- ===== src/Agent/Recovery.antt =====
-- A crash between two passes of the loop of agent/agent.go, in a run without a budget.
use contract_review_ai_agent.Common.{
  ℕ, zero, suc, ◌-◌, String, ◌≡◌, refl, ◌∙◌, ap, Option, none, some, List, last?, Result, ok, err,
  Error, Bool-cases, Option-cases, inl, inr, arith,
}
use contract_review_ai_agent.Llm.{Message, CompletionResponse}
use contract_review_ai_agent.Budget.{Budget, Usage}
use contract_review_ai_agent.Store.{AgentRun, AgentStep, AgentStore}
use contract_review_ai_agent.Agent.State.{
  Runtime, Agent, AnalyzeClauseTask, AgentResult, no_usage, Session, Pass, goes_on, is_exceeded,
  add_usage,
}
use contract_review_ai_agent.Agent.Step.{step, take_prepared, take_response, prepared, request}
use contract_review_ai_agent.Agent.Run.{after_pass, finish, cancel, loop, run, restored}
use contract_review_ai_agent.Agent.Resume.{Loads, run-resumes}

-- Two ends of a run with the same finding, stop and error.
pub record Agrees {W : Type 0} (a b : (AgentResult × Option Error) × Session W) : Type 0 where
  pub finding : a.0.0.finding ≡ b.0.0.finding
  pub stop : a.0.0.stop ≡ b.0.0.stop
  pub error : a.0.1 ≡ b.0.1

module _ {W : Type 0} (rt : Runtime W) (ag : Agent W) (task : AnalyzeClauseTask) where
  -- The usage counted so far changes nothing of a pass but the usage.
  abbrev Blind : Pass × Session W → Pass × Session W → Type 0
  Blind a b = (u : Usage) × (b ≡ (a.0, record a.1 { usage = u }))

  take_response-Blind :
      (run_id : String) (i : ℕ) (s : Session W) (u : Usage) (r : Result CompletionResponse × W)
      → Blind
          (take_response rt ag task run_id i s r)
          (take_response rt ag task run_id i (record s { usage = u }) r)
  unfolding take_response
  take_response-Blind run_id i s u (err e, w) = (u, refl)
  take_response-Blind run_id i s u (ok resp, w) = (add_usage resp u, refl)

  take_prepared-Blind :
      (run_id : String) (i : ℕ) (s : Session W) (u : Usage) (r : Result (List Message) × W)
      → Blind
          (take_prepared rt ag task run_id i s r)
          (take_prepared rt ag task run_id i (record s { usage = u }) r)
  unfolding take_prepared
  take_prepared-Blind run_id i s u (err e, w) = (u, refl)
  take_prepared-Blind run_id i s u (ok msgs, w) = elim (Bool-cases (is_exceeded s.budget)) [
    | inl over ↦ rw over (u, refl)
    | inr under ↦ rw under (
        take_response-Blind run_id i (record s { world = w; msgs = msgs }) u
          (ag.llm (request rt ag task i msgs) w))
  ]

  step-Blind :
      (run_id : String) (i : ℕ) (s : Session W) (u : Usage)
      → Blind (step rt ag task run_id i s) (step rt ag task run_id i (record s { usage = u }))
  unfolding step
  step-Blind run_id i s u = elim (Option-cases (rt.ctx_err s.world)) [
    | inl going ↦
        rw (going, step)
          (take_prepared-Blind run_id i s u (prepared rt ag task ag.ctx_mgr s.msgs s.world))
    | inr (e, stopped) ↦ rw (stopped, step) (u, refl)
  ]

  after_pass-Agrees :
      (rest rest' : Session W → (AgentResult × Option Error) × Session W) (run_id : String)
      (start start' i : ℕ) (pass : Pass) (s : Session W) (u : Usage)
      → Agrees (rest s) (rest' (record s { usage = u }))
      → Agrees
          (after_pass rt ag task rest run_id start i pass s)
          (after_pass rt ag task rest' run_id start' i pass (record s { usage = u }))
  unfolding after_pass finish cancel
  after_pass-Agrees rest rest' run_id start start' i goes_on s u ih = ih
  after_pass-Agrees rest rest' run_id start start' i pass s u ih = record {
    finding = refl;
    stop = refl;
    error = refl;
  }

  loop-Agrees :
      (rounds : ℕ) (run_id : String) (start start' i : ℕ) (s : Session W) (u : Usage)
      → Agrees
          (loop rt ag task rounds run_id start i s)
          (loop rt ag task rounds run_id start' i (record s { usage = u }))
  unfolding loop finish
  loop-Agrees zero run_id start start' i s u = record { finding = refl; stop = refl; error = refl }
  loop-Agrees (suc rounds) run_id start start' i s u =
      let (pass, t) = step rt ag task run_id i s in
      let (v, same) = step-Blind run_id i s u in
      rw same (
        after_pass-Agrees (loop rt ag task rounds run_id start (suc i))
          (loop rt ag task rounds run_id start' (suc i)) run_id start start' i pass t v
          (loop-Agrees rounds run_id start start' (suc i) t v))

  -- What the resumption after pass `i` relies on: the JSON codec reads back the
  -- messages that it wrote; making an
  -- identifier leaves the world alone; and in the world that the pass left, a load of the clause finds
  -- the run under way, with the step that the pass saved as its last one.
  pub record SavedPass (st : AgentStore W) (r : AgentRun) (i : ℕ) (t : Session W) : Type 0 where
    pub decodes : rt.platform.unmarshal_messages (rt.platform.marshal_messages t.msgs) ≡ ok t.msgs
    pub fresh : (rt.new_uuid t.world).1 ≡ t.world
    pub steps : List AgentStep
    pub last : AgentStep
    pub found : Loads rt ag task st t.world r steps t.world
    pub running : r.status ≡ "running"
    pub at_last : last? steps ≡ some last
    pub index : last.step_index ≡ i
    pub saved : last.messages ≡ rt.platform.marshal_messages t.msgs

  -- The loop that the resumed run enters, against the loop that would have gone on.
  resume-Agrees :
      (run_id : String) (start i : ℕ) (t : Session W) {k : ℕ} {b : Option Budget}
      → suc i ≡ k
      → t.budget ≡ b
      → let resumed : Session W = record {
        world = t.world;
        budget = b;
        msgs = t.msgs;
        usage = no_usage;
      } in
        Agrees
          (loop rt ag task (ag.max_steps - suc i) run_id start (suc i) t)
          ((loop rt ag task (ag.max_steps - k) run_id k k resumed).0, t)
  resume-Agrees run_id start i t p q =
      let a = loop-Agrees (ag.max_steps - suc i) run_id start (suc i) (suc i) t no_usage in
      rw (← p, ← q) (record { finding = a.finding; stop = a.stop; error = a.error })

  -- A run without a budget passes step `i` and goes on in `t`. If the process dies there and the agent
  -- is run again, it makes the passes that were left, and comes to the finding, the stop and the error
  -- that the loop would have come to from `t`.
  pub run-recovers :
      (st : AgentStore W) (r : AgentRun) (start i : ℕ) (t : Session W)
      → t.budget ≡ none
      → SavedPass st r i t
      → Agrees
          (loop rt ag task (ag.max_steps - suc i) r.id start (suc i) t)
          ((run rt ag task none t.world).0, t)
  unfolding restored
  run-recovers st r start i t no_budget s =
      let found : Loads rt ag task st (rt.new_uuid t.world).1 r s.steps t.world =
        rw (s.fresh) (s.found) in
      rw
        (run-resumes rt ag task none t.world st r s.steps s.last t.msgs t.world found s.running
          s.at_last (ap rt.platform.unmarshal_messages s.saved ∙ s.decodes))
        (resume-Agrees r.id start i t (omega (arith, s.index)) no_budget)
