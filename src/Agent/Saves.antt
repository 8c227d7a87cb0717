-- ===== src/Agent/Saves.antt =====
-- What a pass of the loop of agent/agent.go leaves in the store, and a crash behind it.
use contract_review_ai_agent.Common.{
  ℕ, suc, ◌-◌, String, ◌≡◌, refl, ◌∙◌, ap, subst, ◌++◌, ◌<◌, arith, [], ◌∷◌, Option, none, some,
  List, Result, ok, err, Bool-cases, Option-cases, inl, inr, ignoring,
}
use contract_review_ai_agent.Domain.{ClauseAnalysis}
use contract_review_ai_agent.Llm.{assistant, message, Message, CompletionResponse}
use contract_review_ai_agent.Store.{AgentRun, AgentStore}
use contract_review_ai_agent.Agent.State.{
  Runtime, Agent, AnalyzeClauseTask, Session, Pass, goes_on, submits, out_of_budget, cancelled,
  aborted, is_exceeded, record_response, pass_of,
}
use contract_review_ai_agent.Agent.Calls.{respond}
use contract_review_ai_agent.Agent.Step.{
  step, take_prepared, take_response, prepared, request, save_step,
}
use contract_review_ai_agent.Agent.Run.{loop, run, after_pass}
use contract_review_ai_agent.Agent.Effect.{Effect, Spends, step-Effect}
use contract_review_ai_agent.Agent.Recovery.{Agrees, SavedPass, run-recovers}

module _ {W : Type 0} (rt : Runtime W) (ag : Agent W) (task : AnalyzeClauseTask)
    (st : AgentStore W) where
  -- The last thing done in a session was to append its messages, as step `i` of a run.
  pub record EndsInAppend (run_id : String) (i : ℕ) (t : Session W) : Type 0 where
    pub before : W
    pub usage : String
    pub appended :
        t.world
        ≡ ignoring
            (st.append_agent_step run_id i (rt.platform.marshal_messages t.msgs) usage)
            before

  -- The passes that got an answer are saved.
  abbrev pub Saves : String → ℕ → Pass × Session W → Type 0
  Saves run_id i (goes_on, t) = EndsInAppend run_id i t
  Saves run_id i (submits f, t) = EndsInAppend run_id i t
  Saves run_id i (out_of_budget, t) = Unit
  Saves run_id i (cancelled e, t) = Unit
  Saves run_id i (aborted e, t) = Unit

  pass_of-Saves :
      (run_id : String) (i : ℕ) (o : Option ClauseAnalysis) (t : Session W)
      → EndsInAppend run_id i t
      → Saves run_id i (pass_of o, t)
  unfolding pass_of
  pass_of-Saves run_id i none t h = h
  pass_of-Saves run_id i (some f) t h = h

  save_step-some :
      (o : Option (AgentStore W)) (run_id : String) (i : ℕ) (msgs : List Message)
      (resp : CompletionResponse) (w : W)
      → o ≡ some st
      → (usage : String) × (save_step rt ag task o run_id i msgs resp w
          ≡ ignoring (st.append_agent_step run_id i (rt.platform.marshal_messages msgs) usage) w)
  unfolding save_step
  save_step-some o run_id i msgs resp w h = rw h (_, refl)

  take_response-Saves :
      (run_id : String) (i : ℕ) (s : Session W) (r : Result CompletionResponse × W)
      → ag.store ≡ some st
      → Saves run_id i (take_response rt ag task run_id i s r)
  unfolding take_response
  take_response-Saves run_id i s (err e, w) h = tt
  take_response-Saves run_id i s (ok resp, w) h =
      let answered = message assistant resp.content in
      let msgs = s.msgs ++ (record answered { tool_calls = resp.tool_calls } ∷ []) in
      let (found, msgs', w') = respond rt ag task (ag.max_steps - i - 1) resp msgs w in
      let saved = save_step-some ag.store run_id i msgs' resp w' h in
      pass_of-Saves run_id i found _ (record { before = w'; usage = saved.0; appended = saved.1 })

  take_prepared-Saves :
      (run_id : String) (i : ℕ) (s : Session W) (r : Result (List Message) × W)
      → ag.store ≡ some st
      → Saves run_id i (take_prepared rt ag task run_id i s r)
  unfolding take_prepared
  take_prepared-Saves run_id i s (err e, w) h = tt
  take_prepared-Saves run_id i s (ok msgs, w) h = elim (Bool-cases (is_exceeded s.budget)) [
    | inl over ↦ rw over tt
    | inr under ↦ rw under (
        take_response-Saves run_id i (record s { world = w; msgs = msgs })
          (ag.llm (request rt ag task i msgs) w) h)
  ]

  -- A pass that goes on or submits has appended, as its last act on the world, the messages that it
  -- leaves, under the run's identifier and the pass's own index.
  pub step-Saves :
      (run_id : String) (i : ℕ) (s : Session W)
      → ag.store ≡ some st
      → Saves run_id i (step rt ag task run_id i s)
  unfolding step
  step-Saves run_id i s h = elim (Option-cases (rt.ctx_err s.world)) [
    | inl going ↦
        rw (going, step)
          (take_prepared-Saves run_id i s (prepared rt ag task ag.ctx_mgr s.msgs s.world) h)
    | inr (e, stopped) ↦ rw (stopped, step) tt
  ]

  -- The loop goes on behind a pass that goes on.
  loop-goes_on :
      (rounds : ℕ) (run_id : String) (start i : ℕ) (s t : Session W)
      → rounds ≡ suc (ag.max_steps - suc i)
      → step rt ag task run_id i s ≡ (goes_on, t)
      → loop rt ag task rounds run_id start i s
        ≡ loop rt ag task (ag.max_steps - suc i) run_id start (suc i) t
  unfolding loop after_pass
  loop-goes_on rounds run_id start i s t p h = rw p (rw h refl)

  no_budget_left :
      (run_id : String) (i : ℕ) (s t : Session W)
      → s.budget ≡ none
      → step rt ag task run_id i s ≡ (goes_on, t)
      → t.budget ≡ none
  unfolding record_response
  no_budget_left run_id i s t h going =
      let spent : Spends s t =
        subst (λ x. Effect task s x.0 x.1) going (step-Effect rt ag task run_id i s) in
      spent.budget ∙ ap (record_response spent.resp) h

  -- A run without a budget dies behind a pass of its loop that goes on, before anything else is done.
  -- If what that pass appended is what a load of the clause then finds, with the run under way, the
  -- agent that is run again comes to the finding, the stop and the error of the loop that had not died.
  pub run-survives :
      (r : AgentRun) (start i : ℕ) (s t : Session W)
      → ag.store ≡ some st
      → s.budget ≡ none
      → i < ag.max_steps
      → step rt ag task r.id i s ≡ (goes_on, t)
      → (EndsInAppend r.id i t → SavedPass rt ag task st r i t)
      → Agrees
          (loop rt ag task (ag.max_steps - i) r.id start i s)
          ((run rt ag task none t.world).0, t)
  run-survives r start i s t has_store no_budget more going reloads =
      let appended : EndsInAppend r.id i t =
        subst (Saves r.id i) going (step-Saves r.id i s has_store) in
      rw (loop-goes_on (ag.max_steps - i) r.id start i s t (omega arith) going) (
        run-recovers rt ag task st r start i t (no_budget_left r.id i s t no_budget going)
          (reloads appended))
