-- ===== src/Agent/Accounting.antt =====
-- The accounts of a run (agent/agent.go on agent/budget.go): what it reports and what the budget
-- recorded.
use contract_review_ai_agent.Common.{
  ℕ, zero, suc, ◌+◌, ◌-◌, ◌≤◌, ◌<◌, pos, String, ◌≡◌, refl, ◌∙◌, ap, false, none, some, Option,
  List, Error, arith,
}
use contract_review_ai_agent.Llm.{Message, CompletionResponse}
use contract_review_ai_agent.Budget.{Budget, Usage, record_usage, exceeded}
use contract_review_ai_agent.Agent.State.{
  Runtime, Agent, AnalyzeClauseTask, AgentResult, no_usage, Session, Pass, goes_on, submits,
  out_of_budget, cancelled, aborted, is_exceeded, record_response, add_usage,
}
use contract_review_ai_agent.Agent.Step.{step}
use contract_review_ai_agent.Agent.Run.{enters, after_pass, finish, cancel, loop, open_run, run}
use contract_review_ai_agent.Agent.Effect.{Effect, Spends, Spares, step-Effect}

-- `n` answers lead from one state of a budget and a usage to another: each is one step of the
-- budget, the tokens of the usage are those of the budget, and a step limit that held still holds.
pub record Paid (n : ℕ) (b : Budget) (u : Usage) (b' : Budget) (u' : Usage) : Type 0 where
  pub steps : b'.used_steps ≡ b.used_steps + n
  pub input : b'.used_input_tokens + u.input_tokens ≡ b.used_input_tokens + u'.input_tokens
  pub output : b'.used_output_tokens + u.output_tokens ≡ b.used_output_tokens + u'.output_tokens
  pub limit : b'.max_steps ≡ b.max_steps
  pub within : 0 < b.max_steps → b.used_steps ≤ b.max_steps → b'.used_steps ≤ b.max_steps

abbrev PaidIfAny : ℕ → Option Budget → Usage → Option Budget → Usage → Type 0
PaidIfAny n none u none u' = Unit
PaidIfAny n (some b) u (some b') u' = Paid n b u b' u'
PaidIfAny n none u (some b') u' = ⊥
PaidIfAny n (some b) u none u' = ⊥

PaidIfAny-refl : (b : Option Budget) (u : Usage) → PaidIfAny 0 b u b u
PaidIfAny-refl none u = tt
PaidIfAny-refl (some b) u = record {
  steps = omega arith;
  input = omega arith;
  output = omega arith;
  limit = refl;
  within = λ h k. k;
}

PaidIfAny-suc :
    (n : ℕ) (b : Option Budget) (u : Usage) (resp : CompletionResponse) (b' : Option Budget)
    (u' : Usage)
    → is_exceeded b ≡ false
    → PaidIfAny n (record_response resp b) (add_usage resp u) b' u'
    → PaidIfAny (suc n) b u b' u'
unfolding record_response add_usage record_usage is_exceeded exceeded
PaidIfAny-suc n none u resp none u' allowed p = tt
PaidIfAny-suc n none u resp (some b') u' allowed p = p
PaidIfAny-suc n (some b) u resp none u' allowed p = p
PaidIfAny-suc n (some b) u resp (some b') u' allowed p = record {
  steps = omega (arith, p.steps);
  input = omega (arith, p.input);
  output = omega (arith, p.output);
  limit = p.limit;
  within = λ h k. p.within h (ground arith);
}

module _ {W : Type 0} where
  after_Spends :
      (n : ℕ) (s t : Session W) (b : Option Budget) (u : Usage)
      → Spends s t
      → PaidIfAny n t.budget t.usage b u
      → PaidIfAny (suc n) s.budget s.usage b u
  after_Spends n s t b u h p =
      PaidIfAny-suc n s.budget s.usage h.resp b u h.allowed (rw (← h.budget, ← h.usage) p)

  after_Spares : (s t : Session W) → Spares s t → PaidIfAny 0 s.budget s.usage t.budget t.usage
  after_Spares s t h = rw (h.budget, h.usage) (PaidIfAny-refl s.budget s.usage)

  -- The accounts of what the loop returns from round `i` on: at most `rounds` answers were paid for,
  -- and a run without an error reports that number and their tokens.
  abbrev pub Accounts : ℕ → ℕ → ℕ → Session W → (AgentResult × Option Error) × Session W → Type 0
  Accounts rounds start i s ((r, e), t) =
      (n : ℕ) × (n ≤ rounds)
      × PaidIfAny n s.budget s.usage t.budget t.usage
      × (e ≡ none → (r.steps ≡ pos (i - start + n)) × (r.usage ≡ t.usage))

-- What a run of at most `rounds` answers leaves of a budget, and what it reports.
abbrev pub Settled : ℕ → Budget → AgentResult → Option Error → Option Budget → Type 0
Settled rounds before r e b' =
    (n : ℕ) × (after : Budget) × (b' ≡ some after)
    × (n ≤ rounds)
    × (after.used_steps ≡ before.used_steps + n)
    × (e ≡ none
        → (r.steps ≡ pos n)
          × (after.used_input_tokens ≡ before.used_input_tokens + r.usage.input_tokens)
          × (after.used_output_tokens ≡ before.used_output_tokens + r.usage.output_tokens))
    × (0 < before.max_steps
        → before.used_steps ≤ before.max_steps
        → after.used_steps ≤ before.max_steps)

settle :
    (rounds start n : ℕ) (before : Budget) (r : AgentResult) (e : Option Error) (b' : Option Budget)
    (u' : Usage)
    → n ≤ rounds
    → PaidIfAny n (some before) no_usage b' u'
    → (e ≡ none → (r.steps ≡ pos (start - start + n)) × (r.usage ≡ u'))
    → Settled rounds before r e b'
settle rounds start n before r e none u' few p told = absurd p
settle rounds start n before r e (some after) u' few p told = (
  n,
  after,
  refl,
  few,
  p.steps,
  λ fine. (
    (told fine).0 ∙ ap pos (omega arith),
    rw ((told fine).1) (omega (arith, p.input)),
    rw ((told fine).1) (omega (arith, p.output)),
  ),
  p.within,
)

module _ {W : Type 0} (rt : Runtime W) (ag : Agent W) (task : AnalyzeClauseTask) where
  after_pass-Accounts :
      (rounds : ℕ) (rest : Session W → (AgentResult × Option Error) × Session W) (run_id : String)
      (start i : ℕ) (s : Session W) (pass : Pass) (t : Session W)
      → start ≤ i
      → Effect task s pass t
      → Accounts rounds start (suc i) t (rest t)
      → Accounts (suc rounds) start i s (after_pass rt ag task rest run_id start i pass t)
  unfolding after_pass finish cancel
  after_pass-Accounts rounds rest run_id start i s goes_on t h e (n, few, paid, told) = (
    suc n,
    omega arith,
    after_Spends n s t _ _ e paid,
    λ fine. ((told fine).0 ∙ ap pos (omega arith), (told fine).1),
  )
  after_pass-Accounts rounds rest run_id start i s (submits f) t h e ih = (
    1,
    omega arith,
    after_Spends 0 s t _ _ e.0 (PaidIfAny-refl t.budget t.usage),
    λ fine. (refl, refl),
  )
  after_pass-Accounts rounds rest run_id start i s out_of_budget t h e ih =
      (0, omega arith, after_Spares s t e.0, λ fine. (ap pos (omega arith), refl))
  after_pass-Accounts rounds rest run_id start i s (cancelled x) t h e ih =
      (0, omega arith, after_Spares s t e, λ fine. (ap pos (omega arith), refl))
  after_pass-Accounts rounds rest run_id start i s (aborted x) t h e ih =
      (0, omega arith, after_Spares s t e, λ fine. cc)

  loop-Accounts :
      (rounds : ℕ) (run_id : String) (start i : ℕ) (s : Session W)
      → start ≤ i
      → i + rounds ≡ ag.max_steps
      → Accounts rounds start i s (loop rt ag task rounds run_id start i s)
  unfolding loop finish
  loop-Accounts zero run_id start i s h k =
      (0, omega arith, PaidIfAny-refl s.budget s.usage, λ fine. (ground arith, refl))
  loop-Accounts (suc rounds) run_id start i s h k =
      let (pass, t) = step rt ag task run_id i s in
      after_pass-Accounts rounds (loop rt ag task rounds run_id start (suc i)) run_id start i s pass
        t h (step-Effect rt ag task run_id i s)
        (loop-Accounts rounds run_id start (suc i) t (omega arith) (omega arith))

  -- For a run with a budget that enters its loop at step `start`, `start` at most `max_steps`: some `n`
  -- answers of the model, at most `max_steps - start`, are the steps that the budget has more. If the run
  -- returns no error it reports `n` steps, and the input and output of the budget grew by the tokens of
  -- the reported usage. A positive step limit that the budget had not passed is not passed by the run; no
  -- other agent uses the budget here.
  pub run-accounts :
      (b : Option Budget) (w : W) {id : String} {start : ℕ} {msgs : List Message} {before : Budget}
      {w' : W}
      → open_run rt ag task (rt.new_uuid w).0 b (rt.new_uuid w).1
        ≡ (enters id start msgs, some before, w')
      → start ≤ ag.max_steps
      → let ((r, e), b', w'') = run rt ag task b w in Settled (ag.max_steps - start) before r e b'
  unfolding run
  run-accounts b w {id} {start} {msgs} {before} {w'} opened within =
      let s : Session W = record {
        world = w';
        budget = some before;
        msgs = msgs;
        usage = no_usage;
      } in
      let rounds = ag.max_steps - start in
      let out = loop rt ag task rounds id start start s in
      let (n, few, paid, told) =
        loop-Accounts rounds id start start s (omega arith) (omega arith) in
      rw opened
        (settle rounds start n before out.0.0 out.0.1 out.1.budget out.1.usage few paid told)
