-- ===== src/Agent/Effect.antt =====
-- What one pass of the agent's loop (agent/agent.go) does to the budget and the usage, by the way it
-- ends.
use contract_review_ai_agent.Common.{
  ℕ, String, ◌≡◌, refl, false, true, Option, none, some, List, [], ◌∷◌, ◌++◌, Result, ok, err,
  Result-cases, Bool-cases, Option-cases, inl, inr, str_eq,
}
use contract_review_ai_agent.Domain.{ClauseAnalysis}
use contract_review_ai_agent.Llm.{Message, ToolCall, CompletionResponse}
use contract_review_ai_agent.Agent.State.{
  Runtime, Agent, AnalyzeClauseTask, Session, Pass, goes_on, submits, out_of_budget, cancelled,
  aborted, is_exceeded, record_response, add_usage, pass_of,
}
use contract_review_ai_agent.Agent.Validate.{
  IsComplete, parse_and_validate_finding, parse_and_validate_finding-IsComplete,
}
use contract_review_ai_agent.Agent.Calls.{
  Answer, accepts, replies, answer_call, answer_calls, respond,
}
use contract_review_ai_agent.Agent.Step.{step, take_prepared, take_response, request, prepared}

-- A finding, if there is one, is complete.
abbrev pub IsCompleteIfAny : AnalyzeClauseTask → Option ClauseAnalysis → Type 0
IsCompleteIfAny task none = Unit
IsCompleteIfAny task (some f) = IsComplete task f

module _ {W : Type 0} where
  -- One response was paid for, and the budget had allowed it.
  pub record Spends (s s' : Session W) : Type 0 where
    pub resp : CompletionResponse
    pub budget : s'.budget ≡ record_response resp s.budget
    pub usage : s'.usage ≡ add_usage resp s.usage
    pub allowed : is_exceeded s.budget ≡ false

  pub record Spares (s s' : Session W) : Type 0 where
    pub budget : s'.budget ≡ s.budget
    pub usage : s'.usage ≡ s.usage

  abbrev pub Effect : AnalyzeClauseTask → Session W → Pass → Session W → Type 0
  Effect task s goes_on s' = Spends s s'
  Effect task s (submits f) s' = Spends s s' × IsComplete task f
  Effect task s out_of_budget s' = Spares s s' × (is_exceeded s.budget ≡ true)
  Effect task s (cancelled e) s' = Spares s s'
  Effect task s (aborted e) s' = Spares s s'

  pass_of-Effect :
      (task : AnalyzeClauseTask) (s s' : Session W) (o : Option ClauseAnalysis)
      → IsCompleteIfAny task o
      → Spends s s'
      → Effect task s (pass_of o) s'
  unfolding pass_of
  pass_of-Effect task s s' none c h = h
  pass_of-Effect task s s' (some f) c h = (h, c)

module _ {W : Type 0} (rt : Runtime W) (ag : Agent W) (task : AnalyzeClauseTask) where
  abbrev AnswerIsComplete : Answer W → Type 0
  AnswerIsComplete (accepts f) = IsComplete task f
  AnswerIsComplete (replies m w) = Unit

  answer_call-IsComplete :
      (call : ToolCall) (w : W) → AnswerIsComplete (answer_call rt ag task call w)
  unfolding answer_call
  answer_call-IsComplete call w = elim (Bool-cases (str_eq call.name "submit_finding")) [
    | inr other ↦ rw other tt
    | inl submit ↦ elim (Result-cases (parse_and_validate_finding rt.platform task call.args)) [
      | inl (f, accepted) ↦
          rw (submit, accepted)
            (parse_and_validate_finding-IsComplete rt.platform task call.args f accepted)
      | inr (e, refused) ↦ rw (submit, refused) tt
    ]
  ]

  answer_calls-IsComplete :
      (calls : List ToolCall) (msgs : List Message) (w : W)
      → IsCompleteIfAny task (answer_calls rt ag task calls msgs w).0
  unfolding answer_calls
  answer_calls-IsComplete [] msgs w = tt
  answer_calls-IsComplete (call ∷ calls) msgs w =
      go (answer_call rt ag task call w) refl (answer_call-IsComplete call w)
        (λ m w'. answer_calls-IsComplete calls (msgs ++ (m ∷ [])) w')
    where
      go :
          (a : Answer W)
          → answer_call rt ag task call w ≡ a
          → AnswerIsComplete a
          → ((m : Message) (w' : W)
              → IsCompleteIfAny task (answer_calls rt ag task calls (msgs ++ (m ∷ [])) w').0)
          → IsCompleteIfAny task (answer_calls rt ag task (call ∷ calls) msgs w).0
      go (accepts f) e c ih = rw (e, answer_calls) c
      go (replies m w') e c ih = rw (e, answer_calls) (ih m w')

  respond-IsComplete :
      (remaining : ℕ) (resp : CompletionResponse) (msgs : List Message) (w : W)
      → IsCompleteIfAny task (respond rt ag task remaining resp msgs w).0
  unfolding respond
  respond-IsComplete remaining resp msgs w = go resp.tool_calls refl
    where
      go :
          (calls : List ToolCall)
          → resp.tool_calls ≡ calls
          → IsCompleteIfAny task (respond rt ag task remaining resp msgs w).0
      go [] e = rw (e, respond) tt
      go (call ∷ calls) e = rw (e, respond) (answer_calls-IsComplete (call ∷ calls) msgs w)

  take_response-Effect :
      (run_id : String) (i : ℕ) (s : Session W) (msgs : List Message) (w0 : W)
      (r : Result CompletionResponse × W)
      → is_exceeded s.budget ≡ false
      → let (pass, s') =
          take_response rt ag task run_id i (record s { world = w0; msgs = msgs }) r in
        Effect task s pass s'
  unfolding take_response
  take_response-Effect run_id i s msgs w0 (err e, w) h = record { budget = refl; usage = refl }
  take_response-Effect run_id i s msgs w0 (ok resp, w) h =
      pass_of-Effect task s _ _ (respond-IsComplete _ resp _ w)
        (record { resp = resp; budget = refl; usage = refl; allowed = h })

  take_prepared-Effect :
      (run_id : String) (i : ℕ) (s : Session W) (r : Result (List Message) × W)
      → Effect task s
          (take_prepared rt ag task run_id i s r).0
          (take_prepared rt ag task run_id i s r).1
  unfolding take_prepared
  take_prepared-Effect run_id i s (err e, w) = record { budget = refl; usage = refl }
  take_prepared-Effect run_id i s (ok msgs, w) = elim (Bool-cases (is_exceeded s.budget)) [
    | inl over ↦ rw over (record { budget = refl; usage = refl }, over)
    | inr under ↦
        rw under
          (take_response-Effect run_id i s msgs w (ag.llm (request rt ag task i msgs) w) under)
  ]

  -- What a pass does to the budget and the usage, and what it knows of the finding that it submits.
  pub step-Effect :
      (run_id : String) (i : ℕ) (s : Session W)
      → Effect task s (step rt ag task run_id i s).0 (step rt ag task run_id i s).1
  unfolding step
  step-Effect run_id i s = elim (Option-cases (rt.ctx_err s.world)) [
    | inl running ↦
        rw (running, step)
          (take_prepared-Effect run_id i s (prepared rt ag task ag.ctx_mgr s.msgs s.world))
    | inr (e, stopped) ↦ rw (stopped, step) (record { budget = refl; usage = refl })
  ]
