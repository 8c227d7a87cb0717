-- ===== src/Agent/Step.antt =====
-- One pass of the body of the loop of agent/agent.go: the context manager, the budget's test, the call
-- to the model, the record of its cost, the answers to its tool calls, and the saved step.
use contract_review_ai_agent.Common.{
  ℕ, suc, ◌-◌, String, ◌<>◌, Option, none, some, List, [], ◌∷◌, ◌++◌, Result, ok, err, wrap, Go,
  ignoring, decimal, ◌==◌, if◌then◌else◌,
}
use contract_review_ai_agent.Llm.{
  assistant, Message, message, CompletionRequest, CompletionResponse,
}
use contract_review_ai_agent.Context.{ContextManager, prepare}
use contract_review_ai_agent.Store.{AgentStore}
use contract_review_ai_agent.Tool.{schemas}
use contract_review_ai_agent.Agent.State.{
  Runtime, Agent, AnalyzeClauseTask, Session, Pass, pass_of, out_of_budget, cancelled, aborted,
  is_exceeded, record_response, add_usage,
}
use contract_review_ai_agent.Agent.Calls.{respond}

module _ {W : Type 0} (rt : Runtime W) (ag : Agent W) (task : AnalyzeClauseTask) where
  unfoldable pub save_step :
      Option (AgentStore W) → String → ℕ → List Message → CompletionResponse → W → W
  save_step none run_id step msgs resp w = w
  save_step (some s) run_id step msgs resp w =
      ignoring
        (s.append_agent_step run_id step (rt.platform.marshal_messages msgs) (
          "{\"input\":"
          <> decimal resp.input_tokens
          <> ",\"output\":"
          <> decimal resp.output_tokens
          <> "}"))
        w

  pub prepared : Option (ContextManager W) → List Message → Go W (List Message)
  prepared none msgs w = (ok msgs, w)
  prepared (some cm) msgs w = prepare rt.tiktoken cm msgs w

  unfoldable pub request : ℕ → List Message → CompletionRequest
  request step msgs = record {
    messages = msgs;
    tools = schemas ag.tools;
    max_tokens = 1024;
    temperature = 2;
    force_tool_name = if suc step == ag.max_steps then "submit_finding" else "";
    timeout = 0;
  }

  -- The body after the model's answer
  unfoldable pub take_response :
      String → ℕ → Session W → Result CompletionResponse × W → Pass × Session W
  unfolding save_step pass_of
  take_response run_id step s (err e, w) =
      (aborted (wrap ("llm complete at step " <> decimal step) e), record s { world = w })
  take_response run_id step s (ok resp, w) =
      let answered = message assistant resp.content in
      let msgs = s.msgs ++ (record answered { tool_calls = resp.tool_calls } ∷ []) in
      let (found, msgs', w') = respond rt ag task (ag.max_steps - step - 1) resp msgs w in
      (
        pass_of found,
        record {
          world = save_step ag.store run_id step msgs' resp w';
          budget = record_response resp s.budget;
          msgs = msgs';
          usage = add_usage resp s.usage;
        },
      )

  -- The body after the context manager
  unfoldable pub take_prepared :
      String → ℕ → Session W → Result (List Message) × W → Pass × Session W
  take_prepared run_id step s (err e, w) =
      (aborted (wrap ("context prepare at step " <> decimal step) e), record s { world = w })
  take_prepared run_id step s (ok msgs, w) =
      let s' : Session W = record s { world = w; msgs = msgs } in
      if is_exceeded s.budget
      then (out_of_budget, s')
      else take_response run_id step s' (ag.llm (request step msgs) w)

  -- One pass of the loop's body
  unfoldable pub step : String → ℕ → Session W → Pass × Session W
  unfolding prepared
  step run_id i s = elim (rt.ctx_err s.world) [
    | some e ↦ (cancelled e, s)
    | none ↦ take_prepared run_id i s (prepared ag.ctx_mgr s.msgs s.world)
  ]
