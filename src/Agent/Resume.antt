-- ===== src/Agent/Resume.antt =====
-- How Run of agent/agent.go takes up what the store knows of a clause.
use contract_review_ai_agent.Common.{◌+◌, ◌-◌, ◌≡◌, refl, Option, none, some, List, last?, ok}
use contract_review_ai_agent.Domain.{ClauseAnalysis}
use contract_review_ai_agent.Llm.{Message}
use contract_review_ai_agent.Budget.{Budget}
use contract_review_ai_agent.Store.{AgentRun, AgentStep, AgentStore}
use contract_review_ai_agent.Agent.State.{Runtime, Agent, AnalyzeClauseTask, no_usage, Session}
use contract_review_ai_agent.Agent.Run.{restored, open_run, loop, run}

module _ {W : Type 0} (rt : Runtime W) (ag : Agent W) (task : AnalyzeClauseTask) where
  -- `s` is the agent's store, and a load of the task's clause in `w` finds `r` and its steps.
  pub record Loads (s : AgentStore W) (w : W) (r : AgentRun) (steps : List AgentStep) (w' : W)
      : Type 0 where
    pub has_store : ag.store ≡ some s
    pub loads : s.load_agent_run task.clause_id w ≡ (ok (some (r, steps)), w')

  -- A clause whose run was submitted is not analysed again: the finding is read back from the store,
  -- under "submitted" with the stored steps and tokens, the budget is left alone, and the world is
  -- the one that the two reads leave.
  pub run-submitted :
      (b : Option Budget) (w : W) (s : AgentStore W) (r : AgentRun) (steps : List AgentStep)
      (w1 w2 : W) (f : ClauseAnalysis)
      → Loads s (rt.new_uuid w).1 r steps w1
      → r.status ≡ "submitted"
      → s.get_stored_finding task.clause_id w1 ≡ (ok f, w2)
      → run rt ag task b w ≡ (
        (
          record {
            finding = f;
            steps = r.step_count;
            stop = "submitted";
            usage = record { input_tokens = r.used_tokens; output_tokens = 0 };
          },
          none,
        ),
        b,
        w2,
      )
  unfolding run open_run
  run-submitted b w s r steps w1 w2 f l submitted stored =
      rw (l.has_store, open_run) (rw (l.loads) (rw (submitted) (rw stored refl)))

  -- A run that was under way is taken up behind its last saved step: with the messages of that step,
  -- under its own identifier, with its recorded spending added to the budget, and for the passes that
  -- `max_steps` leaves. Nothing but the load has touched the world.
  pub run-resumes :
      (b : Option Budget) (w : W) (s : AgentStore W) (r : AgentRun) (steps : List AgentStep)
      (last : AgentStep) (msgs : List Message) (w1 : W)
      → Loads s (rt.new_uuid w).1 r steps w1
      → r.status ≡ "running"
      → last? steps ≡ some last
      → rt.platform.unmarshal_messages last.messages ≡ ok msgs
      → let start = last.step_index + 1 in
        let resumed : Session W = record {
          world = w1;
          budget = restored r b;
          msgs = msgs;
          usage = no_usage;
        } in
        let (out, t) = loop rt ag task (ag.max_steps - start) r.id start start resumed in
        run rt ag task b w ≡ (out, t.budget, t.world)
  unfolding run open_run
  run-resumes b w s r steps last msgs w1 l running at_last decoded =
      rw (l.has_store, open_run) (rw (l.loads) (rw running (rw at_last (rw decoded refl))))
