-- ===== src/Budget/Shared.antt =====
-- Several agents on one budget (agent/agent.go, the loop of Run, on agent/budget.go). An agent tests
-- `Exceeded`, then calls the provider, then calls `Record`; the mutex makes each of the three atomic
-- and nothing joins them, so other agents act in between.
use contract_review_ai_agent.Common.{ℕ, zero, suc, ◌+◌, ◌≤◌, ◌<◌, ◌≡◌, refl, false, String, arith}
use contract_review_ai_agent.Budget.{Budget, record_usage, exceeded}

-- The budget, and the number of agents whose call passed the test and has not been recorded.
pub record Run : Type 0 where
  pub budget : Budget
  pub in_flight : ℕ

-- At most `agents` agents run at once (`errgroup.SetLimit`).
pub data Step (agents : ℕ) (r : Run) : Run → Type 0 where
  -- `!budget.Exceeded()`, and the call starts
  starts :
      exceeded r.budget ≡ false
      → r.in_flight < agents
      → Step agents r (record r { in_flight = suc r.in_flight })
  -- the provider answers and the agent records
  records :
      (provider model : String) (i o : ℕ) (n : ℕ)
      → r.in_flight ≡ suc n
      → Step agents r
          (record r { budget = record_usage provider model i o r.budget; in_flight = n })
  -- the provider fails, and nothing is recorded
  fails : (n : ℕ) → r.in_flight ≡ suc n → Step agents r (record r { in_flight = n })

pub data Reach (agents : ℕ) (r : Run) : Run → Type 0 where
  here : Reach agents r r
  next : {s t : Run} → Reach agents r s → Step agents s t → Reach agents r t

-- Never more calls under way than agents, and never more than `agents - 1` steps past the limit.
pub record IsBounded (agents : ℕ) (r : Run) : Type 0 where
  pub room : r.in_flight ≤ agents
  pub steps : r.budget.used_steps + r.in_flight < r.budget.max_steps + agents

Step-IsBounded :
    (agents : ℕ) {r s : Run}
    → Step agents r s
    → 0 < r.budget.max_steps
    → IsBounded agents r
    → IsBounded agents s × (s.budget.max_steps ≡ r.budget.max_steps)
unfolding exceeded record_usage
Step-IsBounded agents (starts allowed room) limit b = ground arith
Step-IsBounded agents (records provider model i o n e) limit b = ground arith
Step-IsBounded agents (fails n e) limit b = ground arith

Reach-IsBounded :
    (agents : ℕ) {r s : Run}
    → 0 < r.budget.max_steps
    → IsBounded agents r
    → Reach agents r s
    → IsBounded agents s × (s.budget.max_steps ≡ r.budget.max_steps)
Reach-IsBounded agents limit b here = (b, refl)
Reach-IsBounded agents limit b (next path st) =
    let (c, same) = Reach-IsBounded agents limit b path in
    let (d, same') = Step-IsBounded agents st (omega arith) c in (d, omega arith)

-- With a positive step limit, from a budget that is not past it and no call under way, at most
-- `agents - 1` steps beyond the limit are ever recorded, in every interleaving of the agents.
pub used_steps-lt :
    (agents : ℕ) {r s : Run}
    → 0 < agents
    → 0 < r.budget.max_steps
    → r.in_flight ≡ 0
    → r.budget.used_steps ≤ r.budget.max_steps
    → Reach agents r s
    → s.budget.used_steps < r.budget.max_steps + agents
used_steps-lt agents some_agent limit idle fits path =
    let b =
      Reach-IsBounded agents limit (record { room = omega arith; steps = omega arith }) path in
    omega (arith, b.0.steps, b.1)

Reach-trans : {agents : ℕ} {r s t : Run} → Reach agents r s → Reach agents s t → Reach agents r t
Reach-trans path here = path
Reach-trans path (next rest st) = next (Reach-trans path rest) st

-- `n` agents pass the test one after the other, before any of them records.
all_start :
    (agents n : ℕ) (b : Budget)
    → exceeded b ≡ false
    → n ≤ agents
    → Reach agents (record { budget = b; in_flight = 0 }) (record { budget = b; in_flight = n })
all_start agents zero b allowed h = here
all_start agents (suc n) b allowed h =
    next (all_start agents n b allowed (omega arith)) (starts allowed (omega arith))

-- The budget after `n` answers of one model, each of `i` and `o` tokens.
answers : String → String → ℕ → ℕ → ℕ → Budget → Budget
answers provider model i o zero b = b
answers provider model i o (suc n) b =
    answers provider model i o n (record_usage provider model i o b)

module _ (agents : ℕ) (provider model : String) (i o : ℕ) where
  all_record :
      (n : ℕ) (b : Budget)
      → Reach agents
          (record { budget = b; in_flight = n })
          (record { budget = answers provider model i o n b; in_flight = 0 })
  unfolding answers
  all_record zero b = here
  all_record (suc n) b =
      Reach-trans (next here (records provider model i o n refl))
        (all_record n (record_usage provider model i o b))

used_steps-answers :
    (provider model : String) (i o n : ℕ) (b : Budget)
    → (answers provider model i o n b).used_steps ≡ b.used_steps + n
unfolding answers record_usage
used_steps-answers provider model i o zero b = omega arith
used_steps-answers provider model i o (suc n) b =
    omega (arith, used_steps-answers provider model i o n (record_usage provider model i o b))

-- The bound is met: from any budget that is not exceeded, `agents` agents can all pass the test
-- before the first records, so a run reaches `agents` more recorded steps than the test allowed one
-- agent to take.
pub overshoot :
    (agents : ℕ) (provider model : String) (i o : ℕ) (b : Budget)
    → exceeded b ≡ false
    → (s : Run) × Reach agents (record { budget = b; in_flight = 0 }) s
      × (s.budget.used_steps ≡ b.used_steps + agents)
overshoot agents provider model i o b allowed = (
  record { budget = answers provider model i o agents b; in_flight = 0 },
  Reach-trans (all_start agents agents b allowed (omega arith))
      (all_record agents provider model i o agents b),
  used_steps-answers provider model i o agents b,
)
