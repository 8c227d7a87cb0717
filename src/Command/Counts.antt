-- ===== src/Command/Counts.antt =====
-- main.go: what `status` counts. The printed lines are left out.
use contract_review_ai_agent.Common.{
  ℕ, ◌+◌, String, ◌<>◌, Option, none, some, List, [], ◌∷◌, Go, pure, ◌>>=◌, orelse, str_eq,
  if◌then◌else◌,
}
use contract_review_ai_agent.Domain.{Clause}
use contract_review_ai_agent.Store.{AgentRun, AgentStep, Store}

-- What `runStatus` counts
pub record RunCounts : Type 0 where
  pub submitted : ℕ
  pub running : ℕ
  pub failed : ℕ
  pub pending : ℕ

abbrev pub no_runs : RunCounts
no_runs = record { submitted = 0; running = 0; failed = 0; pending = 0 }

unfoldable pub count_run : Option (AgentRun × List AgentStep) → RunCounts → RunCounts
count_run none n = record n { pending = n.pending + 1 }
count_run (some (r, steps)) n =
    if str_eq r.status "submitted"
    then record n { submitted = n.submitted + 1 }
    else if str_eq r.status "running"
    then record n { running = n.running + 1 }
    else record n { failed = n.failed + 1 }

module _ {W : Type 0} (s : Store W) where
  unfoldable pub count_runs : List Clause → RunCounts → Go W RunCounts
  unfolding count_run
  count_runs [] n = pure n
  count_runs (c ∷ cs) n = do
    found ← orelse ("load agent run for clause " <> c.id) (s.load_agent_run c.id)
    count_runs cs (count_run found n)

  unfoldable pub run_status : String → Go W RunCounts
  unfolding count_runs
  run_status id = do
    contract ← orelse "get contract" (s.get_contract id)
    clauses ← orelse "get clauses" (s.get_clauses id)
    count_runs clauses no_runs
