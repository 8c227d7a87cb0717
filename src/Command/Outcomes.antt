-- ===== src/Command/Outcomes.antt =====
-- What the commands of main.go come to.
use contract_review_ai_agent.Common.{
  ℕ, ◌+◌, String, ◌≡◌, sym, ap, subst, true, Option, none, some, List, [], ◌∷◌, length, ok, ◌<>◌,
  orelse, >>=-first, orelse-ok, arith,
}
use contract_review_ai_agent.Domain.{ContractStatus, review_pending, review_complete, done, Clause}
use contract_review_ai_agent.Llm.{Llm}
use contract_review_ai_agent.Store.{AgentRun, AgentStep, Store}
use contract_review_ai_agent.Store.Laws.{KeepsStatus}
use contract_review_ai_agent.Agent.State.{Runtime}
use contract_review_ai_agent.Pipeline.Summarize.{Output}
use contract_review_ai_agent.Command.Counts.{RunCounts, count_run, count_runs}
use contract_review_ai_agent.Command.Stages.{RunSettings, post_analysis, run_post_analysis}

abbrev pub total : RunCounts → ℕ
total n = n.submitted + n.running + n.failed + n.pending

count_run-total :
    (r : Option (AgentRun × List AgentStep)) (n : RunCounts) → total (count_run r n) ≡ total n + 1
unfolding count_run
count_run-total none n = omega arith
count_run-total (some (r, steps)) n = ground arith

module _ {W : Type 0} (s : Store W) where
  -- Where the count of a contract's runs ends well, the four counts together have grown by the number
  -- of clauses.
  pub count_runs-total :
      (cs : List Clause) (n m : RunCounts) (w w' : W)
      → count_runs s cs n w ≡ (ok m, w')
      → total m ≡ total n + length cs
  unfolding count_runs
  count_runs-total [] n m w w' h = let same : n ≡ m = cc in omega (arith, ap total same)
  count_runs-total (c ∷ cs) n m w w' h =
      >>=-first (total m ≡ total n + length (c ∷ cs))
        (orelse ("load agent run for clause " <> c.id) (s.load_agent_run c.id)) _ w w' m
        (λ found v read rest.
          omega
            (arith, count_runs-total cs (count_run found n) m v w' rest, count_run-total found n))
        h

-- The statuses in which a contract that a human must review is left: it waits, or it was reviewed.
pub data IsHeld : ContractStatus → Type 0 where
  waits : IsHeld review_pending
  was_reviewed : IsHeld review_complete
  was_reported : IsHeld done

module _ {W : Type 0} (s : Store W) (k : KeepsStatus s) (rt : Runtime W) (cfg : RunSettings)
    (client : Llm W) (out : Output W) (id : String) where
  abbrev Held : W → Type 0
  Held w = (st : ContractStatus) × (k.status_of w id ≡ some st) × IsHeld st

  post_analysis-Held :
      (st : ContractStatus) (w w' : W) (u : Unit {0})
      → k.status_of w id ≡ some st
      → post_analysis s rt cfg client out id true st w ≡ (ok u, w')
      → Held w'
  unfolding post_analysis
  post_analysis-Held review_pending w w' u now h =
      subst Held (ap (λ x. x.1) h) (review_pending, now, waits)
  post_analysis-Held review_complete w w' u now h =
      subst Held (ap (λ x. x.1) h) (review_complete, now, was_reviewed)
  post_analysis-Held done w w' u now h = subst Held (ap (λ x. x.1) h) (done, now, was_reported)
  post_analysis-Held st w w' u now h = (
    review_pending,
    k.writes id review_pending w w' u
        (orelse-ok "set review_pending" (s.update_contract_status id review_pending) w w' u h),
    waits,
  )

  -- Where a review is required and the step behind the analysis reports success, the contract waits
  -- for its review, or was in review_complete or done before.
  pub run_post_analysis-Held :
      (w w' : W) (u : Unit {0})
      → run_post_analysis s rt cfg client out id true w ≡ (ok u, w')
      → (st : ContractStatus) × (k.status_of w' id ≡ some st) × IsHeld st
  unfolding run_post_analysis
  run_post_analysis-Held w w' u =
      >>=-first (Held w') (orelse "get contract" (s.get_contract id)) _ w w' u λ c v read rest.
        let (same, now) =
          k.reads id w v c (orelse-ok "get contract" (s.get_contract id) w v c read) in
        post_analysis-Held c.status v w' u
          (subst (λ x. k.status_of x id ≡ some c.status) (sym same) now) rest
