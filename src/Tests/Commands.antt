-- ===== src/Tests/Commands.antt =====
-- Tests of main.go over the store in memory.
use contract_review_ai_agent.Common.{◌+◌, ◌≡◌, refl, some, [], ◌∷◌, ok, true, lookup, insert}
use contract_review_ai_agent.Domain.{ContractStatus, analyzed}
use contract_review_ai_agent.Store.Fake.{fake_store}
use contract_review_ai_agent.Store.Fake.Status.{fake_store-KeepsStatus}
use contract_review_ai_agent.Domain.{review_pending}
use contract_review_ai_agent.Command.Counts.{no_runs, count_runs}
use contract_review_ai_agent.Command.Stages.{post_analysis, run_post_analysis}
use contract_review_ai_agent.Command.Outcomes.{
  total, count_runs-total, IsHeld, run_post_analysis-Held,
}
use contract_review_ai_agent.Fixtures.Contracts.{
  clause, holding, model, run_time, run_settings, output,
}

one_pending :
    count_runs fake_store (clause ∷ []) no_runs (holding analyzed)
    ≡ (ok (record no_runs { pending = 1 }), holding analyzed)
unfolding count_runs fake_store
one_pending = refl

count_runs-total_example : total (record no_runs { pending = 1 }) ≡ total no_runs + 1
count_runs-total_example =
    count_runs-total fake_store (clause ∷ []) no_runs (record no_runs { pending = 1 })
      (holding analyzed) (holding analyzed) one_pending

held :
    run_post_analysis fake_store run_time run_settings model output "c1" true (holding analyzed)
    ≡ (ok tt, holding review_pending)
unfolding run_post_analysis fake_store lookup insert post_analysis
held = refl

run_post_analysis-Held_example :
    (st : ContractStatus) × (fake_store-KeepsStatus.status_of (holding review_pending) "c1"
      ≡ some st)
    × IsHeld st
run_post_analysis-Held_example =
    run_post_analysis-Held fake_store fake_store-KeepsStatus run_time run_settings model output "c1"
      (holding analyzed) (holding review_pending) tt held
