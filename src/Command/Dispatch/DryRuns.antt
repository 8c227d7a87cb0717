-- ===== src/Command/Dispatch/DryRuns.antt =====
-- The dry run of main.go.
use contract_review_ai_agent.Common.{String, ◌≡◌, refl, ◌∙◌, true, List, ◌∷◌, Result, ok, err}
use contract_review_ai_agent.Domain.{Contract}
use contract_review_ai_agent.Llm.{Llm}
use contract_review_ai_agent.Store.{Store}
use contract_review_ai_agent.Agent.State.{Runtime}
use contract_review_ai_agent.Pipeline.Summarize.{Output}
use contract_review_ai_agent.Pipeline.Output.{Writer}
use contract_review_ai_agent.Pipeline.Output.Stops.{print_all-view}
use contract_review_ai_agent.Pipeline.DryRun.{print_dry_run_plan}
use contract_review_ai_agent.Command.Stages.{RunSettings}
use contract_review_ai_agent.Command.Dispatch.{
  Outside, take_dry_run, given_argument, dry_run_found, analyze, run_command, chosen, main_with,
}

-- A view of the world that two reads of the store and the writes to standard output leave as it is: the
-- rows of the database, or the calls that the provider has had.
pub record IsUntouched {W D : Type 0} (view : W → D) (s : Store W) (write : Writer W) : Type 0 where
  pub get_contract : (id : String) (w : W) → view ((s.get_contract id w).1) ≡ view w
  pub get_clauses : (id : String) (w : W) → view ((s.get_clauses id w).1) ≡ view w
  pub stdout : (text : String) (w : W) → view ((write text w).1) ≡ view w

module _ {W D : Type 0} (view : W → D) (s : Store W) (rt : Runtime W) (cfg : RunSettings)
    (client : Llm W) (out : Output W) (world : Outside W)
    (u : IsUntouched view s world.stdout) where
  dry_run_found-view :
      (id : String) (r : Result Contract) (w : W)
      → view ((dry_run_found s rt cfg client out world id (r, w)).1) ≡ view w
  unfolding dry_run_found print_dry_run_plan
  dry_run_found-view id (err e) w = refl
  dry_run_found-view id (ok contract) w =
      print_all-view view world.stdout u.stdout _ _ ∙ u.get_clauses id w

  -- Where the arguments hold the flag for a dry run and the rest of them begin with `analyze` and a
  -- contract, the program leaves every view that two reads of the store and the writes to standard output
  -- leave: it makes no other call on the store, and none on the provider.
  pub main_with-view :
      (args : List String) (id : String) (rest : List String) (w : W)
      → take_dry_run args ≡ (true, "analyze" ∷ id ∷ rest)
      → view ((main_with s rt cfg client out world args w).1) ≡ view w
  unfolding main_with chosen run_command given_argument analyze
  main_with-view args id rest w flagged = rw flagged (
      dry_run_found-view id ((s.get_contract id w).0) ((s.get_contract id w).1)
      ∙ u.get_contract id w)
