-- ===== src/Pipeline/DryRun.antt =====
-- pipeline/dryrun.go: the plan that a dry run prints. `%.2f` of an amount of nanodollars is a parameter;
-- the numbers of the plan are natural numbers.
use contract_review_ai_agent.Common.{ℕ, ◌*◌, String, ◌<>◌, List, [], ◌∷◌, decimal}
use contract_review_ai_agent.Pipeline.Output.{Writer, print_all}

pub record DryRunPlan : Type 0 where
  pub contract_id : String
  pub input_chars : ℕ
  pub est_clauses : ℕ
  pub concurrency : ℕ
  pub per_agent_max_steps : ℕ
  pub budget_cap_usd : ℕ
  pub budget_cap_tokens : ℕ

unfoldable pub plan_texts : (ℕ → String) → DryRunPlan → List String
plan_texts cents p =
    ("[DRY RUN] contract_id=" <> p.contract_id <> "\n")
    ∷ ("  stage=extract_clauses  input="
        <> decimal p.input_chars
        <> " chars  expected_output=~"
        <> decimal p.est_clauses
        <> " clauses\n")
    ∷ ("  stage=analyze          clauses="
        <> decimal p.est_clauses
        <> "  concurrency="
        <> decimal p.concurrency
        <> "  agents="
        <> decimal p.est_clauses
        <> "  per_agent_max_steps="
        <> decimal p.per_agent_max_steps
        <> "\n")
    ∷ ("                         est_calls≈"
        <> decimal p.est_clauses
        <> "-"
        <> decimal (p.est_clauses * 4)
        <> "  budget_cap=$"
        <> cents p.budget_cap_usd
        <> " / "
        <> decimal p.budget_cap_tokens
        <> " tokens\n")
    ∷ ("  stage=summarize        est_input_tokens≈" <> decimal (p.est_clauses * 300) <> "\n")
    ∷ "  No LLM calls made. No DB writes made.\n"
    ∷ []

unfoldable pub print_dry_run_plan : {W : Type 0} → Writer W → (ℕ → String) → DryRunPlan → W → W
unfolding plan_texts
print_dry_run_plan write cents p = print_all write (plan_texts cents p)
