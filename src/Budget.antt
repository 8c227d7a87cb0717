-- ===== src/Budget.antt =====
-- agent/budget.go: the budget that every agent of a run shares. Each method holds the mutex for its
-- whole body, so a method is one step on the record. Dollar amounts are nanodollars (Cost); a limit
-- is read only behind `> 0`, so a negative one is 0 here.
pub mod Laws
pub mod Shared
use contract_review_ai_agent.Common.{ℕ, ◌+◌, String, Bool, ◌&&◌, ◌||◌, ltb, leb}
use contract_review_ai_agent.Cost.{estimate}

pub record Usage : Type 0 where
  pub input_tokens : ℕ
  pub output_tokens : ℕ

pub record Budget : Type 0 where
  pub max_tokens : ℕ
  pub max_cost_usd : ℕ
  pub max_steps : ℕ
  pub used_tokens : ℕ
  pub used_input_tokens : ℕ
  pub used_output_tokens : ℕ
  pub used_cost_usd : ℕ
  pub used_steps : ℕ

unfoldable pub new_budget : ℕ → ℕ → ℕ → Budget
new_budget max_tokens max_cost_usd max_steps = record {
  max_tokens = max_tokens;
  max_cost_usd = max_cost_usd;
  max_steps = max_steps;
  used_tokens = 0;
  used_input_tokens = 0;
  used_output_tokens = 0;
  used_cost_usd = 0;
  used_steps = 0;
}

-- `Record`, after a response of the provider
unfoldable pub record_usage : String → String → ℕ → ℕ → Budget → Budget
record_usage provider model i o b = record b {
  used_tokens = b.used_tokens + (i + o);
  used_input_tokens = b.used_input_tokens + i;
  used_output_tokens = b.used_output_tokens + o;
  used_cost_usd = b.used_cost_usd + estimate provider model i o;
  used_steps = b.used_steps + 1;
}

-- One of the three tests of `Exceeded`
abbrev pub reached : ℕ → ℕ → Bool
reached limit used = ltb 0 limit && leb limit used

unfoldable pub exceeded : Budget → Bool
exceeded b =
    reached b.max_tokens b.used_tokens
    || reached b.max_cost_usd b.used_cost_usd
    || reached b.max_steps b.used_steps

unfoldable pub restore_tokens : ℕ → ℕ → Budget → Budget
restore_tokens used_tokens used_cost_usd b = record b {
  used_tokens = b.used_tokens + used_tokens;
  used_cost_usd = b.used_cost_usd + used_cost_usd;
}

pub record BudgetSnapshot : Type 0 where
  pub used_tokens : ℕ
  pub used_input_tokens : ℕ
  pub used_output_tokens : ℕ
  pub used_cost_usd : ℕ
  pub used_steps : ℕ
  pub max_tokens : ℕ
  pub max_cost_usd : ℕ
  pub max_steps : ℕ

unfoldable pub snapshot : Budget → BudgetSnapshot
snapshot b = record {
  used_tokens = b.used_tokens;
  used_input_tokens = b.used_input_tokens;
  used_output_tokens = b.used_output_tokens;
  used_cost_usd = b.used_cost_usd;
  used_steps = b.used_steps;
  max_tokens = b.max_tokens;
  max_cost_usd = b.max_cost_usd;
  max_steps = b.max_steps;
}

unfoldable pub as_usage : BudgetSnapshot → Usage
as_usage s = record { input_tokens = s.used_input_tokens; output_tokens = s.used_output_tokens }
