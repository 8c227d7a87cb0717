-- ===== src/Budget/Laws.antt =====
-- What the methods of agent/budget.go promise of one budget.
use contract_review_ai_agent.Common.{
  ℕ, suc, ◌+◌, ◌≤◌, ◌<◌, ◌≡◌, refl, ◌↔◌, ◌⊎◌, true, String, List, [], ◌∷◌, arith,
}
use contract_review_ai_agent.Cost.{estimate}
use contract_review_ai_agent.Budget.{
  Budget, new_budget, record_usage, exceeded, restore_tokens, snapshot, as_usage,
}

-- A change of the budget: what the agents do to it between two tests.
pub data Change : Type 0 where
  recorded : String → String → ℕ → ℕ → Change
  restored : ℕ → ℕ → Change

unfoldable pub change : Change → Budget → Budget
change (recorded provider model i o) b = record_usage provider model i o b
change (restored used_tokens used_cost_usd) b = restore_tokens used_tokens used_cost_usd b

unfoldable pub changes : List Change → Budget → Budget
unfolding change
changes [] b = b
changes (c ∷ cs) b = changes cs (change c b)

change-exceeded : (c : Change) (b : Budget) → exceeded b ≡ true → exceeded (change c b) ≡ true
unfolding change exceeded record_usage restore_tokens
change-exceeded (recorded provider model i o) b h = ground arith
change-exceeded (restored used_tokens used_cost_usd) b h = ground arith

-- Once the budget is exceeded it stays so, whatever the agents record or restore afterwards.
pub changes-exceeded :
    (cs : List Change) (b : Budget) → exceeded b ≡ true → exceeded (changes cs b) ≡ true
unfolding changes
changes-exceeded [] b h = h
changes-exceeded (c ∷ cs) b h = changes-exceeded cs (change c b) (change-exceeded c b h)

-- What a history records: the tokens of the requests, those of the answers, the cost by the list of
-- prices, and the steps.
abbrev pub recorded_input : List Change → ℕ
recorded_input [] = 0
recorded_input (recorded _ _ i o ∷ cs) = i + recorded_input cs
recorded_input (restored _ _ ∷ cs) = recorded_input cs

abbrev pub recorded_output : List Change → ℕ
recorded_output [] = 0
recorded_output (recorded _ _ i o ∷ cs) = o + recorded_output cs
recorded_output (restored _ _ ∷ cs) = recorded_output cs

abbrev pub recorded_cost : List Change → ℕ
recorded_cost [] = 0
recorded_cost (recorded provider model i o ∷ cs) = estimate provider model i o + recorded_cost cs
recorded_cost (restored _ _ ∷ cs) = recorded_cost cs

abbrev pub recorded_steps : List Change → ℕ
recorded_steps [] = 0
recorded_steps (recorded _ _ _ _ ∷ cs) = suc (recorded_steps cs)
recorded_steps (restored _ _ ∷ cs) = recorded_steps cs

-- What a history restores.
abbrev pub restored_tokens : List Change → ℕ
restored_tokens [] = 0
restored_tokens (recorded _ _ _ _ ∷ cs) = restored_tokens cs
restored_tokens (restored t _ ∷ cs) = t + restored_tokens cs

abbrev pub restored_cost : List Change → ℕ
restored_cost [] = 0
restored_cost (recorded _ _ _ _ ∷ cs) = restored_cost cs
restored_cost (restored _ d ∷ cs) = d + restored_cost cs

abbrev pub all_tokens : List Change → ℕ
all_tokens cs = recorded_input cs + recorded_output cs + restored_tokens cs

abbrev pub all_cost : List Change → ℕ
all_cost cs = recorded_cost cs + restored_cost cs

-- `c` is `b` with the sums of the history added to its totals, and with its limits.
pub record Totals (b c : Budget) (cs : List Change) : Type 0 where
  pub tokens : c.used_tokens ≡ b.used_tokens + all_tokens cs
  pub input : c.used_input_tokens ≡ b.used_input_tokens + recorded_input cs
  pub output : c.used_output_tokens ≡ b.used_output_tokens + recorded_output cs
  pub cost : c.used_cost_usd ≡ b.used_cost_usd + all_cost cs
  pub steps : c.used_steps ≡ b.used_steps + recorded_steps cs
  pub limits :
      (c.max_tokens ≡ b.max_tokens)
      × (c.max_cost_usd ≡ b.max_cost_usd)
      × (c.max_steps ≡ b.max_steps)

changes-Totals : (cs : List Change) (b : Budget) → Totals b (changes cs b) cs
unfolding changes record_usage restore_tokens
changes-Totals [] b = record {
  tokens = omega arith;
  input = omega arith;
  output = omega arith;
  cost = omega arith;
  steps = omega arith;
  limits = (refl, refl, refl);
}
changes-Totals (recorded provider model i o ∷ cs) b =
    let t = changes-Totals cs (record_usage provider model i o b) in
    record {
      tokens = omega (arith, t.tokens);
      input = omega (arith, t.input);
      output = omega (arith, t.output);
      cost = omega (arith, t.cost);
      steps = omega (arith, t.steps);
      limits = t.limits;
    }
changes-Totals (restored used_tokens used_cost_usd ∷ cs) b =
    let t = changes-Totals cs (restore_tokens used_tokens used_cost_usd b) in
    record {
      tokens = omega (arith, t.tokens);
      input = omega (arith, t.input);
      output = omega (arith, t.output);
      cost = omega (arith, t.cost);
      steps = omega (arith, t.steps);
      limits = t.limits;
    }

-- After any history of a new budget its snapshot shows the sums of that history: the tokens of the
-- requests and those of the answers, each once in its own total and once in the total of both; the cost
-- of each record by the list of prices; one step for each record. Restored tokens and cost enter only
-- the total of tokens and that of the cost. The limits are those the budget was made with.
pub new_budget-changes :
    (mt mc ms : ℕ) (cs : List Change)
    → let s = snapshot (changes cs (new_budget mt mc ms)) in
      (s.used_tokens ≡ all_tokens cs)
      × (s.used_input_tokens ≡ recorded_input cs)
      × (s.used_output_tokens ≡ recorded_output cs)
      × (s.used_cost_usd ≡ all_cost cs)
      × (s.used_steps ≡ recorded_steps cs)
      × (as_usage s
          ≡ record { input_tokens = recorded_input cs; output_tokens = recorded_output cs })
      × (s.max_tokens ≡ mt)
      × (s.max_cost_usd ≡ mc)
      × (s.max_steps ≡ ms)
unfolding new_budget snapshot as_usage
new_budget-changes mt mc ms cs =
    let t = changes-Totals cs (new_budget mt mc ms) in
    let input : (changes cs (new_budget mt mc ms)).used_input_tokens ≡ recorded_input cs =
      omega (arith, t.input) in
    let output : (changes cs (new_budget mt mc ms)).used_output_tokens ≡ recorded_output cs =
      omega (arith, t.output) in
    (
      omega (arith, t.tokens),
      input,
      output,
      omega (arith, t.cost),
      omega (arith, t.steps),
      rw (input, output) refl,
      t.limits.0,
      t.limits.1,
      t.limits.2,
    )

-- A limit that is in force and has been reached.
abbrev pub IsReached : ℕ → ℕ → Type 0
IsReached limit used = (0 < limit) × (limit ≤ used)

-- Behind any history a new budget is exceeded exactly when one of its positive limits is reached by the
-- sum of what that history recorded and restored: its tokens, its cost or its steps.
pub changes-exceeded_iff :
    (mt mc ms : ℕ) (cs : List Change)
    → (exceeded (changes cs (new_budget mt mc ms)) ≡ true) ↔ (
        IsReached mt (all_tokens cs)
        ⊎ IsReached mc (all_cost cs)
        ⊎ IsReached ms (recorded_steps cs))
unfolding exceeded new_budget
changes-exceeded_iff mt mc ms cs =
    let t = changes-Totals cs (new_budget mt mc ms) in
    rw (t.tokens, t.cost, t.steps, t.limits.0, t.limits.1, t.limits.2) (ground arith)
