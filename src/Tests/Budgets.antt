-- ===== src/Tests/Budgets.antt =====
-- Tests of agent/budget.go.
use contract_review_ai_agent.Common.{◌+◌, ◌<◌, ◌≡◌, refl, ◌↔◌, ◌⊎◌, true, List, [], ◌∷◌, arith}
use contract_review_ai_agent.Cost.{estimate}
use contract_review_ai_agent.Budget.{Budget, new_budget, record_usage, exceeded, snapshot, as_usage}
use contract_review_ai_agent.Budget.Laws.{
  IsReached, Change, recorded, restored, changes, changes-exceeded_iff, changes-exceeded,
  all_tokens, all_cost, recorded_input, recorded_output, recorded_steps, new_budget-changes,
}
use contract_review_ai_agent.Budget.Shared.{
  Run, Reach, here, next, starts, records, used_steps-lt, overshoot,
}

-- A million tokens in and a million out of gpt-4o-mini: $0.15 and $0.60
estimate_test : estimate "openai" "gpt-4o-mini" 1000000 1000000 ≡ 750000000
unfolding estimate
estimate_test = refl

unknown_model_test : estimate "openai" "gpt-5" 1000 1000 ≡ 0
unfolding estimate
unknown_model_test = refl

-- One step is allowed.
abbrev one_step : Budget
one_step = new_budget 0 0 1

abbrev history : List Change
history = recorded "openai" "gpt-4o" 10 5 ∷ restored 7 0 ∷ []

after_one : Budget
unfolding new_budget record_usage
after_one = record_usage "openai" "gpt-4o" 10 5 one_step

changes-exceeded_example : exceeded (changes history after_one) ≡ true
unfolding exceeded after_one
changes-exceeded_example = changes-exceeded history after_one refl

new_budget-changes_example :
    let s = snapshot (changes history (new_budget 100 0 0)) in
    (s.used_tokens ≡ all_tokens history)
    × (s.used_input_tokens ≡ recorded_input history)
    × (s.used_output_tokens ≡ recorded_output history)
    × (s.used_cost_usd ≡ all_cost history)
    × (s.used_steps ≡ recorded_steps history)
    × (as_usage s
        ≡ record { input_tokens = recorded_input history; output_tokens = recorded_output history })
    × (s.max_tokens ≡ 100)
    × (s.max_cost_usd ≡ 0)
    × (s.max_steps ≡ 0)
new_budget-changes_example = new_budget-changes 100 0 0 history

changes-exceeded_iff_example : (exceeded (changes history (new_budget 20 0 0)) ≡ true) ↔ (
    IsReached 20 (all_tokens history)
    ⊎ IsReached 0 (all_cost history)
    ⊎ IsReached 0 (recorded_steps history))
changes-exceeded_iff_example = changes-exceeded_iff 20 0 0 history

abbrev idle : Run
idle = record { budget = one_step; in_flight = 0 }

-- Two agents pass the test of a budget of one step, and one of them records.
abbrev both_started : Run
both_started = record { budget = one_step; in_flight = 2 }

abbrev one_recorded : Run
one_recorded = record { budget = record_usage "openai" "gpt-4o" 10 5 one_step; in_flight = 1 }

race : Reach 2 idle one_recorded
unfolding exceeded new_budget
race =
    next (next (next here (starts refl (omega arith))) (starts refl (omega arith)))
      (records "openai" "gpt-4o" 10 5 1 refl)

used_steps-lt_example : one_recorded.budget.used_steps < one_step.max_steps + 2
unfolding new_budget
used_steps-lt_example = used_steps-lt 2 (omega arith) (omega arith) refl (omega arith) race

overshoot_example : (s : Run) × Reach 3 idle s × (s.budget.used_steps ≡ one_step.used_steps + 3)
unfolding exceeded new_budget
overshoot_example = overshoot 3 "openai" "gpt-4o" 10 5 one_step refl
