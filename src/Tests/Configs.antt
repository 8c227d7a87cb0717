-- ===== src/Tests/Configs.antt =====
-- Tests of config/config.go and llm/factory.go: an environment with a database and an OpenAI key.
use contract_review_ai_agent.Common.{ℕ, String, ◌≡◌, refl, ok}
use contract_review_ai_agent.Config.{settings, new_llm, base_delay_of, positive_or, inner_llm}
use contract_review_ai_agent.Config.Keys.{IsBounded, new_llm-bounds}
use contract_review_ai_agent.Fixtures.Settings.{shell}
use contract_review_ai_agent.Llm.{Llm}
use contract_review_ai_agent.Llm.Fake.{FakeLlm, complete}
use contract_review_ai_agent.Llm.Retry.{new_retrying_llm}

abbrev new_fake : String → String → ℕ → Llm FakeLlm
new_fake key model timeout = complete

made :
    new_llm new_fake new_fake (λ s. s) (settings shell)
    ≡ ok (new_retrying_llm (new_fake "sk-1" "gpt-4o-mini") 3 500000000)
unfolding new_llm settings base_delay_of positive_or inner_llm
made = refl

new_llm-bounds_example :
    IsBounded (settings shell) (new_retrying_llm (new_fake "sk-1" "gpt-4o-mini") 3 500000000)
new_llm-bounds_example =
    new_llm-bounds (settings shell) new_fake new_fake (λ s. s)
      (new_retrying_llm (new_fake "sk-1" "gpt-4o-mini") 3 500000000) made
