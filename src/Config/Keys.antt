-- ===== src/Config/Keys.antt =====
-- What config/config.go and llm/factory.go give to the rest of the program.
use contract_review_ai_agent.Common.{
  ℕ, ℤ, zero, suc, pos, negsuc, Result, err, ◌^◌, ◌<◌, String, ◌≡◌, ◌≢◌, ◌⊎◌, inl, inr, refl,
  Bool-cases, List, [], ◌∷◌, ok, str_eq, eq_iff, arith, sym, ◌++◌, true, false, subst,
  if◌then◌else◌,
}
use contract_review_ai_agent.Llm.{Llm}
use contract_review_ai_agent.Llm.Retry.{RetryingLlm, new_retrying_llm}
use contract_review_ai_agent.Config.{
  Config, Environment, load, loaded, settings, missing_vars, missing_if_empty, provider_name,
  key_for, inner_llm, with_retries, new_llm, positive_or, base_delay_of,
}

-- The provider is one of the two, and its key is there.
pub HasKey : {F : Type 0} → Config F → Type 0
HasKey cfg =
    ((cfg.llm_provider ≡ "openai") × (cfg.openai_api_key ≢ ""))
    ⊎ ((cfg.llm_provider ≡ "anthropic") × (cfg.anthropic_api_key ≢ ""))

-- What a retrying client was built with: a number of retries above 0, the set one where that is
-- positive; and a base delay above 0 that is an int64.
abbrev pub IsBounded : {F W : Type 0} → Config F → RetryingLlm W → Type 0
IsBounded cfg client =
    (0 < client.max_retries)
    × ((n : ℕ) → cfg.llm_max_retries ≡ pos (suc n) → client.max_retries ≡ suc n)
    × (0 < client.base_delay)
    × (client.base_delay < 2 ^ 63)

positive_or_bounds :
    (z : ℤ) → (0 < positive_or z 3) × ((n : ℕ) → z ≡ pos (suc n) → positive_or z 3 ≡ suc n)
unfolding positive_or
positive_or_bounds (pos zero) = (omega arith, λ n h. absurd cc)
positive_or_bounds (pos (suc m)) = (omega arith, λ n h. cc)
positive_or_bounds (negsuc m) = (omega arith, λ n h. absurd cc)

base_delay_of_bounds : (ms : ℤ) → (0 < base_delay_of ms) × (base_delay_of ms < 2 ^ 63)
unfolding base_delay_of
base_delay_of_bounds ms = (ground arith, ground arith)

module _ {F W : Type 0} (cfg : Config F) where
  with_retries-IsBounded :
      (new_openai new_anthropic : String → String → ℕ → Llm W) (quote : String → String)
      (client : RetryingLlm W) (inner : Result (ℕ → Llm W))
      → with_retries new_openai new_anthropic quote cfg inner ≡ ok client
      → IsBounded cfg client
  unfolding with_retries new_retrying_llm
  with_retries-IsBounded new_openai new_anthropic quote client (err e) h = absurd cc
  with_retries-IsBounded new_openai new_anthropic quote client (ok inner) h =
      let (many, set) = positive_or_bounds cfg.llm_max_retries in
      let (some_wait, short) = base_delay_of_bounds cfg.llm_retry_base_ms in
      let same : new_retrying_llm inner (positive_or cfg.llm_max_retries 3)
            (base_delay_of cfg.llm_retry_base_ms)
          ≡ client =
        cc in
      subst (IsBounded cfg) same (many, set, some_wait, short)

  -- Whatever the settings, a client that the factory makes retries at least once, and as often as is set
  -- where that is positive; its base delay is above 0 and fits an int64, so that `rand.Int63n` is never
  -- asked for a number below 0 or 1.
  pub new_llm-bounds :
      (new_openai new_anthropic : String → String → ℕ → Llm W) (quote : String → String)
      (client : RetryingLlm W)
      → new_llm new_openai new_anthropic quote cfg ≡ ok client
      → IsBounded cfg client
  unfolding new_llm
  new_llm-bounds new_openai new_anthropic quote client =
      with_retries-IsBounded new_openai new_anthropic quote client
        (inner_llm new_openai new_anthropic quote cfg)

module _ {F : Type 0} (env : Environment F) where
  loaded-settings :
      (vs : List String) (cfg : Config F)
      → loaded env vs ≡ ok cfg
      → (vs ≡ []) × (cfg ≡ settings env)
  unfolding loaded
  loaded-settings [] cfg h = (refl, cc)
  loaded-settings (v ∷ vs) cfg h = absurd cc

-- The key that stands with the provider's name is there, if nothing is missing.
key-there :
    (db provider openai anthropic : String)
    → missing_if_empty "DATABASE_URL" db
        ++ (if str_eq provider "openai"
            then missing_if_empty "OPENAI_API_KEY" openai
            else if str_eq provider "anthropic"
            then missing_if_empty "ANTHROPIC_API_KEY" anthropic
            else [])
      ≡ []
    → (str_eq provider "openai" ≡ true → key_for provider "openai" openai ≢ "")
      × (str_eq provider "openai" ≡ false
          → str_eq provider "anthropic" ≡ true
          → key_for provider "anthropic" anthropic ≢ "")
unfolding missing_if_empty key_for
key-there db provider openai anthropic h = (
  λ a e. ground (arith, eq_iff openai "", eq_iff db ""),
  λ a b e. ground (arith, eq_iff anthropic "", eq_iff db ""),
)

-- A provider of another name is refused.
new_llm-unknown :
    {F W : Type 0} (new_openai new_anthropic : String → String → ℕ → Llm W)
    (quote : String → String) (cfg : Config F) (client : RetryingLlm W)
    → str_eq cfg.llm_provider "openai" ≡ false
    → str_eq cfg.llm_provider "anthropic" ≡ false
    → ¬ (new_llm new_openai new_anthropic quote cfg ≡ ok client)
unfolding new_llm inner_llm with_retries
new_llm-unknown new_openai new_anthropic quote cfg client f1 f2 =
    rw (f1, inner_llm) (rw (f2, inner_llm) (λ e. cc))

module _ {F W : Type 0} (env : Environment F)
    (new_openai new_anthropic : String → String → ℕ → Llm W) (quote : String → String) where
  settings-HasKey :
      (client : RetryingLlm W)
      → missing_vars env ≡ []
      → new_llm new_openai new_anthropic quote (settings env) ≡ ok client
      → HasKey (settings env)
  unfolding missing_vars new_llm inner_llm with_retries HasKey settings
  settings-HasKey client full made =
      let keys =
        key-there (env.getenv "DATABASE_URL") (provider_name env) (env.getenv "OPENAI_API_KEY")
          (env.getenv "ANTHROPIC_API_KEY") full in
      elim (Bool-cases (str_eq (provider_name env) "openai")) [
        | inl is_openai ↦
            inl (ground (arith, eq_iff (provider_name env) "openai"), keys.0 is_openai)
        | inr other ↦ elim (Bool-cases (str_eq (provider_name env) "anthropic")) [
          | inl is_anthropic ↦
              inr
                (ground (arith, eq_iff (provider_name env) "anthropic"), keys.1 other is_anthropic)
          | inr unknown ↦ absurd (
              new_llm-unknown new_openai new_anthropic quote (settings env) client other unknown
                made)
        ]
      ]

  -- Where the settings load and the factory makes a client of them, the provider is one of the two
  -- that the program knows and its key is not empty.
  pub load-HasKey :
      (cfg : Config F) (client : RetryingLlm W)
      → load env ≡ ok cfg
      → new_llm new_openai new_anthropic quote cfg ≡ ok client
      → HasKey cfg
  unfolding load
  load-HasKey cfg client h made =
      let (full, same) = loaded-settings env (missing_vars env) cfg h in
      subst HasKey (sym same) (
        settings-HasKey client full
          (subst (λ c. new_llm new_openai new_anthropic quote c ≡ ok client) same made))
