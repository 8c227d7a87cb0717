-- ===== src/Config.antt =====
-- config/config.go and llm/factory.go: the settings from the environment, and the provider that they
-- choose. The environment, strconv's parsers and the clients of the two providers are parameters; a
-- float is a type of its own, with the literals of the source by their text.
pub mod Keys
use contract_review_ai_agent.Common.{
  ℕ, zero, suc, ◌+◌, ◌-◌, ◌*◌, ◌%◌, ◌^◌, ℤ, pos, negsuc, String, ◌<>◌, ◌||◌, ltb, leb, ◌==◌, Option,
  none, some, List, [], ◌∷◌, ◌++◌, Result, ok, err, plain, str_eq, if◌then◌else◌,
}
use contract_review_ai_agent.Llm.{Llm}
use contract_review_ai_agent.Llm.Retry.{RetryingLlm, new_retrying_llm}

pub record Config (F : Type 0) : Type 0 where
  pub openai_api_key : String
  pub anthropic_api_key : String
  pub database_url : String
  pub log_level : String
  pub llm_provider : String
  pub llm_model : String
  pub llm_temperature : F
  pub context_window : ℤ
  pub compact_ratio : F
  pub keep_recent : ℤ
  pub agent_max_tokens : ℤ
  pub agent_max_cost_usd : F
  pub run_max_tokens : ℤ
  pub run_max_cost_usd : F
  pub run_max_steps : ℤ
  pub analysis_concurrency : ℤ
  pub llm_max_retries : ℤ
  pub llm_retry_base_ms : ℤ
  pub summary_clause_token_budget : ℤ

pub record Environment (F : Type 0) : Type 0 where
  -- `os.Getenv`: the empty text for a variable that is not set
  pub getenv : String → String
  -- `strconv.Atoi`, `strconv.ParseFloat`, and a literal of the source
  pub atoi : String → Option ℤ
  pub parse_float : String → Option F
  pub literal : String → F

abbrev text_or : String → String → String
text_or s default = if str_eq s "" then default else s

-- A number that does not parse leaves the default.
abbrev parsed_or : {A : Type 0} → Option A → A → A
parsed_or none default = default
parsed_or (some v) default = v

missing_names : List String → String
missing_names [] = ""
missing_names (v ∷ []) = v
missing_names (v ∷ u ∷ vs) = v <> ", " <> missing_names (u ∷ vs)

unfoldable pub missing_if_empty : String → String → List String
missing_if_empty name value = if str_eq value "" then name ∷ [] else []

unfoldable pub key_for : String → String → String → String
key_for provider wanted key = if str_eq provider wanted then key else ""

module _ {F : Type 0} (env : Environment F) where
  unfoldable pub provider_name : String
  provider_name = text_or (env.getenv "LLM_PROVIDER") "openai"

  unfoldable pub missing_vars : List String
  unfolding missing_if_empty provider_name
  missing_vars =
      missing_if_empty "DATABASE_URL" (env.getenv "DATABASE_URL")
      ++ (if str_eq provider_name "openai"
          then missing_if_empty "OPENAI_API_KEY" (env.getenv "OPENAI_API_KEY")
          else if str_eq provider_name "anthropic"
          then missing_if_empty "ANTHROPIC_API_KEY" (env.getenv "ANTHROPIC_API_KEY")
          else [])

  int_or : String → ℕ → ℤ
  int_or name default =
      let s = env.getenv name in
      if str_eq s "" then pos default else parsed_or (env.atoi s) (pos default)

  float_or : String → String → F
  float_or name default =
      let s = env.getenv name in
      if str_eq s ""
      then env.literal default
      else parsed_or (env.parse_float s) (env.literal default)

  unfoldable pub settings : Config F
  unfolding key_for provider_name int_or float_or
  settings = record {
    openai_api_key = key_for provider_name "openai" (env.getenv "OPENAI_API_KEY");
    anthropic_api_key = key_for provider_name "anthropic" (env.getenv "ANTHROPIC_API_KEY");
    database_url = env.getenv "DATABASE_URL";
    log_level = text_or (env.getenv "LOG_LEVEL") "info";
    llm_provider = provider_name;
    llm_model = text_or (env.getenv "LLM_MODEL") "gpt-4o-mini";
    llm_temperature = float_or "LLM_TEMPERATURE" "0.2";
    context_window = int_or "AGENT_CONTEXT_WINDOW" 100000;
    compact_ratio = float_or "AGENT_COMPACT_RATIO" "0.8";
    keep_recent = int_or "AGENT_KEEP_RECENT" 4;
    agent_max_tokens = int_or "AGENT_MAX_TOKENS" 50000;
    agent_max_cost_usd = float_or "AGENT_MAX_COST_USD" "0.50";
    run_max_tokens = int_or "RUN_MAX_TOKENS" 2000000;
    run_max_cost_usd = float_or "RUN_MAX_COST_USD" "5.00";
    run_max_steps = int_or "RUN_MAX_STEPS" 10000;
    analysis_concurrency = int_or "ANALYSIS_CONCURRENCY" 5;
    llm_max_retries = int_or "LLM_MAX_RETRIES" 3;
    llm_retry_base_ms = int_or "LLM_RETRY_BASE_MS" 500;
    summary_clause_token_budget = int_or "SUMMARY_CLAUSE_TOKEN_BUDGET" 200;
  }

  loaded : List String → Result (Config F)
  unfolding settings missing_names
  loaded [] = ok settings
  loaded (v ∷ vs) = err (plain ("missing required env vars: " <> missing_names (v ∷ vs)))

  unfoldable pub load : Result (Config F)
  unfolding loaded missing_vars
  load = loaded missing_vars

-- `New` of llm/factory.go: a count that is not positive gives way to the default.
unfoldable pub positive_or : ℤ → ℕ → ℕ
positive_or (pos zero) default = default
positive_or (pos (suc n)) default = suc n
positive_or (negsuc n) default = default

-- `time.Duration(ms) * time.Millisecond` as an int64's bits
unfoldable pub milliseconds : ℤ → ℕ
milliseconds (pos n) = n * 1000000 % 2 ^ 64
milliseconds (negsuc n) = (2 ^ 64 - suc n * 1000000 % 2 ^ 64) % 2 ^ 64

unfoldable pub base_delay_of : ℤ → ℕ
unfolding milliseconds
base_delay_of ms = let d = milliseconds ms in if d == 0 || leb (2 ^ 63) d then 500000000 else d

module _ {F W : Type 0} (new_openai new_anthropic : String → String → ℕ → Llm W)
    (quote : String → String) where
  unfoldable pub inner_llm : Config F → Result (ℕ → Llm W)
  inner_llm cfg =
      if str_eq cfg.llm_provider "openai"
      then ok (new_openai cfg.openai_api_key cfg.llm_model)
      else if str_eq cfg.llm_provider "anthropic"
      then ok (new_anthropic cfg.anthropic_api_key cfg.llm_model)
      else err (plain ("unknown LLM provider: " <> quote cfg.llm_provider))

  with_retries : Config F → Result (ℕ → Llm W) → Result (RetryingLlm W)
  unfolding positive_or base_delay_of
  with_retries cfg (err e) = err e
  with_retries cfg (ok inner) = ok (
      new_retrying_llm inner (positive_or cfg.llm_max_retries 3)
        (base_delay_of cfg.llm_retry_base_ms))

  unfoldable pub new_llm : Config F → Result (RetryingLlm W)
  unfolding inner_llm with_retries
  new_llm cfg = with_retries cfg (inner_llm cfg)
