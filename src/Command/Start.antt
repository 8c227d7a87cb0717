-- ===== src/Command/Start.antt =====
-- main.go: the set-up of `main`, in front of its arguments. The environment is that behind godotenv; the
-- pool, the SDKs' clients and the floating-point numbers are parameters.
pub mod Keyed
use contract_review_ai_agent.Common.{ℕ, ℤ, pos, negsuc, String, List, Result, ok, err, Go}
use contract_review_ai_agent.Config.{Config, Environment, load, new_llm}
use contract_review_ai_agent.Llm.{Llm}
use contract_review_ai_agent.Llm.Retry.{Clock, RetryingLlm, complete}
use contract_review_ai_agent.Store.Queries.{Queries}
use contract_review_ai_agent.Store.Postgres.{new_pool, postgres_store}
use contract_review_ai_agent.Agent.State.{Runtime}
use contract_review_ai_agent.Pipeline.Summarize.{Output}
use contract_review_ai_agent.Command.Stages.{RunSettings}
use contract_review_ai_agent.Command.Dispatch.{
  Ending, finished, failed, exits, panics, waits, Outside, main_with,
}

-- What the set-up takes from outside
pub record Services (F W Pool : Type 0) : Type 0 where
  pub connect : String → Go W Pool
  pub ping : Pool → Go W (Unit {0})
  pub close : Pool → W → W
  pub queries : Pool → Queries W
  pub new_openai : String → String → ℕ → Llm W
  pub new_anthropic : String → String → ℕ → Llm W
  pub clock : Clock W
  -- a number as hundredths, and as nanodollars
  pub hundredths : F → ℕ
  pub nanodollars : F → ℕ
  -- the output of a report, given its token budget
  pub output : ℕ → Output W

-- A negative window or budget is read as 0: the tests that read it take both alike.
not_negative : ℤ → ℕ
not_negative (pos n) = n
not_negative (negsuc n) = 0

module _ {F W Pool : Type 0} (env : Environment F) (out : Services F W Pool) (rt : Runtime W)
    (world : Outside W) (args : List String) where
  settings_of : Config F → RunSettings
  unfolding not_negative
  settings_of cfg = record {
    llm_provider = cfg.llm_provider;
    llm_model = cfg.llm_model;
    context_window = not_negative cfg.context_window;
    compact_ratio = out.hundredths cfg.compact_ratio;
    keep_recent = cfg.keep_recent;
    run_max_tokens = not_negative cfg.run_max_tokens;
    run_max_cost_usd = out.nanodollars cfg.run_max_cost_usd;
    run_max_steps = not_negative cfg.run_max_steps;
    analysis_concurrency = not_negative cfg.analysis_concurrency;
  }

  -- The pool is closed where `main` returns or panics; os.Exit leaves it open.
  closed : Pool → Ending × W → Ending × W
  closed pool (finished, w) = (finished, out.close pool w)
  closed pool (panics, w) = (panics, out.close pool w)
  closed pool (failed e, w) = (failed e, w)
  closed pool (exits status, w) = (exits status, w)
  closed pool (waits, w) = (waits, w)

  with_client : Config F → Pool → Result (RetryingLlm W) → W → Ending × W
  unfolding settings_of closed
  with_client cfg pool (err e) w = (failed e, w)
  with_client cfg pool (ok client) w = closed pool (
      main_with (postgres_store (out.queries pool) rt.new_uuid) rt (settings_of cfg)
        (complete out.clock client) (out.output (not_negative cfg.summary_clause_token_budget))
        world args w)

  connected : Config F → Result Pool × W → Ending × W
  unfolding with_client
  connected cfg (err e, w) = (failed e, w)
  connected cfg (ok pool, w) =
      with_client cfg pool (new_llm out.new_openai out.new_anthropic rt.platform.quote cfg) w

  configured : Result (Config F) → W → Ending × W
  unfolding connected
  configured (err e) w = (failed e, w)
  configured (ok cfg) w = connected cfg (new_pool out.connect out.ping out.close cfg.database_url w)

  -- The whole program
  unfoldable pub main : W → Ending × W
  unfolding configured
  main w = configured (load env) w
