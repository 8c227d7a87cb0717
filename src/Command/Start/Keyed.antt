-- ===== src/Command/Start/Keyed.antt =====
-- What the set-up of main.go asks of the settings.
use contract_review_ai_agent.Common.{
  String, ◌≡◌, refl, List, Result, ok, err, Result-cases, inl, inr,
}
use contract_review_ai_agent.Config.{Config, Environment, load, new_llm}
use contract_review_ai_agent.Config.Keys.{HasKey, load-HasKey}
use contract_review_ai_agent.Store.Postgres.{new_pool}
use contract_review_ai_agent.Agent.State.{Runtime}
use contract_review_ai_agent.Command.Dispatch.{finished, Outside}
use contract_review_ai_agent.Command.Start.{Services, with_client, connected, configured, main}

module _ {F W Pool : Type 0} (env : Environment F) (out : Services F W Pool) (rt : Runtime W)
    (world : Outside W) (args : List String) where
  connected-HasKey :
      (cfg : Config F) (r : Result Pool) (w w' : W)
      → load env ≡ ok cfg
      → connected env out rt world args cfg (r, w) ≡ (finished, w')
      → HasKey cfg
  unfolding connected with_client
  connected-HasKey cfg (err e) w w' loads = λ h. absurd cc
  connected-HasKey cfg (ok pool) w w' loads =
      elim (Result-cases (new_llm out.new_openai out.new_anthropic rt.platform.quote cfg)) [
        | inl (client, made) ↦ λ h.
            load-HasKey env out.new_openai out.new_anthropic rt.platform.quote cfg client loads made
        | inr (e, refused) ↦ rw refused (λ h. absurd cc)
      ]

  -- A process that ends with status 0, whatever its arguments, has loaded settings in which the provider
  -- is one of the two that the program knows and its key is not empty.
  pub main-HasKey :
      (w w' : W)
      → main env out rt world args w ≡ (finished, w')
      → (cfg : Config F) × (load env ≡ ok cfg) × HasKey cfg
  unfolding main configured
  main-HasKey w w' = elim (Result-cases (load env)) [
    | inl (cfg, loads) ↦ rw loads (λ h.
        let (r, v) = new_pool out.connect out.ping out.close cfg.database_url w in
        (cfg, refl, connected-HasKey cfg r v w' loads h))
    | inr (e, missing) ↦ rw missing (λ h. absurd cc)
  ]
