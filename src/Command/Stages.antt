-- ===== src/Command/Stages.antt =====
-- main.go: the commands `process` and `analyze`, and what follows the analysis.
use contract_review_ai_agent.Common.{
  ℤ, ℕ, String, Bool, true, false, none, some, Result, ok, err, wrap, Go, pure, ◌>>=◌, ◌>>◌, orelse,
}
use contract_review_ai_agent.Domain.{ContractStatus, review_pending, review_complete, done}
use contract_review_ai_agent.Llm.{Llm}
use contract_review_ai_agent.Budget.{new_budget}
use contract_review_ai_agent.Context.{ContextManager, new_context_manager}
use contract_review_ai_agent.Store.{Store}
use contract_review_ai_agent.Tool.Catalog.{clause_registry}
use contract_review_ai_agent.Agent.State.{Runtime, Agent}
use contract_review_ai_agent.Pipeline.Extract.{run_extract}
use contract_review_ai_agent.Pipeline.ClauseSplitting.{extract_clauses}
use contract_review_ai_agent.Pipeline.Analyze.{analyze_clauses}
use contract_review_ai_agent.Pipeline.Summarize.{Output, Report, run_summarize}

-- The settings that the commands use, where none is negative: the ratio counts hundredths, the cost
-- nanodollars.
pub record RunSettings : Type 0 where
  pub llm_provider : String
  pub llm_model : String
  pub context_window : ℕ
  pub compact_ratio : ℕ
  pub keep_recent : ℤ
  pub run_max_tokens : ℕ
  pub run_max_cost_usd : ℕ
  pub run_max_steps : ℕ
  pub analysis_concurrency : ℕ

abbrev pub default_max_steps : ℕ
default_max_steps = 12

unfoldable pub context_manager : {W : Type 0} → RunSettings → Llm W → ContextManager W
context_manager cfg client =
    new_context_manager cfg.llm_model cfg.context_window cfg.compact_ratio cfg.keep_recent client

-- The report of `process` and `summarize`
abbrev pub client_report : Report
client_report = record { reviewing_party = "client"; governing_law = ""; contract_type = "" }

module _ {W : Type 0} (s : Store W) where
  module _ (rt : Runtime W) (cfg : RunSettings) (client : Llm W) (out : Output W) where
    -- `runPostAnalysis` behind its read: what the status asks for
    unfoldable pub post_analysis : String → Bool → ContractStatus → Go W (Unit {0})
    post_analysis id requires_review review_pending = pure tt
    post_analysis id requires_review review_complete = pure tt
    post_analysis id requires_review done = pure tt
    post_analysis id true status =
        orelse "set review_pending" (s.update_contract_status id review_pending)
    post_analysis id false status = do
      orelse "set review_complete" (s.update_contract_status id review_complete)
      run_summarize rt.platform s client out client_report id

    unfoldable pub run_post_analysis : String → Bool → Go W (Unit {0})
    unfolding post_analysis
    run_post_analysis id requires_review = do
      contract ← orelse "get contract" (s.get_contract id)
      post_analysis id requires_review contract.status

    -- The agent of an analysis: the five tools over a contract, without a store.
    analysis_agent : String → Agent W
    unfolding context_manager
    analysis_agent id = record {
      llm = client;
      tools = clause_registry rt.platform s id;
      max_steps = default_max_steps;
      ctx_mgr = some (context_manager cfg client);
      store = none;
    }

    unfoldable pub run_analyze : String → Go W (Unit {0})
    unfolding analysis_agent
    run_analyze id = orelse "analyze clauses" (
        analyze_clauses s rt (analysis_agent id) cfg.llm_provider cfg.llm_model id
          (some (new_budget cfg.run_max_tokens cfg.run_max_cost_usd cfg.run_max_steps)))

    -- `runExtract` gives an identifier together with its error.
    extracted_id : (String × Result (Unit {0})) × W → Result String × W
    extracted_id ((id, ok u), w) = (ok id, w)
    extracted_id ((id, err e), w) = (err (wrap "extract" e), w)

    unfoldable pub run_process :
        (String → String) → (String → Go W String) → String → Bool → Go W (Unit {0})
    unfolding extracted_id run_analyze run_post_analysis
    run_process base extract path requires_review = do
      id ← λ w. extracted_id (run_extract s base extract path requires_review w)
      orelse "extract-clauses" (extract_clauses rt.platform rt.new_uuid client s id)
      orelse "analyze-clauses" (run_analyze id)
      run_post_analysis id requires_review
