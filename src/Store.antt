-- ===== src/Store.antt =====
-- store/store.go: the persistence interface that the pipeline, the agent and the tools share, over a
-- world `W` that holds the database. Time stamps (`StartedAt`, `EndedAt`, `CreatedAt`) are written by
-- the database and read by nothing, and are left out.
pub mod Fake
pub mod Laws
pub mod Rows
pub mod Queries
pub mod Db
pub mod AgentRuns
pub mod Postgres
use contract_review_ai_agent.Common.{ℕ, ℤ, String, Bool, Option, List, Go}
use contract_review_ai_agent.Domain.{
  ContractStatus, Contract, Clause, ClauseAnalysis, Review, Summary, LibraryClause,
}

pub record AgentRun : Type 0 where
  pub id : String
  pub clause_id : String
  pub run_id : String
  pub status : String
  pub step_count : ℤ
  pub used_tokens : ℕ
  pub used_cost_usd : ℕ

pub record AgentStep : Type 0 where
  pub id : String
  pub agent_run_id : String
  pub step_index : ℕ
  pub messages : String
  pub usage_json : String

-- The part that the agent uses (`agentStore` in agent/agent.go). `found` is the `some` of a load.
pub record AgentStore (W : Type 0) : Type 0 where
  pub load_agent_run : String → Go W (Option (AgentRun × List AgentStep))
  pub start_agent_run : String → String → String → Go W (Unit {0})
  pub append_agent_step : String → ℕ → String → String → Go W (Unit {0})
  pub finish_agent_run : String → String → ℤ → ℕ → ℕ → Go W (Unit {0})
  pub get_stored_finding : String → Go W ClauseAnalysis

pub record Store (W : Type 0) : Type 0 where
  pub create_contract : String → String → Go W Contract
  pub create_contract_with_options : String → String → Bool → Go W Contract
  pub get_contract : String → Go W Contract
  pub update_contract_status : String → ContractStatus → Go W (Unit {0})
  pub update_contract_text : String → String → Go W (Unit {0})
  pub save_clauses : String → List Clause → Go W (Unit {0})
  pub get_clauses : String → Go W (List Clause)
  pub save_analysis : ClauseAnalysis → Go W (Unit {0})
  pub get_analyses : String → Go W (List ClauseAnalysis)
  pub save_review : Review → Go W (Unit {0})
  pub get_reviews : String → Go W (List Review)
  pub save_summary : String → String → Go W (Unit {0})
  pub get_summary : String → Go W Summary
  pub search_clause_library : String → Go W (List LibraryClause)
  pub get_standard_clause : String → Go W LibraryClause
  pub start_run : String → String → Go W (Unit {0})
  pub finish_run : String → String → Go W (Unit {0})
  pub agent_runs : AgentStore W
  pub open agent_runs use *
