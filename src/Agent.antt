-- ===== src/Agent.antt =====
-- agent/agent.go and agent/store.go: one agent, which analyses one clause in a loop of calls to the
-- model. `State` has its records, `Validate` and `Calls` what it does with an answer of the model, `Step`
-- one pass of the loop's body, `Run` the loop and `Run` of the source. The other children are proofs.
pub mod State
pub mod Validate
pub mod Calls
pub mod Step
pub mod Run
pub mod Effect
pub mod Findings
pub mod Accounting
pub mod Resume
pub mod Recovery
pub mod Saves
