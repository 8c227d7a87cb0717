-- ===== src/Tests.antt =====
-- Runs of the models at concrete inputs, and the theorems of the library at inputs that meet their
-- hypotheses.
mod Budgets
mod Contexts
mod Resumes
mod Stores
mod Retries
mod Configs
mod Pipelines
mod Reviews
mod Commands
mod Processes
mod Starts
mod Providers
mod Files
mod Logs
mod OneClauses
mod Agents
