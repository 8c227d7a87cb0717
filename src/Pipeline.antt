-- ===== src/Pipeline.antt =====
-- The stages of pipeline/*.go, each over a store and what surrounds it. Log lines, printed reports and
-- durations are left out.
pub mod Extract
pub mod Output
pub mod DryRun
pub mod Trace
pub mod ClauseSplitting
pub mod Analyze
pub mod Review
pub mod Summarize
pub mod Status
