-- ===== src/Command.antt =====
-- main.go: the commands, and the choice among them.
pub mod Counts
pub mod Stages
pub mod OneClause
pub mod Dispatch
pub mod Start
pub mod Outcomes
