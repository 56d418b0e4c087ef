-- ===== src/Restore.antt =====
-- crates/soroban-restore-planner: the plan of a restore, and parts of the command.
pub mod Plan
pub mod Planner
pub mod Command
pub mod Hex
pub mod Batch
pub mod Main
