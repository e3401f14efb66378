-- ===== src/Orchestrator.antt =====
-- apps/orchestrator/src: missions.
pub mod Machine
pub mod Completion
pub mod Repay
