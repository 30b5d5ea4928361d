-- ===== src/Saga.antt =====
-- internal/saga: durable orchestration of local and remote actions with compensation.
pub mod Types
pub mod Steps
pub mod Orchestrator
pub mod Ticks
pub mod Forward
pub mod Progress
pub mod Backward
pub mod Compensation
pub mod Races
pub mod Starts
mod Tests
