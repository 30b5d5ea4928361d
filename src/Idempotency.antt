-- ===== src/Idempotency.antt =====
-- internal/idempotency: durable ownership of requests and the replay of their results.
pub mod Records
pub mod Replay
pub mod Calls
pub mod Answers
pub mod Leases
mod Tests
