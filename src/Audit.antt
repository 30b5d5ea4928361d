-- ===== src/Audit.antt =====
-- internal/audit: the checkpoints of the ledger and the verifier of its journal.
pub mod Collisions
pub mod Merkle
pub mod Roots
pub mod Verifier
pub mod Histories
mod Tests
