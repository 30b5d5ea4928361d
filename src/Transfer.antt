-- ===== src/Transfer.antt =====
-- internal/transfer: transfers between two customer accounts.
pub mod Legs
pub mod Validity
pub mod Plans
pub mod Postings
mod Tests
