-- ===== src/Ledger.antt =====
-- internal/ledger: amounts and postings of the double-entry journal.
pub mod Amount
pub mod Posting
pub mod DoubleEntry
pub mod Entries
pub mod Decoding
pub mod Bindings
