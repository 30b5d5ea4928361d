-- ===== src/Migration.antt =====
-- internal/schemamigration: the statements of a migration file.
pub mod Trim
pub mod Split
pub mod Pieces
pub mod Literals
mod Tests
