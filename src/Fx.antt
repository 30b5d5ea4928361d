-- ===== src/Fx.antt =====
-- internal/fx: immutable, single-use quotes of conversions.
pub mod Convert
pub mod Rounding
mod Tests
