-- ===== src/Setup.antt =====
-- What src/evenkeel/setup decides before the program starts.
pub mod Config
pub mod Wiring
