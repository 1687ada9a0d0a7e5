-- ===== src/Domain.antt =====
-- The domain layer: src/evenkeel/domain/.
pub mod Uuid
pub mod Decimal
pub mod Errors
pub mod Money
pub mod Wallet
pub mod Ledger
