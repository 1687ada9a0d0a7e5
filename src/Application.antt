-- ===== src/Application.antt =====
-- The use cases: src/evenkeel/application/.
pub mod Action
pub mod Triple
pub mod Movement
pub mod MoveMoney
pub mod OpenWallet
pub mod ReadWallets
pub mod ListWallets
