-- ===== src/Tests.antt =====
-- The theorems at concrete inputs.
mod Wallets
mod Stores
mod Redis
mod Windows
mod Worlds
mod Jwt
mod Presentation
mod Movements
mod Interactor
mod Http
mod Config
