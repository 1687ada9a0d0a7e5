-- ===== src/Jwt.antt =====
-- The identity adapters: src/evenkeel/infrastructure/adapters/jwt/ and
-- src/evenkeel/infrastructure/adapters/dev_identity.py.
pub mod KeySet
pub mod Keys
pub mod Identity
