-- ===== src/Redis.antt =====
-- The adapters of src/evenkeel/infrastructure/adapters/redis, over a server that is a parameter.
pub mod Keyspace
pub mod Translated
pub mod Idempotency
pub mod Locking
pub mod RateLimit
pub mod Bulkhead
