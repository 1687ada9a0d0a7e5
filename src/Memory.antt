-- ===== src/Memory.antt =====
-- The per-process adapters: src/evenkeel/infrastructure/adapters/memory/. Each method runs with no
-- `await` between its reads and its writes, so it is one function of its state and of the
-- monotonic clock's reading.
pub mod Idempotency
pub mod RateLimit
pub mod Locking
pub mod Bulkhead
