-- ===== src/Memory/Locking.antt =====
-- `_Holder` and `_InProcessLock` of src/evenkeel/infrastructure/adapters/memory/locking.py, for an
-- entry that does not wait. An `asyncio.Lock` is whether it is locked, and the clock is in
-- milliseconds.
pub mod Laws
use evenkeel.Prelude.{ℕ, ◌+◌, Bool, true, false, ◌&&◌, leb, if◌then◌else◌}

pub record Holder : Type 0 where
  pub locked : Bool
  pub expires_at : ℕ

-- `lease_expired`
unfoldable pub lease_expired : ℕ → Holder → Bool
lease_expired now h = h.locked && leb h.expires_at now

-- An expired lease is taken back before the lock is asked for.
unfoldable pub reclaim : ℕ → Holder → Holder
unfolding lease_expired
reclaim now h = if lease_expired now h then record h { locked = false } else h

-- `__aenter__` with no wait: whether the lock was acquired.
unfoldable pub enter : ℕ → ℕ → Holder → Bool × Holder
unfolding reclaim
enter now ttl h =
    let h' = reclaim now h in
    if h'.locked then (false, h') else (true, record { locked = true; expires_at = now + ttl })

-- `__aexit__`, by whether this entry had acquired the lock.
unfoldable pub exit : Bool → Holder → Holder
exit acquired h = if acquired && h.locked then record h { locked = false } else h
