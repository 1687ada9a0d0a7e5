-- ===== src/Memory/Locking/Laws.antt =====
-- Who holds the lock of src/evenkeel/infrastructure/adapters/memory/locking.py, and for how long.
use evenkeel.Prelude.{ℕ, ◌+◌, ◌<◌, ◌≤◌, ◌≡◌, ◌⊎◌, true, false, arith}
use evenkeel.Memory.Locking.{Holder, lease_expired, reclaim, enter, exit}

-- An entry acquires exactly a lock that is free or whose lease is over, and then holds it for its
-- own lease; one that does not acquire it leaves the holder as it was.
pub enter_lem :
    (now ttl : ℕ) (h : Holder)
    → ((enter now ttl h ≡ (true, record { locked = true; expires_at = now + ttl }))
        × ((h.locked ≡ false) ⊎ (h.expires_at ≤ now)))
      ⊎ ((enter now ttl h ≡ (false, h)) × (h.locked ≡ true) × (now < h.expires_at))
unfolding enter reclaim lease_expired
enter_lem now ttl h = ground arith

-- From an entry that acquired to the end of its lease, an entry beside it is refused and changes
-- nothing; and after the exit of the one that acquired, the next entry acquires.
pub held_until :
    (now ttl later ttl' : ℕ) (h : Holder)
    → (enter now ttl h).0 ≡ true
    → (later < now + ttl → enter later ttl' (enter now ttl h).1 ≡ (false, (enter now ttl h).1))
      × ((enter later ttl' (exit true (enter now ttl h).1)).0 ≡ true)
unfolding enter reclaim lease_expired exit
held_until now ttl later ttl' h acquired = ground arith

-- A lease that is over is handed on to the next entry; when the first holder then exits, the lock
-- is free although the second holder's lease still runs, and a third entry within that lease
-- acquires it.
pub stale_exit_frees :
    (now ttl later ttl' : ℕ) (h : Holder)
    → h.locked ≡ true
    → h.expires_at ≤ now
    → later < now + ttl
    → ((enter now ttl h).0 ≡ true)
      × ((exit true (enter now ttl h).1).locked ≡ false)
      × ((enter later ttl' (exit true (enter now ttl h).1)).0 ≡ true)
unfolding enter reclaim lease_expired exit
stale_exit_frees now ttl later ttl' h locked over running = ground arith
