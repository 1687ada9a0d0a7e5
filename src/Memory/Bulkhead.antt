-- ===== src/Memory/Bulkhead.antt =====
-- `_Occupancy` of src/evenkeel/infrastructure/adapters/memory/bulkhead.py: the live leases of one
-- bulkhead, as token and expiry. The clock is in milliseconds.
pub mod Laws
use evenkeel.Prelude.{
  ℕ, ◌+◌, Bool, true, false, not, Option, List, [], ◌∷◌, leb, ltb, length, filter, if◌then◌else◌,
}
use evenkeel.Prelude.Text.{Text, text_eq}
use evenkeel.Prelude.Dict.{Dict, insert, erase}
use evenkeel.Domain.Errors.{Result, ok}
use evenkeel.Ports.{BulkheadPolicy}
use evenkeel.Ports.Polling.{wait_entry}

abbrev pub Leases : Type 0
Leases = Dict Text ℕ

-- The leases that the comprehension keeps.
abbrev pub is_live : ℕ → Text × ℕ → Bool
is_live now lease = ltb now lease.1

unfoldable pub reap : ℕ → Leases → Leases
reap now d = filter (is_live now) d

-- `try_add`
unfoldable pub try_add : ℕ → Text → BulkheadPolicy → Leases → Bool × Leases
unfolding reap
try_add now token policy d =
    let live = reap now d in
    if leb policy.limit (length live)
    then (false, live)
    else (true, insert token (now + policy.lease_ttl) live)

-- `remove`
unfoldable pub remove : Text → Leases → Leases
remove token d = erase token d

-- `__aexit__`, by whether this entry had acquired a lease.
unfoldable pub leave : Bool → Text → Leases → Leases
unfolding remove
leave acquired token d = if acquired then remove token d else d

-- One round of `__aenter__`, which reads the clock once here for its two readings.
unfoldable pub try_round : (ℕ → ℕ) → Text → BulkheadPolicy → ℕ → Leases → Result Bool × Leases
unfolding try_add
try_round monotonic token policy round d =
    let (granted, d') = try_add (monotonic round) token policy d in (ok granted, d')

-- `__aenter__`
unfoldable pub enter :
    (ℕ → ℕ)
    → (ℕ → Leases → Leases)
    → Text
    → BulkheadPolicy
    → ℕ
    → Leases
    → Option (Result Bool) × Leases
unfolding try_round
enter monotonic others token policy fuel d =
    wait_entry monotonic (try_round monotonic token policy) others policy.wait_timeout fuel d
