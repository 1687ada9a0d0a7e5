-- ===== src/Redis/Bulkhead.antt =====
-- `_RedisLease` and `RedisBulkhead` of src/evenkeel/infrastructure/adapters/redis/bulkhead.py. A
-- script is one step of the server, at the milliseconds that its `TIME` gives.
pub mod Occupied
use Prim.Native.String.{String}
use evenkeel.Prelude.{ℕ, ◌+◌, Bool, true, false, Option, none, some, ◌++◌, leb, if◌then◌else◌}
use evenkeel.Prelude.Text.{Text, codes}
use evenkeel.Domain.Errors.{Error, Result, ok, err}
use evenkeel.Ports.{BulkheadPolicy}
use evenkeel.Ports.Polling.{wait_entry}
use evenkeel.Redis.Translated.{translated}

-- `ZREMRANGEBYSCORE` from -inf, `ZCARD`, `ZADD`, `ZREM` and `PEXPIRE`.
pub record SortedSets (R : Type 0) : Type 0 where
  pub zremrangebyscore : ℕ → Text → ℕ → R → R
  pub zcard : ℕ → Text → R → ℕ
  pub zadd : ℕ → Text → ℕ → Text → R → R
  pub zrem : ℕ → Text → Text → R → R
  pub pexpire : ℕ → Text → ℕ → R → R

-- The key of a bulkhead.
unfoldable pub bulkhead_key : BulkheadPolicy → Text
bulkhead_key policy = codes "bulkhead:" ++ policy.name

module _ {R : Type 0} (server : SortedSets R) where
  -- `_ACQUIRE_SCRIPT`
  unfoldable pub acquire_lease : ℕ → Text → Text → ℕ → ℕ → R → Bool × R
  acquire_lease now k token limit ttl r =
      let live = server.zremrangebyscore now k now r in
      if leb limit (server.zcard now k live)
      then (false, live)
      else (true, server.pexpire now k ttl (server.zadd now k (now + ttl) token live))

  -- `_RELEASE_SCRIPT`
  unfoldable pub release_lease : ℕ → Text → Text → R → R
  release_lease now k token r = server.zrem now k token r

  module _ (is_redis : String → Bool) (policy : BulkheadPolicy) (token : Text) where
    -- One round of `__aenter__`, by the server's clock in it and what its client raises.
    unfoldable pub try_lease : (ℕ → ℕ) → (ℕ → Option Error) → ℕ → R → Result Bool × R
    unfolding acquire_lease
    try_lease clock faults round r =
        let (granted, r') =
          acquire_lease (clock round) (bulkhead_key policy) token policy.limit policy.lease_ttl r in
        translated is_redis "bulkhead.acquire" (faults round) (ok granted, r') r

    -- `__aenter__`
    unfoldable pub enter_lease :
        (ℕ → ℕ) → (ℕ → ℕ) → (ℕ → Option Error) → (ℕ → R → R) → ℕ → R → Option (Result Bool) × R
    unfolding try_lease
    enter_lease monotonic clock faults others fuel r =
        wait_entry monotonic (try_lease clock faults) others policy.wait_timeout fuel r

    -- `__aexit__`, by whether the entry had acquired.
    unfoldable pub exit_lease : ℕ → Option Error → Bool → R → Result (Unit {0}) × R
    unfolding release_lease
    exit_lease now fault false r = (ok tt, r)
    exit_lease now fault true r =
        translated is_redis "bulkhead.release" fault
          (ok tt, release_lease now (bulkhead_key policy) token r) r
