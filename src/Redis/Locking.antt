-- ===== src/Redis/Locking.antt =====
-- `_RedisLock` and `RedisDistributedLock` of src/evenkeel/infrastructure/adapters/redis/locking.py:
-- the claim of the key and its release, each a step of the server.
pub mod Exclusive
use Prim.Native.String.{String}
use evenkeel.Prelude.{
  ℕ, zero, suc, ◌+◌, Bool, true, false, Option, none, some, leb, ◌++◌, if◌then◌else◌,
}
use evenkeel.Prelude.Text.{Text, codes, text_beq}
use evenkeel.Domain.Errors.{Error, Result, ok, err}
use evenkeel.Ports.Polling.{wait_entry}
use evenkeel.Redis.Keyspace.{Keyspace}
use evenkeel.Redis.Translated.{translated}

-- The key of the lock.
unfoldable pub redis_lock_key : Text → Text
redis_lock_key key = codes "lock:" ++ key

module _ {R : Type 0} (server : Keyspace R) where
  -- `SET key token PX ttl NX`: whether it was granted.
  claim_found : ℕ → Text → Text → ℕ → Option Text → R → Bool × R
  claim_found now k token ttl none r = (true, server.set now k token ttl r)
  claim_found now k token ttl (some other) r = (false, r)

  unfoldable pub acquire : ℕ → Text → Text → ℕ → R → Bool × R
  unfolding claim_found
  acquire now k token ttl r = claim_found now k token ttl (server.get now k r) r

  -- `_RELEASE_SCRIPT`: compare and delete.
  release_held : ℕ → Text → Text → Option Text → R → R
  release_held now k token none r = r
  release_held now k token (some held) r = if text_beq held token then server.del now k r else r

  unfoldable pub release_token : ℕ → Text → Text → R → R
  unfolding release_held
  release_token now k token r = release_held now k token (server.get now k r) r

  module _ (is_redis : String → Bool) where
    -- `__aexit__`, by whether the entry had acquired.
    unfoldable pub exit_redis : ℕ → Option Error → Bool → Text → Text → R → Result (Unit {0}) × R
    exit_redis now fault false k token r = (ok tt, r)
    exit_redis now fault true k token r =
        translated is_redis "lock.release" fault (ok tt, release_token now k token r) r

    -- One round of `__aenter__`, by the server's clock in it and what its client raises.
    unfoldable pub try_claim :
        (ℕ → ℕ) → (ℕ → Option Error) → Text → Text → ℕ → ℕ → R → Result Bool × R
    try_claim clock faults k token ttl round r =
        let (granted, r') = acquire (clock round) k token ttl r in
        translated is_redis "lock.acquire" (faults round) (ok granted, r') r

    -- `__aenter__`
    unfoldable pub enter_redis :
        (ℕ → ℕ)
        → (ℕ → ℕ)
        → (ℕ → Option Error)
        → (ℕ → R → R)
        → Text
        → Text
        → ℕ
        → ℕ
        → ℕ
        → R
        → Option (Result Bool) × R
    unfolding try_claim
    enter_redis monotonic clock faults others k token ttl wait fuel r =
        wait_entry monotonic (try_claim clock faults k token ttl) others wait fuel r
