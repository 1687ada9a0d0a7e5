-- ===== src/Redis/Bulkhead/Occupied.antt =====
-- How many leases the bulkhead of src/evenkeel/infrastructure/adapters/redis/bulkhead.py gives.
use Prim.Native.String.{String}
use evenkeel.Prelude.{ℕ, ◌+◌, ◌≤◌, Bool, true, false, Option, none, some, List, [], ◌∷◌, arith}
use evenkeel.Prelude.Text.{Text}
use evenkeel.Domain.Errors.{Error}
use evenkeel.Ports.{BulkheadPolicy}
use evenkeel.Redis.Translated.{translated}
use evenkeel.Redis.Bulkhead.{
  SortedSets, acquire_lease, release_lease, bulkhead_key, try_lease, exit_lease,
}

-- A set grows by one member at most when one is added, by none with the other commands, and by none
-- as time passes.
pub record IsSortedSets {R : Type 0} (server : SortedSets R) : Type 0 where
  pub zcard-zadd :
      (now score : ℕ) (k member : Text) (r : R)
      → server.zcard now k (server.zadd now k score member r) ≤ server.zcard now k r + 1
  pub zcard-zremrangebyscore :
      (now top : ℕ) (k : Text) (r : R)
      → server.zcard now k (server.zremrangebyscore now k top r) ≤ server.zcard now k r
  pub zcard-zrem :
      (now : ℕ) (k member : Text) (r : R)
      → server.zcard now k (server.zrem now k member r) ≤ server.zcard now k r
  pub zcard-pexpire :
      (now : ℕ) (k : Text) (ttl : ℕ) (r : R)
      → server.zcard now k (server.pexpire now k ttl r) ≤ server.zcard now k r
  pub later : (s t : ℕ) (k : Text) (r : R) → s ≤ t → server.zcard t k r ≤ server.zcard s k r

-- What a caller does with the bulkhead, by its token, and what its client raises of it.
pub data Use : Type 0 where
  entering : Text → Option Error → Use
  leaving : Bool → Text → Option Error → Use

abbrev pub InOrder : ℕ → ℕ → List (ℕ × Use) → Type 0
InOrder s t [] = s ≤ t
InOrder s t ((now, x) ∷ uses) = (s ≤ now) × InOrder now t uses

module _ {R : Type 0} (server : SortedSets R) (is_redis : String → Bool)
    (policy : BulkheadPolicy) where
  abbrev use_lease : ℕ → Use → R → R
  use_lease now (entering token fault) r =
      (try_lease server is_redis policy token (λ _. now) (λ _. fault) 0 r).1
  use_lease now (leaving acquired token fault) r =
      (exit_lease server is_redis policy token now fault acquired r).1

  unfoldable pub use_leases : List (ℕ × Use) → R → R
  use_leases [] r = r
  use_leases ((now, x) ∷ uses) r = use_leases uses (use_lease now x r)

  module _ (sets : IsSortedSets server) where
    acquire_within :
        (now limit ttl : ℕ) (k token : Text) (r : R)
        → server.zcard now k r ≤ limit
        → server.zcard now k (acquire_lease server now k token limit ttl r).1 ≤ limit
    unfolding acquire_lease
    acquire_within now limit ttl k token r h =
        let live = server.zremrangebyscore now k now r in
        ground (
          arith,
          sets.zcard-zremrangebyscore now now k r,
          sets.zcard-zadd now (now + ttl) k token live,
          sets.zcard-pexpire now k ttl (server.zadd now k (now + ttl) token live),
        )

    use_within :
        (now : ℕ) (x : Use) (r : R)
        → server.zcard now (bulkhead_key policy) r ≤ policy.limit
        → server.zcard now (bulkhead_key policy) (use_lease now x r) ≤ policy.limit
    unfolding try_lease exit_lease translated release_lease
    use_within now (entering token none) r h =
        acquire_within now policy.limit policy.lease_ttl (bulkhead_key policy) token r h
    use_within now (entering token (some e)) r h = h
    use_within now (leaving true token none) r h =
        let fewer = sets.zcard-zrem now (bulkhead_key policy) token r in omega (arith, fewer, h)
    use_within now (leaving true token (some e)) r h = h
    use_within now (leaving false token fault) r h = h

    -- However callers, on any number of replicas, enter and leave in the order of the server's
    -- clock, and whatever their clients raise instead of calling it, the set of a bulkhead that
    -- holds no more leases than its limit never comes to hold more.
    pub use_leases_within :
        (s t : ℕ) (uses : List (ℕ × Use)) (r : R)
        → InOrder s t uses
        → server.zcard s (bulkhead_key policy) r ≤ policy.limit
        → server.zcard t (bulkhead_key policy) (use_leases uses r) ≤ policy.limit
    unfolding use_leases
    use_leases_within s t [] r order h =
        let fewer = sets.later s t (bulkhead_key policy) r order in omega (arith, fewer, h)
    use_leases_within s t ((now, x) ∷ uses) r (after, order) h =
        let fewer = sets.later s now (bulkhead_key policy) r after in
        use_leases_within now t uses _ order (use_within now x r (omega (arith, fewer, h)))
