-- ===== src/Ports/Polling.antt =====
-- The loop of the `__aenter__`s that try again until a deadline:
-- src/evenkeel/infrastructure/adapters/redis/locking.py, and bulkhead.py there and in
-- src/evenkeel/infrastructure/adapters/memory. Rounds are counted; what the process's clock reads in
-- a round, and what others do to the shared state while the loop sleeps, are given by the round.
pub mod Ended
use evenkeel.Prelude.{ℕ, zero, suc, ◌+◌, Bool, true, false, Option, none, some, leb}
use evenkeel.Domain.Errors.{Result, ok, err}

module _ {R : Type 0} (monotonic : ℕ → ℕ) (try_once : ℕ → R → Result Bool × R)
    (others : ℕ → R → R) where
  -- The loop on fuel: `none` when that ends first.
  unfoldable pub poll : ℕ → ℕ → ℕ → R → Option (Result Bool) × R
  poll deadline zero round r = (none, r)
  poll deadline (suc fuel) round r =
      let (granted, r') = try_once round r in
      elim granted [
        | err e ↦ (some (err e), r')
        | ok true ↦ (some (ok true), r')
        | ok false ↦ elim (leb deadline (monotonic round)) [
          | true ↦ (some (ok false), r')
          | false ↦ poll deadline fuel (round + 1) (others round r')
        ]
      ]

  -- `__aenter__`: the deadline is reckoned from the first reading of the clock.
  unfoldable pub wait_entry : ℕ → ℕ → R → Option (Result Bool) × R
  unfolding poll
  wait_entry wait fuel r = poll (monotonic 0 + wait) fuel 0 r
