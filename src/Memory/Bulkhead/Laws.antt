-- ===== src/Memory/Bulkhead/Laws.antt =====
-- The occupancy of a bulkhead of src/evenkeel/infrastructure/adapters/memory/bulkhead.py.
use evenkeel.Prelude.{
  ℕ, ◌+◌, ◌<◌, ◌≤◌, ◌≡◌, ◌⊎◌, Bool, true, false, List, [], ◌∷◌, length, filter, length-filter,
  arith,
}
use evenkeel.Prelude.Text.{Text, text_eq}
use evenkeel.Prelude.Dict.{insert, erase}
use evenkeel.Ports.{BulkheadPolicy}
use evenkeel.Memory.Bulkhead.{Leases, is_live, reap, try_add, remove, leave}

length-insert : (k : Text) (v : ℕ) (d : Leases) → length (insert k v d) ≤ length d + 1
unfolding insert
length-insert k v [] = ground arith
length-insert k v ((j, w) ∷ d) = ground (arith, length-insert k v d)

length-erase : (k : Text) (d : Leases) → length (erase k d) ≤ length d
unfolding erase
length-erase k [] = ground arith
length-erase k ((j, w) ∷ d) = ground (arith, length-erase k d)

-- What a caller does with the bulkhead.
pub data Use : Type 0 where
  adds : ℕ → Text → Use
  leaves : Bool → Text → Use

unfoldable pub use_step : BulkheadPolicy → Use → Leases → Leases
use_step policy (adds now token) d = (try_add now token policy d).1
use_step policy (leaves acquired token) d = leave acquired token d

unfoldable pub use_run : BulkheadPolicy → List Use → Leases → Leases
use_run policy [] d = d
use_run policy (x ∷ xs) d = use_run policy xs (use_step policy x d)

-- A refusal means that as many leases as the limit allows are live; an entry, that there are fewer.
pub try_add_lem :
    (now : ℕ) (token : Text) (policy : BulkheadPolicy) (d : Leases)
    → (((try_add now token policy d).0 ≡ true) × (length (reap now d) < policy.limit))
      ⊎ (((try_add now token policy d).0 ≡ false)
          × (policy.limit ≤ length (reap now d))
          × ((try_add now token policy d).1 ≡ reap now d))
unfolding try_add
try_add_lem now token policy d = ground arith

try_add_within :
    (now : ℕ) (token : Text) (policy : BulkheadPolicy) (d : Leases)
    → length d ≤ policy.limit
    → length (try_add now token policy d).1 ≤ policy.limit
unfolding try_add reap
try_add_within now token policy d h = ground (
  arith,
  length-filter (is_live now) d,
  length-insert token (now + policy.lease_ttl) (filter (is_live now) d),
)

step_within :
    (policy : BulkheadPolicy) (x : Use) (d : Leases)
    → length d ≤ policy.limit
    → length (use_step policy x d) ≤ policy.limit
unfolding use_step leave remove
step_within policy (adds now token) d h = try_add_within now token policy d h
step_within policy (leaves acquired token) d h = ground (arith, length-erase token d)

-- However callers enter and leave, a bulkhead that holds no more leases than its limit never comes
-- to hold more.
pub use_run_within :
    (policy : BulkheadPolicy) (xs : List Use) (d : Leases)
    → length d ≤ policy.limit
    → length (use_run policy xs d) ≤ policy.limit
unfolding use_run
use_run_within policy [] d h = h
use_run_within policy (x ∷ xs) d h =
    use_run_within policy xs (use_step policy x d) (step_within policy x d h)
