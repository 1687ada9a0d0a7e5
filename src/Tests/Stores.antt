-- ===== src/Tests/Stores.antt =====
-- The stores of src/evenkeel/infrastructure/adapters/memory at concrete inputs.
use evenkeel.Prelude.{ℕ, ◌+◌, ◌*◌, ◌≤◌, ◌≡◌, refl, true, false, some, List, [], ◌∷◌, arith, length}
use evenkeel.Prelude.Text.{Text, codes, text_eq}
use evenkeel.Prelude.Dict.{lookup}
use evenkeel.Ports.{Receipt, RateLimitPolicy, BulkheadPolicy, in_progress, completed, reservation}
use evenkeel.Memory.Idempotency.{Entry, reserve, confirm, unexpired}
use evenkeel.Memory.Idempotency.Laws.{view, fresh}
use evenkeel.Memory.Idempotency.Runs.{
  Call, reserving, releasing, run, claimed_once, confirmed_replays,
}
use evenkeel.Memory.RateLimit.{Windows, composite, consume, current, charge}
use evenkeel.Memory.RateLimit.Laws
use evenkeel.Memory.RateLimit.Laws.{admitted, admitted_lem, retry_admitted}
use evenkeel.Memory.Locking.{Holder, enter, exit}
use evenkeel.Memory.Locking.Laws.{stale_exit_frees}
use evenkeel.Memory.Bulkhead.Laws.{adds, leaves, use_run, use_run_within}

abbrev key : Text
key = codes "k"

abbrev receipt : Receipt
receipt = record { entry_id = 1; wallet_id = 2 }

-- Another key is used, and the same one is asked for with the other's payload.
abbrev between : List (ℕ × Call)
between =
    (10, reserving (codes "j") (codes "f") 60)
    ∷ (20, reserving key (codes "g") 60)
    ∷ (30, releasing (codes "j"))
    ∷ []

claimed_once_example :
    (reserve 40 key (codes "f") 60 (run between (reserve 5 key (codes "f") 60 []).1)).0
    ≡ reservation in_progress
claimed_once_example =
    claimed_once 5 40 key (codes "f") (codes "f") 60 60 between [] (omega arith) (omega arith)
      (unfold view unexpired lookup in refl)
      (omega arith, (omega arith, (omega arith, omega arith))) (omega arith) (tt, (tt, (refl, tt)))

abbrev claimed : Entry
claimed = fresh 5 (codes "f") 60

confirmed_replays_example :
    (reserve 40 key (codes "f") 60 (run between (confirm 6 key receipt 60 ((key, claimed) ∷ [])))).0
    ≡ record {
      outcome = completed;
      stored = some (record { key = key; fingerprint = codes "f"; response = receipt });
    }
confirmed_replays_example =
    confirmed_replays 6 40 key receipt 60 60 between ((key, claimed) ∷ []) claimed (omega arith)
      (omega arith) (unfold view unexpired lookup in refl)
      (omega arith, (omega arith, (omega arith, omega arith))) (omega arith) (tt, (tt, (refl, tt)))

abbrev policy : RateLimitPolicy
policy = record { name = codes "p"; limit = 2; window = 1000 }

abbrev used_up : Windows
used_up = (codes "p:k", record { started_at = 500; used = 2 }) ∷ []

abbrev calls : List Laws.Call
calls =
    record { now = 1400; key = key; cost = 1 }
    ∷ record { now = 1500; key = key; cost = 2 }
    ∷ record { now = 2300; key = key; cost = 1 }
    ∷ []

admitted_lem_example : admitted policy key used_up calls ≤ 2 * 2
admitted_lem_example =
    admitted_lem policy key 1400 calls used_up (omega arith)
      (unfold composite lookup in omega arith)
      ((omega arith, omega arith), ((omega arith, omega arith), ((omega arith, omega arith), tt)))

retry_admitted_example :
    (consume (700 + 800) key policy 1 (consume 700 key policy 1 used_up).1).0.allowed ≡ true
retry_admitted_example =
    retry_admitted policy key 700 800 1 used_up (unfold composite lookup in omega arith)
      (omega arith) (unfold consume composite lookup current charge in refl)
      (unfold consume composite lookup current charge in omega arith)

abbrev free : Holder
free = record { locked = false; expires_at = 0 }

abbrev expired : Holder
expired = record { locked = true; expires_at = 100 }

stale_exit_frees_example :
    ((enter 200 100 expired).0 ≡ true)
    × ((exit true (enter 200 100 expired).1).locked ≡ false)
    × ((enter 250 100 (exit true (enter 200 100 expired).1)).0 ≡ true)
stale_exit_frees_example = stale_exit_frees 200 100 250 100 expired refl (omega arith) (omega arith)

abbrev slots : BulkheadPolicy
slots = record {
  name = codes "risk";
  limit = 1;
  lease_ttl = 100;
  wait_timeout = 0;
  retry_interval = 50;
}

use_run_within_example :
    length (
      use_run slots
        (adds 0 (codes "a")
          ∷ adds 50 (codes "b")
          ∷ adds 100 (codes "c")
          ∷ leaves true (codes "a")
          ∷ [])
        [])
    ≤ 1
use_run_within_example =
    use_run_within slots
      (adds 0 (codes "a")
        ∷ adds 50 (codes "b")
        ∷ adds 100 (codes "c")
        ∷ leaves true (codes "a")
        ∷ [])
      [] (omega arith)
