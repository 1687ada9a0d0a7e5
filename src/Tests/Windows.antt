-- ===== src/Tests/Windows.antt =====
-- The rate limiter and the bulkhead of src/evenkeel/infrastructure/adapters/redis over small servers.
use evenkeel.Prelude.{
  ℕ, ◌+◌, ◌<◌, ◌≤◌, ◌≡◌, refl, true, false, Option, none, some, List, [], ◌∷◌, leb, arith, length,
  if◌then◌else◌,
}
use evenkeel.Prelude.Text.{Text, codes, text_beq, text_eq}
use evenkeel.Ports.{RateLimitPolicy, BulkheadPolicy}
use evenkeel.Redis.RateLimit.{Counters}
use evenkeel.Redis.RateLimit.Window.{Counter, IsCounters, admitted, admitted_redis}
use evenkeel.Redis.RateLimit.Window
use evenkeel.Redis.Bulkhead.{SortedSets}
use evenkeel.Redis.Bulkhead.Occupied.{
  IsSortedSets, entering, leaving, use_leases, use_leases_within,
}
use evenkeel.Redis.Bulkhead.Occupied

-- A server with one counter.
abbrev lives : ℕ → ℕ → Option ℕ → Option Counter
lives now v none = some (record { value = v; expires = none })
lives now v (some e) = if leb e now then none else some (record { value = v; expires = some e })

abbrev current_at : ℕ → Option Counter → Option Counter
current_at now none = none
current_at now (some x) = lives now x.value x.expires

abbrev bumped : ℕ → Option Counter → ℕ × Option Counter
bumped c none = (c, some (record { value = c; expires = none }))
bumped c (some x) = (x.value + c, some (record { value = x.value + c; expires = x.expires }))

abbrev expiring : ℕ → Option Counter → Option Counter
expiring e none = none
expiring e (some x) = some (record { value = x.value; expires = some e })

abbrev counters : Counters (Option Counter)
counters = record {
  incrby = λ now k c r. bumped c (current_at now r);
  pexpire = λ now k ttl r. expiring (now + ttl) (current_at now r);
  pttl = λ now k r. 0;
}

lives_before :
    (t v e : ℕ) → t < e → lives t v (some e) ≡ some (record { value = v; expires = some e })
lives_before t v e early = let early' : leb e t ≡ false = ground (arith, early) in rw early' refl

lives_later :
    (s t w v e : ℕ) (x : Option ℕ)
    → t < e
    → lives s w x ≡ some (record { value = v; expires = some e })
    → lives t w x ≡ some (record { value = v; expires = some e })
lives_later s t w v e none early h = absurd (ground (arith, h))
lives_later s t w v e (some e') early h = ground (arith, early, h)

current_later :
    (s t v e : ℕ) (r : Option Counter)
    → t < e
    → current_at s r ≡ some (record { value = v; expires = some e })
    → current_at t r ≡ some (record { value = v; expires = some e })
current_later s t v e none early h = h
current_later s t v e (some x) early h = lives_later s t x.value v e x.expires early h

abbrev counter_laws : IsCounters counters
counter_laws = record {
  peek = λ now k r. current_at now r;
  incrby-none = λ now t k c r after small h. rw h (refl, refl);
  incrby-some = λ now t k c v e r after early small h. rw h (refl, lives_before t (v + c) e early);
  pexpire-some = λ now t k ttl v x r after early h. rw h (lives_before t v (now + ttl) early);
  later = λ s t k v e r after early h. current_later s t v e r early h;
}

abbrev limit_policy : RateLimitPolicy
limit_policy = record { name = codes "p"; limit = 3; window = 1000 }

abbrev charges : List Window.Call
charges =
    record { now = 120; cost = 2 }
    ∷ record { now = 300; cost = 1 }
    ∷ record { now = 900; cost = 1 }
    ∷ []

admitted_redis_example :
    admitted counters limit_policy (codes "rl:p:k") charges none ≤ limit_policy.limit
admitted_redis_example =
    admitted_redis counters limit_policy (codes "rl:p:k") counter_laws 1120
      (record { now = 120; cost = 2 })
      (record { now = 300; cost = 1 } ∷ record { now = 900; cost = 1 } ∷ []) none refl
      (
        omega arith,
        omega arith,
        (omega arith, omega arith, (omega arith, omega arith, omega arith)),
      )
      (omega arith) (unfold Window.costs in omega arith)

abbrev removed : Text → List Text → List Text
removed member [] = []
removed member (x ∷ xs) =
    let rest = removed member xs in if text_beq x member then rest else x ∷ rest

removed_fewer : (member : Text) (xs : List Text) → length (removed member xs) ≤ length xs
removed_fewer member [] = omega arith
removed_fewer member (x ∷ xs) = ground (arith, removed_fewer member xs)

-- A server with one set, of which only the tokens are kept.
abbrev sets : SortedSets (List Text)
sets = record {
  zremrangebyscore = λ now k top r. r;
  zcard = λ now k r. length r;
  zadd = λ now k score member r. member ∷ r;
  zrem = λ now k member r. removed member r;
  pexpire = λ now k ttl r. r;
}

sets-IsSortedSets : IsSortedSets sets
sets-IsSortedSets = record {
  zcard-zadd = λ now score k member r. omega arith;
  zcard-zremrangebyscore = λ now top k r. omega arith;
  zcard-zrem = λ now k member r. removed_fewer member r;
  zcard-pexpire = λ now k ttl r. omega arith;
  later = λ s t k r h. omega arith;
}

abbrev lease_policy : BulkheadPolicy
lease_policy = record {
  name = codes "risk";
  limit = 1;
  lease_ttl = 500;
  wait_timeout = 100;
  retry_interval = 25;
}

abbrev entries : List (ℕ × Occupied.Use)
entries =
    (10, entering (codes "a") none)
    ∷ (20, entering (codes "b") none)
    ∷ (30, leaving true (codes "a") none)
    ∷ (40, entering (codes "b") none)
    ∷ []

use_leases_within_example :
    length (use_leases sets (λ name. true) lease_policy entries []) ≤ lease_policy.limit
use_leases_within_example =
    use_leases_within sets (λ name. true) lease_policy sets-IsSortedSets 0 50 entries []
      (omega arith, (omega arith, (omega arith, (omega arith, omega arith)))) (omega arith)
