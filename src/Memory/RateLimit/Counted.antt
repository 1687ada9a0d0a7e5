-- ===== src/Memory/RateLimit/Counted.antt =====
-- One window of src/evenkeel/infrastructure/adapters/memory/locking.py: how a call finds it, and how
-- it leaves it.
use evenkeel.Prelude.{
  ℕ, ◌+◌, ◌-◌, ◌<◌, ◌≤◌, ◌≡◌, ◌⊎◌, inl, inr, Bool, true, false, Option, none, some, arith,
  if◌then◌else◌,
}
use mathlib.Core.Path.{subst}
use evenkeel.Prelude.Text.{text_eq}
use evenkeel.Ports.{RateLimitPolicy}
use evenkeel.Memory.RateLimit.{Window, current, charge}

-- A key's window holds no more than the limit.
abbrev pub IsWithin : RateLimitPolicy → Option Window → Type 0
IsWithin policy none = Unit {0}
IsWithin policy (some w) = w.used ≤ policy.limit

pub current-IsWithin :
    (policy : RateLimitPolicy) (now : ℕ) (found : Option Window)
    → IsWithin policy found
    → (current policy now found).used ≤ policy.limit
unfolding current
current-IsWithin policy now none h = ground arith
current-IsWithin policy now (some w) h = ground arith

-- A call is admitted exactly if its cost fits; then it is counted, and otherwise nothing is.
pub charge_lem :
    (policy : RateLimitPolicy) (now cost : ℕ) (w : Window)
    → (((charge policy now cost w).0.allowed ≡ true)
        × (w.used + cost ≤ policy.limit)
        × ((charge policy now cost w).1.used ≡ w.used + cost)
        × ((charge policy now cost w).1.started_at ≡ w.started_at))
      ⊎ (((charge policy now cost w).0.allowed ≡ false)
          × (policy.limit < w.used + cost)
          × ((charge policy now cost w).0.retry_after ≡ policy.window - (now - w.started_at))
          × ((charge policy now cost w).1 ≡ w))
unfolding charge
charge_lem policy now cost w = ground arith

pub current_same :
    (policy : RateLimitPolicy) (now : ℕ) (w : Window)
    → now < w.started_at + policy.window
    → 0 < policy.window
    → current policy now (some w) ≡ w
unfolding current
current_same policy now w h pos = ground arith

-- What a call of the key adds to the admitted cost, by its decision.
abbrev pub counted : Bool → ℕ → ℕ → ℕ
counted allowed cost rest = if allowed then cost + rest else rest

-- If what is admitted after a call fits beside the window that it left, what is admitted with it
-- fits beside the window that it found.
pub charge_step :
    (policy : RateLimitPolicy) (now cost rest bound : ℕ) (w : Window)
    → rest + (charge policy now cost w).1.used ≤ bound
    → counted (charge policy now cost w).0.allowed cost rest + w.used ≤ bound
charge_step policy now cost rest bound w h = elim (charge_lem policy now cost w) [
  | inl (allowed, _, used, _) ↦ rw allowed (omega (arith, h, used))
  | inr (denied, _, _, same) ↦ rw denied (subst (λ (x : Window). rest + x.used ≤ bound) same h)
]

pub charge_within :
    (policy : RateLimitPolicy) (now cost : ℕ) (w : Window)
    → w.used ≤ policy.limit
    → ((charge policy now cost w).1.used ≤ policy.limit)
      × ((charge policy now cost w).1.started_at ≡ w.started_at)
unfolding charge
charge_within policy now cost w h = ground arith

-- A call is counted in a window of its own time, or in the one that it found.
pub current_cases :
    (policy : RateLimitPolicy) (now : ℕ) (found : Option Window)
    → (current policy now found ≡ record { started_at = now; used = 0 })
      ⊎ (found ≡ some (current policy now found))
unfolding current
current_cases policy now none = ground arith
current_cases policy now (some w) = ground arith

abbrev pub used_of : Option Window → ℕ
used_of none = 0
used_of (some w) = w.used

pub used_of-IsWithin :
    (policy : RateLimitPolicy) (found : Option Window)
    → IsWithin policy found
    → used_of found ≤ policy.limit
used_of-IsWithin policy none h = omega arith
used_of-IsWithin policy (some w) h = h

pub charge_retry :
    (policy : RateLimitPolicy) (now wait cost : ℕ) (w : Window)
    → w.started_at ≤ now
    → cost ≤ policy.limit
    → (charge policy now cost w).0.allowed ≡ false
    → (charge policy now cost w).0.retry_after ≤ wait
    → (charge policy
        (now + wait)
        cost
        (current policy (now + wait) (some (charge policy now cost w).1))).0.allowed
      ≡ true
unfolding charge current
charge_retry policy now wait cost w past fits denied waited = ground arith

-- The clock has not gone back behind a window's start.
abbrev pub IsPast : ℕ → Option Window → Type 0
IsPast now none = Unit {0}
IsPast now (some w) = w.started_at ≤ now

pub current-past :
    (policy : RateLimitPolicy) (now : ℕ) (found : Option Window)
    → IsPast now found
    → (current policy now found).started_at ≤ now
unfolding current
current-past policy now none h = ground arith
current-past policy now (some w) h = ground arith
