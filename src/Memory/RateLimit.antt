-- ===== src/Memory/RateLimit.antt =====
-- `InMemoryRateLimiter` of src/evenkeel/infrastructure/adapters/memory/locking.py. The clock is in
-- milliseconds, and so is the window of a policy.
pub mod Counted
pub mod Laws
use evenkeel.Prelude.{
  ℕ, ◌+◌, ◌-◌, Bool, true, false, not, Option, none, some, List, [], ◌∷◌, ◌++◌, leb, ltb,
  if◌then◌else◌,
}
use evenkeel.Prelude.Text.{Text, text_beq, text_eq}
use evenkeel.Prelude.Dict.{Dict, lookup, insert}
use evenkeel.Ports.{RateLimitPolicy, RateLimitDecision}

-- When a window started, and what was used in it.
pub record Window : Type 0 where
  pub started_at : ℕ
  pub used : ℕ

abbrev pub Windows : Type 0
Windows = Dict Text Window

-- `f"{policy.name}:{key}"`
unfoldable pub composite : RateLimitPolicy → Text → Text
composite policy key = policy.name ++ b':' ∷ key

abbrev fresh_window : ℕ → Window
fresh_window now = record { started_at = now; used = 0 }

abbrev stored_window : ℕ → Option Window → Window
stored_window now none = fresh_window now
stored_window now (some w) = w

-- The window that a call is counted in: the stored one, or a new one once that has passed.
unfoldable pub current : RateLimitPolicy → ℕ → Option Window → Window
current policy now found =
    let w = stored_window now found in
    if leb policy.window (now - w.started_at) then fresh_window now else w

-- `consume`, of the window that it is counted in.
unfoldable pub charge : RateLimitPolicy → ℕ → ℕ → Window → RateLimitDecision × Window
charge policy now cost w =
    if ltb policy.limit (w.used + cost)
    then (
      record {
        allowed = false;
        remaining = policy.limit - w.used;
        retry_after = policy.window - (now - w.started_at);
      },
      w,
    )
    else (
      record { allowed = true; remaining = policy.limit - (w.used + cost); retry_after = 0 },
      record { started_at = w.started_at; used = w.used + cost },
    )

-- `consume`
unfoldable pub consume : ℕ → Text → RateLimitPolicy → ℕ → Windows → RateLimitDecision × Windows
unfolding composite current charge
consume now key policy cost d =
    let k = composite policy key in
    let (decision, w) = charge policy now cost (current policy now (lookup k d)) in
    (decision, insert k w d)
