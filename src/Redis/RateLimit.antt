-- ===== src/Redis/RateLimit.antt =====
-- `RedisRateLimiter` of src/evenkeel/infrastructure/adapters/redis/locking.py. The script is one step
-- of the server, at an instant of its clock in milliseconds; so is the window of a policy.
pub mod Window
use Prim.Native.String.{String}
use evenkeel.Prelude.{ℕ, ◌+◌, ◌-◌, Bool, true, false, Option, ◌++◌, ◌==◌, leb, ltb, if◌then◌else◌}
use evenkeel.Prelude.Text.{Text, codes, text_beq}
use evenkeel.Domain.Errors.{Error, Result, ok, err}
use evenkeel.Ports.{RateLimitPolicy, RateLimitDecision}
use evenkeel.Memory.RateLimit.{composite}
use evenkeel.Redis.Translated.{translated}

-- `INCRBY`, `PEXPIRE` and `PTTL`. The last is 0 here for both of the negative answers, of a key
-- that has no expiry and of one that is not there.
pub record Counters (R : Type 0) : Type 0 where
  pub incrby : ℕ → Text → ℕ → R → ℕ × R
  pub pexpire : ℕ → Text → ℕ → R → R
  pub pttl : ℕ → Text → R → ℕ

-- `consume`, from the script's answer.
unfoldable pub decided : RateLimitPolicy → ℕ × ℕ → RateLimitDecision
decided policy (current, ttl) =
    if ltb policy.limit current
    then record { allowed = false; remaining = 0; retry_after = ttl }
    else record { allowed = true; remaining = policy.limit - current; retry_after = 0 }

module _ {R : Type 0} (server : Counters R) where
  -- `_CONSUME_SCRIPT`
  unfoldable pub consume_script : ℕ → Text → ℕ → ℕ → R → (ℕ × ℕ) × R
  consume_script now k cost window r =
      let (current, r') = server.incrby now k cost r in
      let r'' = if current == cost then server.pexpire now k window r' else r' in
      ((current, server.pttl now k r''), r'')

  unfoldable pub consume_reached : ℕ → Text → RateLimitPolicy → ℕ → R → Result RateLimitDecision × R
  unfolding consume_script decided
  consume_reached now key policy cost r =
      let (answer, r') =
        consume_script now (codes "rl:" ++ composite policy key) cost policy.window r in
      (ok (decided policy answer), r')

  -- `consume`
  unfoldable pub consume_redis :
      (String → Bool)
      → ℕ
      → Option Error
      → Text
      → RateLimitPolicy
      → ℕ
      → R
      → Result RateLimitDecision × R
  unfolding consume_reached
  consume_redis is_redis now fault key policy cost r =
      translated is_redis "rate_limit.consume" fault (consume_reached now key policy cost r) r
