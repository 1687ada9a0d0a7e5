-- ===== src/Redis/RateLimit/Window.antt =====
-- What the limiter of src/evenkeel/infrastructure/adapters/redis/locking.py admits in a window.
use evenkeel.Prelude.{
  ℕ, ◌+◌, ◌-◌, ◌^◌, ◌<◌, ◌≤◌, ◌≡◌, inl, inr, true, Bool-cases, Option, none, some, List, [], ◌∷◌,
  ◌==◌, arith, if◌then◌else◌,
}
use evenkeel.Prelude.Text.{Text}
use evenkeel.Ports.{RateLimitPolicy}
use evenkeel.Redis.RateLimit.{Counters, consume_script, decided}

-- A counter under a key, and when it expires, where it does.
pub record Counter : Type 0 where
  pub value : ℕ
  pub expires : Option ℕ

-- A counter that the server holds at an instant; what a command makes of it until it expires. An
-- increment keeps the expiry, starts from 0 where there is no counter, and is exact on 64 bits.
pub record IsCounters {R : Type 0} (server : Counters R) : Type 0 where
  pub peek : ℕ → Text → R → Option Counter
  pub incrby-none :
      (now t : ℕ) (k : Text) (c : ℕ) (r : R)
      → now ≤ t
      → c < 2 ^ 63
      → peek now k r ≡ none
      → ((server.incrby now k c r).0 ≡ c)
        × (peek t k (server.incrby now k c r).1 ≡ some (record { value = c; expires = none }))
  pub incrby-some :
      (now t : ℕ) (k : Text) (c v e : ℕ) (r : R)
      → now ≤ t
      → t < e
      → v + c < 2 ^ 63
      → peek now k r ≡ some (record { value = v; expires = some e })
      → ((server.incrby now k c r).0 ≡ v + c)
        × (peek t k (server.incrby now k c r).1 ≡ some (record { value = v + c; expires = some e }))
  pub pexpire-some :
      (now t : ℕ) (k : Text) (ttl v : ℕ) (expires : Option ℕ) (r : R)
      → now ≤ t
      → t < now + ttl
      → peek now k r ≡ some (record { value = v; expires = expires })
      → peek t k (server.pexpire now k ttl r)
        ≡ some (record { value = v; expires = some (now + ttl) })
  pub later :
      (s t : ℕ) (k : Text) (v e : ℕ) (r : R)
      → s ≤ t
      → t < e
      → peek s k r ≡ some (record { value = v; expires = some e })
      → peek t k r ≡ some (record { value = v; expires = some e })

pub record Call : Type 0 where
  pub now : ℕ
  pub cost : ℕ

-- The calls are in the order of the clock, from an instant and before another.
abbrev pub Between : ℕ → ℕ → List Call → Type 0
Between from end [] = from ≤ end
Between from end (c ∷ calls) = (from ≤ c.now) × (c.now < end) × Between c.now end calls

unfoldable pub costs : List Call → ℕ
costs [] = 0
costs (c ∷ calls) = c.cost + costs calls

module _ {R : Type 0} (server : Counters R) (policy : RateLimitPolicy) (k : Text) where
  -- What is admitted under a key, in all.
  unfoldable pub admitted : List Call → R → ℕ
  admitted [] r = 0
  admitted (c ∷ calls) r =
      let (answer, r') = consume_script server c.now k c.cost policy.window r in
      let rest = admitted calls r' in
      if (decided policy answer).allowed then c.cost + rest else rest

  module _ (counters : IsCounters server) where
    -- The counter after a call that finds one, until an instant that it lives to.
    script_some :
        (now t : ℕ) (c v e end : ℕ) (r : R)
        → now ≤ t
        → t < end
        → end ≤ e
        → end ≤ now + policy.window
        → v + c < 2 ^ 63
        → counters.peek now k r ≡ some (record { value = v; expires = some e })
        → let s = consume_script server now k c policy.window r in
          (s.0.0 ≡ v + c)
          × ((e' : ℕ) × (end ≤ e')
              × (counters.peek t k s.1 ≡ some (record { value = v + c; expires = some e' })))
    unfolding consume_script
    script_some now t c v e end r after early lives span small there =
        let (told, at_now) =
          counters.incrby-some now now k c v e r (omega arith) (omega (arith, after, early, lives))
            small there in
        let (_, at_t) =
          counters.incrby-some now t k c v e r after (omega (arith, early, lives)) small there in
        elim (Bool-cases ((server.incrby now k c r).0 == c)) [
          | inl first ↦ rw first (
            told,
            (
              now + policy.window,
              span,
              counters.pexpire-some now t k policy.window (v + c) (some e) _ after
                  (omega (arith, early, span)) at_now,
            ),
          )
          | inr counted ↦ rw counted (told, (e, lives, at_t))
        ]

    script_none :
        (now c end : ℕ) (r : R)
        → now < end
        → end ≤ now + policy.window
        → c < 2 ^ 63
        → counters.peek now k r ≡ none
        → let s = consume_script server now k c policy.window r in
          (s.0.0 ≡ c)
          × (counters.peek now k s.1
              ≡ some (record { value = c; expires = some (now + policy.window) }))
    unfolding consume_script
    script_none now c end r early span small nothing =
        let (told, fresh) = counters.incrby-none now now k c r (omega arith) small nothing in
        let first : ((server.incrby now k c r).0 == c) ≡ true = ground (arith, told) in
        rw first (
          told,
          counters.pexpire-some now now k policy.window c none _ (omega arith)
              (omega (arith, early, span)) fresh,
        )

    -- What a counter that lives to an instant leaves of the limit bounds what is admitted before it.
    admitted-some :
        (from end v e : ℕ) (calls : List Call) (r : R)
        → Between from end calls
        → end ≤ e
        → end ≤ from + policy.window
        → v + costs calls < 2 ^ 63
        → counters.peek from k r ≡ some (record { value = v; expires = some e })
        → admitted calls r ≤ policy.limit - v
    unfolding admitted costs decided
    admitted-some from end v e [] r order lives span small there = ground arith
    admitted-some from end v e (c ∷ calls) r (after, before, order) lives span small there =
        let alive = counters.later from c.now k v e r after (omega (arith, before, lives)) there in
        let (told, (e', lives', left)) =
          script_some c.now c.now c.cost v e end r (omega arith) before lives
            (omega (arith, after, span)) (omega (arith, small)) alive in
        let rest =
          admitted-some c.now end (v + c.cost) e' calls _ order lives' (omega (arith, after, span))
            (omega (arith, small)) left in
        ground (arith, told, rest)

    -- The calls of a key, from the first that finds no counter there until the policy's window has
    -- passed since that: those that are admitted cost no more than the limit, while what all of
    -- them cost is below 2 ^ 63.
    pub admitted_redis :
        (end : ℕ) (c : Call) (calls : List Call) (r : R)
        → counters.peek c.now k r ≡ none
        → Between c.now end (c ∷ calls)
        → end ≤ c.now + policy.window
        → costs (c ∷ calls) < 2 ^ 63
        → admitted (c ∷ calls) r ≤ policy.limit
    unfolding admitted costs decided
    admitted_redis end c calls r nothing (after, before, order) span small =
        let (told, left) =
          script_none c.now c.cost end r before span (omega (arith, small)) nothing in
        let rest =
          admitted-some c.now end c.cost (c.now + policy.window) calls _ order span span
            (omega (arith, small)) left in
        ground (arith, told, rest)
