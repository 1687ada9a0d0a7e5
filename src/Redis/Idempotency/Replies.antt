-- ===== src/Redis/Idempotency/Replies.antt =====
-- Sequences of calls on the store of src/evenkeel/infrastructure/adapters/redis/idempotency.py and
-- on the one in memory.
use Prim.Native.String.{String}
use evenkeel.Prelude.{ℕ, ◌≡◌, refl, ap, Bool, none, List, [], ◌∷◌, All}
use evenkeel.Domain.Errors.{Error, Result, ok, err}
use evenkeel.Ports.{IdempotencyReservation}
use evenkeel.Memory.Idempotency
use evenkeel.Memory.Idempotency.{Entries}
use evenkeel.Memory.Idempotency.Runs.{Call, reserving, confirming, releasing, step, Within}
use evenkeel.Redis.Keyspace.{Keyspace, IsKeyspace}
use evenkeel.Redis.Idempotency.{Json, reserve, confirm, release}
use evenkeel.Redis.Idempotency.Stored.{IsJson, IsDigest}
use evenkeel.Redis.Idempotency.Refines.{
  Agrees, Agrees-later, reserve_refines, confirm_refines, release_refines,
}

-- What a caller sees of a call.
pub data Reply : Type 0 where
  told : IdempotencyReservation → Reply
  done : Reply
  raised : Error → Reply

abbrev seen {ℓ} : {A : Type ℓ} → (A → Reply) → Result A → Reply
seen f (ok a) = f a
seen f (err e) = raised e

abbrev memory_reply : ℕ → Call → Entries → Reply
memory_reply now (reserving key fingerprint ttl) d =
    told (Idempotency.reserve now key fingerprint ttl d).0
memory_reply now (confirming key response ttl) d = done
memory_reply now (releasing key) d = done

unfoldable pub memory_replies : List (ℕ × Call) → Entries → List Reply
memory_replies [] d = []
memory_replies ((now, c) ∷ calls) d = memory_reply now c d ∷ memory_replies calls (step now c d)

-- The fingerprint that a call reserves with is a digest.
abbrev pub IsDigested : ℕ × Call → Type 0
IsDigested (now, reserving key fingerprint ttl) = IsDigest fingerprint
IsDigested (now, confirming key response ttl) = Unit {0}
IsDigested (now, releasing key) = Unit {0}

module _ {R : Type 0} (server : Keyspace R) (json : Json) (is_redis : String → Bool) where
  abbrev redis_reply : ℕ → Call → R → Reply × R
  redis_reply now (reserving key fingerprint ttl) r =
      let (a, r') = reserve server json is_redis now none key fingerprint ttl r in (seen told a, r')
  redis_reply now (confirming key response ttl) r =
      let (a, r') = confirm server json is_redis now none key response ttl r in
      (seen (λ _. done) a, r')
  redis_reply now (releasing key) r =
      let (a, r') = release server json is_redis now none key r in (seen (λ _. done) a, r')

  unfoldable pub redis_replies : List (ℕ × Call) → R → List Reply
  redis_replies [] r = []
  redis_replies ((now, c) ∷ calls) r =
      let (x, r') = redis_reply now c r in x ∷ redis_replies calls r'

  module _ (keyspace : IsKeyspace server) (codec : IsJson json) where
    step-Agrees :
        (now : ℕ) (c : Call) (d : Entries) (r : R)
        → IsDigested (now, c)
        → Agrees server keyspace json codec is_redis now d r
        → ((redis_reply now c r).0 ≡ memory_reply now c d)
          × Agrees server keyspace json codec is_redis now (step now c d) (redis_reply now c r).1
    unfolding step
    step-Agrees now (reserving key fingerprint ttl) d r digest a =
        let (same, agrees) =
          reserve_refines server keyspace json codec is_redis now d r a key fingerprint ttl
            digest in
        (ap (seen told) same, agrees)
    step-Agrees now (confirming key response ttl) d r digest a =
        let (same, agrees) =
          confirm_refines server keyspace json codec is_redis now d r a key response ttl in
        (ap (seen (λ _. done)) same, agrees)
    step-Agrees now (releasing key) d r digest a =
        let (same, agrees) = release_refines server keyspace json codec is_redis now d r a key in
        (ap (seen (λ _. done)) same, agrees)

    -- Where the server's live keys agree with what the memory store holds at an instant, and the
    -- fingerprints of both that and the calls are hexadecimal digests, every sequence of calls in
    -- the order of the clock is answered by the one store as by the other.
    pub replies_agree :
        (s t : ℕ) (calls : List (ℕ × Call)) (d : Entries) (r : R)
        → Within s t calls
        → All IsDigested calls
        → Agrees server keyspace json codec is_redis s d r
        → redis_replies calls r ≡ memory_replies calls d
    unfolding redis_replies memory_replies
    replies_agree s t [] d r order digested a = refl
    replies_agree s t ((now, c) ∷ calls) d r order digested a =
        let (same, agrees) =
          step-Agrees now c d r digested.0
            (Agrees-later server keyspace json codec is_redis s now d r order.0 a) in
        let rest = replies_agree now t calls (step now c d) _ order.1 digested.1 agrees in
        cc (same, rest)
