-- ===== src/Redis/Idempotency.antt =====
-- `RedisIdempotencyStore` of src/evenkeel/infrastructure/adapters/redis/idempotency.py. A script is
-- one step of the server. `fault` is what the client raises instead of running a command.
pub mod Refines
pub mod Stored
pub mod Replies
use Prim.Native.String.{String}
use evenkeel.Prelude.{
  ℕ, ◌*◌, Bool, true, false, not, ◌&&◌, ◌||◌, Option, none, some, List, [], ◌∷◌, ◌++◌, ◌==◌,
  if◌then◌else◌,
}
use evenkeel.Prelude.Text.{Text, codes, text_beq}
use evenkeel.Domain.Errors.{Error, Result, ok, err, driver}
use evenkeel.Ports.{
  Receipt, IdempotencyReservation, reserved, in_progress, completed, conflict, reservation,
}
use evenkeel.Memory.Idempotency.{seconds}
use evenkeel.Redis.Keyspace.{Keyspace}
use evenkeel.Redis.Translated.{translated}

-- The JSON object under a key.
pub record Payload : Type 0 where
  pub fingerprint : Text
  pub response : Option Receipt

-- `json.dumps` with sorted keys, and `json.loads`.
pub record Json : Type 0 where
  pub dumps : Payload → Text
  pub loads : Text → Option Payload

-- `string.find` with a plain pattern: whether it is there.
unfoldable pub is_prefix : Text → Text → Bool
is_prefix [] s = true
is_prefix (c ∷ p) [] = false
is_prefix (c ∷ p) (d ∷ s) = c == d && is_prefix p s

unfoldable pub finds : Text → Text → Bool
unfolding is_prefix
finds p [] = is_prefix p []
finds p (c ∷ s) = is_prefix p (c ∷ s) || finds p s

-- `_key`
unfoldable pub idem_key : Text → Text
idem_key key = codes "idem:" ++ key

module _ {R : Type 0} (server : Keyspace R) (json : Json) where
  -- `_RESERVE_SCRIPT`: its answer is a word or the text that is there.
  reserve_found : ℕ → Text → Text → ℕ → Option Text → R → Text × R
  reserve_found now k claim ttl none r = (codes "reserved", server.set now k claim (seconds ttl) r)
  reserve_found now k claim ttl (some existing) r = (existing, r)

  unfoldable pub reserve_script : ℕ → Text → Text → ℕ → R → Text × R
  unfolding reserve_found
  reserve_script now k claim ttl r = reserve_found now k claim ttl (server.get now k r) r

  -- `_RELEASE_SCRIPT`
  release_found : ℕ → Text → Option Text → R → R
  release_found now k none r = r
  release_found now k (some existing) r =
      if finds (codes "\"response\"") existing then r else server.del now k r

  unfoldable pub release_script : ℕ → Text → R → R
  unfolding release_found
  release_script now k r = release_found now k (server.get now k r) r

  -- The answer about a payload.
  payload_answer : Text → Text → Payload → Option Receipt → IdempotencyReservation
  payload_answer key fingerprint p response =
      if not (text_beq p.fingerprint fingerprint) then reservation conflict else elim response [
        | none ↦ reservation in_progress
        | some r ↦ record {
          outcome = completed;
          stored = some (record { key = key; fingerprint = p.fingerprint; response = r });
        }
      ]

  loaded_answer : Text → Text → Option Payload → Result IdempotencyReservation
  unfolding payload_answer
  loaded_answer key fingerprint none = err (driver "JSONDecodeError")
  loaded_answer key fingerprint (some p) = ok (payload_answer key fingerprint p p.response)

  -- The answer to the script's.
  unfoldable pub answered : Text → Text → Text → Result IdempotencyReservation
  unfolding loaded_answer
  answered key fingerprint result =
      if text_beq result (codes "reserved")
      then ok (reservation reserved)
      else loaded_answer key fingerprint (json.loads result)

  abbrev pub claim_of : Text → Payload
  claim_of fingerprint = record { fingerprint = fingerprint; response = none }

  reserve_reached : ℕ → Text → Text → ℕ → R → Result IdempotencyReservation × R
  unfolding answered
  reserve_reached now key fingerprint ttl r =
      let (result, r') =
        reserve_script now (idem_key key) (json.dumps (claim_of fingerprint)) ttl r in
      (answered key fingerprint result, r')

  -- What `confirm` writes over the payload that it found.
  confirm_loaded : ℕ → Text → Receipt → ℕ → Option Payload → R → Result (Unit {0}) × R
  confirm_loaded now k response ttl none r = (err (driver "JSONDecodeError"), r)
  confirm_loaded now k response ttl (some p) r =
      (ok tt, server.set now k (json.dumps (record p { response = some response })) (seconds ttl) r)

  confirm_found : ℕ → Text → Receipt → ℕ → Option Text → R → Result (Unit {0}) × R
  unfolding confirm_loaded
  confirm_found now k response ttl none r = (ok tt, r)
  confirm_found now k response ttl (some raw) r =
      confirm_loaded now k response ttl (json.loads raw) r

  module _ (is_redis : String → Bool) where
    -- `reserve`
    unfoldable pub reserve :
        ℕ → Option Error → Text → Text → ℕ → R → Result IdempotencyReservation × R
    unfolding reserve_reached
    reserve now fault key fingerprint ttl r =
        if ttl == 0
        then (ok (reservation reserved), r)
        else translated is_redis "idempotency.reserve" fault
            (reserve_reached now key fingerprint ttl r) r

    -- `confirm`: a read and then a write of what was read, here with nothing of another client in
    -- between.
    unfoldable pub confirm : ℕ → Option Error → Text → Receipt → ℕ → R → Result (Unit {0}) × R
    unfolding confirm_found
    confirm now fault key response ttl r =
        if ttl == 0
        then (ok tt, r)
        else translated is_redis "idempotency.confirm" fault
            (confirm_found now (idem_key key) response ttl (server.get now (idem_key key) r) r) r

    -- `release`
    unfoldable pub release : ℕ → Option Error → Text → R → Result (Unit {0}) × R
    release now fault key r =
        translated is_redis "idempotency.release" fault (ok tt, release_script now (idem_key key) r)
          r
