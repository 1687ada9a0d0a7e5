-- ===== src/Jwt/Keys.antt =====
-- `JwksCache` of src/evenkeel/infrastructure/adapters/jwt/keys.py. Instants and durations are in
-- milliseconds, and an instant that is -inf is `none`.
pub mod Served
pub mod Gaps
use Prim.Native.String.{String}
use evenkeel.Prelude.{
  ℕ, ◌-◌, Bool, true, false, not, ◌&&◌, ◌||◌, Option, none, some, [], ◌∷◌, ltb, leb, if◌then◌else◌,
}
use evenkeel.Prelude.Text.{Text, text_eq}
use evenkeel.Prelude.Dict.{Dict, lookup}
use evenkeel.Domain.Errors.{
  Error, Result, ok, err, application, driver, label, dependency_unavailable_error,
  dependency_unavailable,
}

pub record JwksPolicy : Type 0 where
  pub ttl : ℕ
  pub min_refresh : ℕ
  pub max_stale : ℕ

-- The cache, without its lock.
pub record JwksCache (K : Type 0) : Type 0 where
  pub keys : Dict Text K
  pub fetched_at : Option ℕ
  pub last_attempt : Option ℕ
  pub last_attempt_failed : Bool

abbrev pub new_cache : {K : Type 0} → JwksCache K
new_cache = record {
  keys = [];
  fetched_at = none;
  last_attempt = none;
  last_attempt_failed = false;
}

-- `_unavailable`, without its log line.
abbrev pub jwks_unavailable : Error
jwks_unavailable = application (record {
  kind = dependency_unavailable_error;
  code = dependency_unavailable;
  details = ("dependency", label "jwks") ∷ [];
})

-- What the await of `_fetch` comes to: keys, one of the four classes of exceptions that `_refresh`
-- catches, or the cancellation of the task.
pub data Fetched (K : Type 0) : Type 0 where
  answered : Dict Text K → Fetched K
  failed : Fetched K
  cancelled : Fetched K

-- `now - instant >= bound`
abbrev pub reached : ℕ → Option ℕ → ℕ → Bool
reached now none bound = true
reached now (some instant) bound = leb bound (now - instant)

abbrev pub is_held {ℓ} : {A : Type ℓ} → Option A → Bool
is_held none = false
is_held (some a) = true

module _ {K : Type 0} (policy : JwksPolicy) where
  -- `_stale`
  unfoldable pub is_stale : ℕ → JwksCache K → Bool
  is_stale now c = reached now c.fetched_at policy.ttl

  -- `_serve_within_grace`
  unfoldable pub serve_within_grace : ℕ → Option K → JwksCache K → Result (Option K)
  serve_within_grace now none c = err jwks_unavailable
  serve_within_grace now (some key) c =
      if reached now c.fetched_at policy.max_stale then err jwks_unavailable else ok (some key)

  -- `_refresh`, started at one instant and over at another.
  unfoldable pub refresh : ℕ → ℕ → Fetched K → JwksCache K → Result (Unit {0}) × JwksCache K
  refresh now finish (answered keys) c =
      (ok tt, record c { last_attempt = some now; keys = keys; fetched_at = some finish })
  refresh now finish failed c = (err jwks_unavailable, record c { last_attempt = some now })
  refresh now finish cancelled c =
      (err (driver "CancelledError"), record c { last_attempt = some now })

  -- The statements from `try`, by the cached key and how the fetch went. Of the errors of the
  -- refresh only `DependencyUnavailableError` is handled.
  unfoldable pub refreshed :
      ℕ → ℕ → Fetched K → Text → Option K → JwksCache K → Result (Option K) × JwksCache K
  unfolding refresh serve_within_grace
  refreshed now finish (answered keys) kid key c =
      let c' = (refresh now finish (answered keys) c).1 in
      (ok (lookup kid c'.keys), record c' { last_attempt_failed = false })
  refreshed now finish failed kid key c =
      let c' = record (refresh now finish failed c).1 { last_attempt_failed = true } in
      (serve_within_grace finish key c', c')
  refreshed now finish cancelled kid key c =
      (err (driver "CancelledError"), (refresh now finish cancelled c).1)

  -- The statements under the lock, by the cached key.
  unfoldable pub get_found :
      ℕ → ℕ → Fetched K → Text → Option K → JwksCache K → Result (Option K) × JwksCache K
  unfolding is_stale refreshed
  get_found now finish fetched kid key c =
      if is_held key && not (is_stale now c)
      then (ok key, c)
      else if not (reached now c.last_attempt policy.min_refresh)
      then (if c.last_attempt_failed then serve_within_grace now key c else ok key, c)
      else refreshed now finish fetched kid key c

  -- `get` from the lock on, which it holds.
  unfoldable pub get_locked :
      ℕ → ℕ → Fetched K → Text → JwksCache K → Result (Option K) × JwksCache K
  unfolding get_found
  get_locked now finish fetched kid c = get_found now finish fetched kid (lookup kid c.keys) c

  -- `get` before the lock: the key that it returns at once, by whether the lock is held. Otherwise
  -- it goes on with `get_locked` when it has the lock, of the cache as that is then.
  at_once : ℕ → Bool → Option K → JwksCache K → Option K
  at_once now locked none c = none
  at_once now locked (some key) c = if not (is_stale now c) || locked then some key else none

  unfoldable pub get_at_once : ℕ → Bool → Text → JwksCache K → Option K
  unfolding at_once is_stale
  get_at_once now locked kid c = at_once now locked (lookup kid c.keys) c
