-- ===== src/Jwt/Keys/Served.antt =====
-- Which keys the cache of src/evenkeel/infrastructure/adapters/jwt/keys.py answers with.
use evenkeel.Prelude.{ℕ, ◌+◌, ◌≤◌, ◌≡◌, ◌⊎◌, true, false, Option, none, some}
use evenkeel.Prelude.Text.{Text, text_eq}
use evenkeel.Prelude.Dict.{Dict, lookup}
use evenkeel.Domain.Errors.{Result, ok, err}
use evenkeel.Jwt.Keys.{JwksCache, jwks_unavailable}

-- An instant is no more than a time ago.
abbrev pub Recent : ℕ → ℕ → Option ℕ → Type 0
Recent bound now none = ⊥
Recent bound now (some t) = now ≤ t + bound

-- An instant is not after another, where -inf is before all.
abbrev pub NotAfter : Option ℕ → Option ℕ → Type 0
NotAfter none y = Unit {0}
NotAfter (some x) none = ⊥
NotAfter (some x) (some y) = x ≤ y

module _ {K : Type 0} where
  -- The keys are those of the last attempt, unless it is recorded as failed.
  abbrev pub IsCurrent : JwksCache K → Type 0
  IsCurrent c = (c.last_attempt_failed ≡ true) ⊎ NotAfter c.last_attempt c.fetched_at

  -- What an answer says: a key is in the set, which is recent; no key, that the set of the last
  -- attempt has none; an error, that the last attempt failed.
  abbrev pub Says : ℕ → ℕ → Text → JwksCache K → Result (Option K) → Type 0
  Says bound now kid c (ok (some key)) =
      (lookup kid c.keys ≡ some key) × Recent bound now c.fetched_at
  Says bound now kid c (ok none) =
      (lookup kid c.keys ≡ none)
      × (c.last_attempt_failed ≡ false)
      × NotAfter c.last_attempt c.fetched_at
  Says bound now kid c (err e) = (e ≡ jwks_unavailable) × (c.last_attempt_failed ≡ true)
