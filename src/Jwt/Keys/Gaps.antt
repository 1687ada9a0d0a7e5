-- ===== src/Jwt/Keys/Gaps.antt =====
-- Two ways of src/evenkeel/infrastructure/adapters/jwt/keys.py past what its comments say.
use evenkeel.Prelude.{ℕ, ◌+◌, ◌-◌, ◌<◌, ◌≤◌, ◌≡◌, refl, true, false, none, some, leb, arith}
use evenkeel.Prelude.Text.{Text, text_eq}
use evenkeel.Prelude.Dict.{lookup}
use evenkeel.Domain.Errors.{ok, err, driver}
use evenkeel.Jwt.Keys.{
  JwksPolicy, JwksCache, Fetched, failed, cancelled, jwks_unavailable, reached, is_stale,
  serve_within_grace, refresh, refreshed, get_found, get_locked, get_at_once,
}

module _ {K : Type 0} (policy : JwksPolicy) where
  grace_past :
      (now : ℕ) (key : K) (c : JwksCache K)
      → reached now c.fetched_at policy.max_stale ≡ true
      → serve_within_grace policy now (some key) c ≡ err jwks_unavailable
  unfolding serve_within_grace
  grace_past now key c past = rw past refl

  -- A key past the grace ceiling and the time to live is an outage to the caller whose fetch has
  -- failed, and is given at the same instant, of the same cache, to a caller who comes while a fetch
  -- is in flight.
  pub in_flight_past_ceiling :
      (now : ℕ) (kid : Text) (key : K) (c : JwksCache K)
      → lookup kid c.keys ≡ some key
      → reached now c.fetched_at policy.ttl ≡ true
      → reached now c.fetched_at policy.max_stale ≡ true
      → reached now c.last_attempt policy.min_refresh ≡ true
      → ((get_locked policy now now failed kid c).0 ≡ err jwks_unavailable)
        × (get_at_once policy now true kid c ≡ some key)
  unfolding get_locked get_found is_stale get_at_once refreshed
  in_flight_past_ceiling now kid key c there old past again = (
    rw (there, old, again)
        (grace_past now key (record c { last_attempt = some now; last_attempt_failed = true })
          past),
    rw (there, old) refl,
  )

  -- After a fetch that was cancelled, a key id that is not in the set is answered as one that the
  -- provider does not have, until the refresh floor has passed, whatever the provider would say.
  pub cancelled_denies :
      (now finish later end : ℕ) (fetched : Fetched K) (kid : Text) (c : JwksCache K)
      → lookup kid c.keys ≡ none
      → c.last_attempt_failed ≡ false
      → reached now c.last_attempt policy.min_refresh ≡ true
      → later < now + policy.min_refresh
      → now ≤ later
      → let c' = (get_locked policy now finish cancelled kid c).1 in
        ((get_locked policy now finish cancelled kid c).0 ≡ err (driver "CancelledError"))
        × (get_locked policy later end fetched kid c' ≡ (ok none, c'))
  unfolding get_locked get_found is_stale refreshed refresh
  cancelled_denies now finish later end fetched kid c missing fine again soon after =
      let early : leb policy.min_refresh (later - now) ≡ false = ground (arith, soon, after) in
      rw (missing, again, missing, fine, early) (refl, refl)
