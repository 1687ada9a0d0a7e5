-- ===== src/Ports/Polling/Ended.antt =====
-- How the loop of the entries that try again until a deadline ends.
use evenkeel.Prelude.{
  ℕ, zero, suc, ◌+◌, ◌<◌, ◌≤◌, ◌≡◌, ◌⊎◌, refl, inl, inr, Bool, true, false, Bool-cases, Option,
  some, leb, arith, ap, sym, ◌∙◌,
}
use mathlib.Core.Path.{subst}
use evenkeel.Domain.Errors.{Error, Result, ok, err}
use evenkeel.Ports.Polling.{poll, wait_entry}

tried_cases : (a : Result Bool) → (a ≡ ok true) ⊎ (a ≡ ok false) ⊎ ((e : Error) × (a ≡ err e))
tried_cases (ok true) = inl refl
tried_cases (ok false) = inr (inl refl)
tried_cases (err e) = inr (inr (e, refl))

module _ {R : Type 0} (monotonic : ℕ → ℕ) (try_once : ℕ → R → Result Bool × R) (others : ℕ → R → R)
    (deadline : ℕ) where
  -- From one round and state to a later one, through rounds that were refused before the deadline,
  -- with what the others did after each.
  pub data Waited : ℕ → R → ℕ → R → Type 0 where
    here : (round : ℕ) (r : R) → Waited round r round r
    again :
        (round last : ℕ) (r s : R)
        → (try_once round r).0 ≡ ok false
        → monotonic round < deadline
        → Waited (round + 1) (others round (try_once round r).1) last s
        → Waited round r last s

  -- Why a round is the last: it was granted, it failed, or it was refused at or after the deadline.
  abbrev pub Stops : ℕ → Result Bool → Type 0
  Stops last (ok true) = Unit {0}
  Stops last (ok false) = deadline ≤ monotonic last
  Stops last (err e) = Unit {0}

  -- The outcome is that of a last round, waited for.
  abbrev pub Over : ℕ → R → Option (Result Bool) × R → Type 0
  Over round r (a, r') =
      (last : ℕ) × (s : R) × Waited round r last s
      × (a ≡ some (try_once last s).0)
      × (r' ≡ (try_once last s).1)
      × Stops last (try_once last s).0

  longer :
      (round : ℕ) (r : R) (x : Option (Result Bool) × R)
      → (try_once round r).0 ≡ ok false
      → monotonic round < deadline
      → Over (round + 1) (others round (try_once round r).1) x
      → Over round r x
  longer round r x refused early (last, s, waited, answer, left, stops) =
      (last, s, again round last r s refused early waited, answer, left, stops)

  last-Over :
      (round : ℕ) (r : R) (x : Option (Result Bool) × R) (a : Result Bool)
      → (try_once round r).0 ≡ a
      → Stops round a
      → x ≡ (some a, (try_once round r).1)
      → Over round r x
  last-Over round r x a tried stops e = (
    round,
    r,
    here round r,
    ap (λ (y : Option (Result Bool) × R). y.0) e ∙ ap some (sym tried),
    ap (λ (y : Option (Result Bool) × R). y.1) e,
    subst (Stops round) (sym tried) stops,
  )

  -- A round, from what is so of the rounds after it.
  round-Over :
      (fuel round : ℕ) (r : R)
      → (leb deadline (monotonic round) ≡ false
          → Over (round + 1) (others round (try_once round r).1) (
              poll monotonic try_once others deadline fuel
                (round + 1)
                (others round (try_once round r).1)))
      → Over round r (poll monotonic try_once others deadline (suc fuel) round r)
  unfolding poll
  round-Over fuel round r rest = elim (tried_cases (try_once round r).0) [
    | inl granted ↦ last-Over round r _ (ok true) granted tt (rw (poll, granted) refl)
    | inr (inr (e, failed)) ↦ last-Over round r _ (err e) failed tt (rw (poll, failed) refl)
    | inr (inl refused) ↦ elim (Bool-cases (leb deadline (monotonic round))) [
      | inl late ↦
          let reached : deadline ≤ monotonic round = ground (arith, late) in
          last-Over round r _ (ok false) refused reached (rw (poll, refused, late) refl)
      | inr early ↦
          rw (poll, refused, early) (longer round r _ refused (ground (arith, early)) (rest early))
    ]
  ]

  poll-Over :
      (fuel round : ℕ) (r : R)
      → ((n : ℕ) → monotonic n < monotonic (n + 1))
      → deadline < monotonic round + fuel
      → Over round r (poll monotonic try_once others deadline (suc fuel) round r)
  poll-Over zero round r ahead enough =
      round-Over zero round r (λ early. absurd (ground (arith, early, enough)))
  poll-Over (suc fuel) round r ahead enough = round-Over (suc fuel) round r (λ early.
      let next = ahead round in poll-Over fuel (round + 1) _ ahead (omega (arith, next, enough)))

module _ {R : Type 0} (monotonic : ℕ → ℕ) (try_once : ℕ → R → Result Bool × R)
    (others : ℕ → R → R) where
  -- On a clock that goes on from one round to the next, an entry with more rounds than its waiting
  -- time ends, and it ends as a last round does: one that was granted, or that failed, or that was
  -- refused with the clock at the deadline or past it, where every round before it was refused with
  -- the clock before the deadline; the store is left as the last round left it.
  pub wait_entry-Over :
      (wait fuel : ℕ) (r : R)
      → ((n : ℕ) → monotonic n < monotonic (n + 1))
      → wait + 1 < fuel
      → Over monotonic try_once others
          (monotonic 0 + wait)
          0
          r
          (wait_entry monotonic try_once others wait fuel r)
  unfolding wait_entry
  wait_entry-Over wait zero r ahead enough = absurd (omega (arith, enough))
  wait_entry-Over wait (suc fuel) r ahead enough =
      poll-Over monotonic try_once others (monotonic 0 + wait) fuel 0 r ahead
        (omega (arith, enough))
