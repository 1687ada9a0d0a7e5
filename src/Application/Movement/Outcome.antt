-- ===== src/Application/Movement/Outcome.antt =====
-- The whole call: the claim, the lock around the write path, and what is committed in each case.
use evenkeel.Prelude.{
  ℕ, ◌≡◌, ◌≢◌, refl, ap, sym, ◌⊎◌, inl, inr, Bool, true, Option, none, some, arith,
}
use mathlib.Core.Path.{subst}
use evenkeel.Prelude.Text.{Text}
use evenkeel.Domain.Errors.{Error, Result, ok, err, is_exception}
use evenkeel.Ports.{Receipt}
use evenkeel.Domain.Money.{Unicode}
use evenkeel.Sqla.Tables.{Tables}
use evenkeel.Application.Triple.{Post, Triple, triple_bind, triple_weaken, triple_finally}
use evenkeel.Application.Movement.{
  Payload, MovementSettings, MovementRequest, MovementOutcome, lock_key, with_lock, under_lock,
  apply_claimed, apply, claim,
}
use evenkeel.Application.Movement.Wired.{World, Outside, outside, wired}
use evenkeel.Application.Movement.Frames.{
  Pending, Committed, outside-Keeps, outside_raising, outside_frame, outside_calm,
}
use evenkeel.Application.Movement.Done.{Written, Done, Interrupted, Broken}
use evenkeel.Application.Movement.Atomic.{under_lock_triple}
use evenkeel.Application.Movement.Claims.{Claimed, claim_triple}

-- What a call that returned has done: a replay nothing, any other call its one movement.
abbrev pub Returned :
    {X : Type 0}
    → Unicode
    → (ℕ → Bool)
    → MovementRequest
    → Tables
    → MovementOutcome
    → World X
    → Type 0
Returned u is_space r t o w =
    ((o.replayed ≡ true) × (w.database.committed ≡ t))
    ⊎ Written u is_space r t o w.database.committed

pub no_raise : (e : Error) (x : Result (Unit {0})) → x ≡ ok tt → x ≢ err e
no_raise e x fine raised = cc (fine, raised)

module _ {X : Type 0} (u : Unicode) (out : Outside X) (settings : MovementSettings)
    (digest : Payload → Text) (is_space : ℕ → Bool) where
  -- The exit of the lock raised, and that is the last that has happened.
  abbrev pub LockRaised : MovementRequest → World X → Type 0
  LockRaised r w =
      (acquired : Bool) × (x : X) × (e : Error) × (out.exit_lock (lock_key r.wallet_id) acquired x
        ≡ (err e, w.outside))

  -- What a call that raised has done: nothing, or the movement, whose receipt was then interrupted
  -- or after which the exit of the lock raised.
  abbrev pub Raised : MovementRequest → Tables → World X → Type 0
  Raised r t w =
      (w.database.committed ≡ t)
      ⊎ ((o : MovementOutcome) × Written u is_space r t o w.database.committed
          × (Interrupted u out settings digest is_space r o ⊎ LockRaised r w))

  Broken-Raised :
      (t : Tables) (r : MovementRequest) (w : World X)
      → Broken u out settings digest is_space r t w
      → Raised r t w
  Broken-Raised t r w (inl same) = inl same
  Broken-Raised t r w (inr (o, written, interrupted)) = inr (o, written, inl interrupted)

  -- The exit of the lock, after the write path returned and after it raised.
  exit-Done :
      (t : Tables) (r : MovementRequest) (acquired : Bool) (o : MovementOutcome)
      → Triple
          (Done u out settings digest is_space r t o)
          (outside (out.exit_lock (lock_key r.wallet_id) acquired))
          (λ _. Done u out settings digest is_space r t o)
          (Raised r t)
  exit-Done t r acquired o =
      let Q = Done u out settings digest is_space r t o in
      triple_weaken Q Q _ (λ _. Q) (λ _. Q) _ (Raised r t) (λ w h. h) (λ a w h. h)
        (λ w (written, (s, e, raised)). inr (o, written, inr (acquired, s, e, raised)))
        (outside_raising (λ d. Written u is_space r t o d.committed) _)

  exit-Raised :
      (t : Tables) (r : MovementRequest) (acquired : Bool)
      → Triple
          (Broken u out settings digest is_space r t)
          (outside (out.exit_lock (lock_key r.wallet_id) acquired))
          (λ _. Raised r t)
          (Raised r t)
  exit-Raised t r acquired =
      let B = Broken u out settings digest is_space r t in
      triple_weaken B B _ (λ _. B) (λ _. Raised r t) B (Raised r t) (λ w h. h)
        (λ a w h. Broken-Raised t r w h) (Broken-Raised t r)
        (outside-Keeps
          (λ d.
            (d.committed ≡ t)
            ⊎ ((o : MovementOutcome) × Written u is_space r t o d.committed
                × Interrupted u out settings digest is_space r o))
          _)

  with_lock_triple :
      (t : Tables) (r : MovementRequest)
      → Triple
          (Pending t t)
          (with_lock (wired u out) settings digest is_space r)
          (Done u out settings digest is_space r t)
          (Raised r t)
  unfolding with_lock wired
  with_lock_triple t r =
      let enter = out.enter_lock (lock_key r.wallet_id) settings.lock_ttl settings.lock_wait in
      let Q = Done u out settings digest is_space r t in
      triple_bind (Pending t t) (outside enter) (λ _. Pending t t) _ Q (Raised r t)
        (triple_weaken (Pending t t) (Pending t t) _ (λ _. Pending t t) (λ _. Pending t t)
          (Committed t) (Raised r t) (λ w h. h) (λ a w h. h) (λ w h. inl h)
          (outside_calm t t enter))
        (λ acquired.
          triple_finally (Pending t t) _ (outside (out.exit_lock (lock_key r.wallet_id) acquired)) Q
            (Broken u out settings digest is_space r t) (Raised r t)
            (under_lock_triple u out settings digest is_space t r acquired) (exit-Done t r acquired)
            (exit-Raised t r acquired))

  -- Every call that begins on a fresh session either commits nothing or commits exactly its one
  -- movement: a return that is no replay has committed it, and a raise has committed nothing
  -- unless, after the commit, the exit of the lock raised, or the store raised what is no
  -- `Exception`, a cancellation, say, instead of keeping the receipt.
  pub apply_triple :
      (t : Tables) (r : MovementRequest)
      → Triple
          (Pending t t)
          (apply (wired u out) settings digest is_space r)
          (Returned u is_space r t)
          (Raised r t)
  unfolding apply apply_claimed
  apply_triple t r =
      triple_bind (Pending t t) (claim (wired u out) settings digest is_space r)
        (Claimed u out settings digest is_space t) _ (Returned u is_space r t) (Raised r t)
        (triple_weaken (Pending t t) (Pending t t) _ (Claimed u out settings digest is_space t)
          (Claimed u out settings digest is_space t) (Committed t) (Raised r t) (λ w h. h)
          (λ a w h. h) (λ w h. inl h) (claim_triple u out settings digest is_space t r))
        go
    where
      go :
          (x : Option MovementOutcome)
          → Triple
              (Claimed u out settings digest is_space t x)
              (apply_claimed (wired u out) settings digest is_space r x)
              (Returned u is_space r t)
              (Raised r t)
      go none =
          triple_weaken (Pending t t) (Pending t t) _ (Done u out settings digest is_space r t)
            (Returned u is_space r t) (Raised r t) (Raised r t) (λ w h. h) (λ a w h. inr h)
            (λ w h. h) (with_lock_triple t r)
      go (some o) = record { at = λ w h. inl h }

  -- Where the exit of the lock never raises, and the store raises only what is an `Exception` when
  -- it is to keep a receipt, a call on a fresh session that raises has committed nothing, and one
  -- that returns without replaying has committed exactly its movement.
  pub apply_quiet_triple :
      (t : Tables) (r : MovementRequest)
      → ((key : Text) (acquired : Bool) (x : X) → (out.exit_lock key acquired x).0 ≡ ok tt)
      → ((key : Text) (receipt : Receipt) (ttl : ℕ) (x : X) (e : Error)
          → (out.confirm key receipt ttl x).0 ≡ err e
          → is_exception e ≡ true)
      → Triple
          (Pending t t)
          (apply (wired u out) settings digest is_space r)
          (Returned u is_space r t)
          (Committed t)
  apply_quiet_triple t r quiet caught =
      triple_weaken (Pending t t) (Pending t t) _ (Returned u is_space r t)
        (Returned u is_space r t) (Raised r t) (Committed t) (λ w h. h) (λ a w h. h)
        (λ w h. elim h [
          | inl same ↦ same
          | inr (o, written, inl (key, x, e, named, raised, other)) ↦
              let yes = caught _ _ _ x e raised in absurd (ground (arith, yes, other))
          | inr (o, written, inr (acquired, x, e, raised)) ↦
              let fine = quiet (lock_key r.wallet_id) acquired x in
              absurd (no_raise e _ fine (ap (λ (y : Result (Unit {0}) × X). y.0) raised))
        ])
        (apply_triple t r)

  -- Where the write path, begun on a fresh session, has returned and the exit of the lock then
  -- raises, the call raises that error, and the movement stays committed.
  pub with_lock_raises :
      (t : Tables) (r : MovementRequest) (acquired : Bool) (o : MovementOutcome) (e : Error)
      (w w₁ w₂ w₃ : World X)
      → Pending t t w₁
      → outside (out.enter_lock (lock_key r.wallet_id) settings.lock_ttl settings.lock_wait) w
        ≡ (ok acquired, w₁)
      → under_lock (wired u out) settings digest is_space r acquired w₁ ≡ (ok o, w₂)
      → outside (out.exit_lock (lock_key r.wallet_id) acquired) w₂ ≡ (err e, w₃)
      → ((with_lock (wired u out) settings digest is_space r w).0 ≡ err e)
        × Written u is_space r t o
            (with_lock (wired u out) settings digest is_space r w).1.database.committed
  unfolding with_lock wired
  with_lock_raises t r acquired o e w w₁ w₂ w₃ pending entered done raised =
      let written : Written u is_space r t o w₂.database.committed =
        subst
          (Post (Done u out settings digest is_space r t)
            (Broken u out settings digest is_space r t))
          done ((under_lock_triple u out settings digest is_space t r acquired).at w₁ pending) in
      let kept : w₃.database.committed ≡ w₂.database.committed = outside_frame _ w₂ w₃ raised in
      rw (entered, done, raised) (refl, subst (Written u is_space r t o) (sym kept) written)
