-- ===== src/Application/Movement/Preserved.antt =====
-- What `apply` of src/evenkeel/application/services/wallet_movement.py leaves true of the committed
-- tables, on every path.
use evenkeel.Prelude.{ℕ, ◌≡◌, ap, sym, inl, inr, Bool}
use mathlib.Core.Path.{subst}
use evenkeel.Domain.Errors.{Result, ok, err}
use evenkeel.Domain.Money.{Unicode}
use evenkeel.Domain.Money.Laws.{IsMoney}
use evenkeel.Sqla.Tables.{Tables}
use evenkeel.Sqla.Reconciled.{IsReconciled}
use evenkeel.Prelude.Text.{Text}
use evenkeel.Application.Triple.{Post}
use evenkeel.Application.Movement.{
  Payload, MovementSettings, MovementRequest, MovementOutcome, apply,
}
use evenkeel.Application.Movement.Wired.{World, Outside, wired}
use evenkeel.Application.Movement.Frames.{Pending}
use evenkeel.Application.Movement.Done.{Written}
use evenkeel.Application.Movement.Outcome.{Returned, Raised, apply_triple}
use evenkeel.Application.Movement.Books.{written-IsReconciled}

-- What holds of the world after either outcome.
post_world :
    {W A : Type 0} (Q : A → W → Type 0) (E P : W → Type 0)
    → ((a : A) (w : W) → Q a w → P w)
    → ((w : W) → E w → P w)
    → (x : Result A × W) → Post Q E x
    → P x.1
post_world Q E P hq he (ok a, w) h = hq a w h
post_world Q E P hq he (err e, w) h = he w h

module _ {X : Type 0} (u : Unicode) (out : Outside X) (settings : MovementSettings)
    (digest : Payload → Text) (is_space : ℕ → Bool) where
  -- On a session with nothing pending, a call with a validated amount leaves reconciled books
  -- reconciled, whether it returns or raises.
  pub apply-IsReconciled :
      (r : MovementRequest) (w : World X)
      → IsMoney r.amount
      → w.database.working ≡ w.database.committed
      → IsReconciled w.database.committed
      → IsReconciled (apply (wired u out) settings digest is_space r w).1.database.committed
  apply-IsReconciled r w m clean rec =
      let t = w.database.committed in
      let pending : Pending t t w =
        ap (λ (s : Tables). record { committed = t; working = s }) clean in
      let moved : (o : MovementOutcome) (t' : Tables)
          → Written u is_space r t o t'
          → IsReconciled t' =
        λ o t' written. written-IsReconciled u is_space r t t' o written m rec in
      let kept : (w' : World X) → w'.database.committed ≡ t → IsReconciled w'.database.committed =
        λ w' h. subst IsReconciled (sym h) rec in
      post_world (Returned u is_space r t) (Raised u out settings digest is_space r t)
        (λ w'. IsReconciled w'.database.committed)
        (λ o w' h. elim h [
          | inl x ↦ kept w' x.1
          | inr written ↦ moved o w'.database.committed written
        ])
        (λ w' h. elim h [ inl x ↦ kept w' x | inr x ↦ moved x.0 w'.database.committed x.1 ])
        (apply (wired u out) settings digest is_space r w)
        ((apply_triple u out settings digest is_space t r).at w pending)
