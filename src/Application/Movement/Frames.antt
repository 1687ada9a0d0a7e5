-- ===== src/Application/Movement/Frames.antt =====
-- What one call of a port does to the database.
use evenkeel.Prelude.{◌≡◌, refl, ap, sym}
use evenkeel.Domain.Errors.{Error, Result, ok, err, ◌>>=◌ as bind_result}
use evenkeel.Sqla.Tables.{Tables, Database, rollback}
use evenkeel.Application.Action.{Action}
use evenkeel.Application.Triple.{Post, Triple, Keeps, triple_bind, triple_weaken}
use evenkeel.Application.Movement.Wired.{World, outside, ran, statement, session, query, command}

module _ {X : Type 0} where
  -- Committed tables and those of the open transaction.
  abbrev pub Pending : Tables → Tables → World X → Type 0
  Pending t t' w = w.database ≡ record { committed = t; working = t' }

  abbrev pub Committed : Tables → World X → Type 0
  Committed t w = w.database.committed ≡ t

  outside-Post :
      {A : Type 0} (D : Database → Type 0) (d : Database) (r : Result A) (x : X)
      → D d
      → Post
          (λ (a : A) (w : World X). D w.database)
          (λ w. D w.database)
          (r, record { database = d; outside = x })
  outside-Post D d (ok a) x h = h
  outside-Post D d (err e) x h = h

  -- An adapter outside the database keeps whatever holds of the database.
  pub outside-Keeps :
      {A : Type 0} (D : Database → Type 0) (m : Action X A) → Keeps (λ w. D w.database) (outside m)
  unfolding outside
  outside-Keeps D m = record {
    at = λ w h. let (r, x) = m w.outside in outside-Post D w.database r x h;
  }

  raising-Post :
      {A : Type 0} (D : Database → Type 0) (d : Database) (m : Action X A) (x : X) (r : Result A)
      (y : X)
      → m x ≡ (r, y)
      → D d
      → Post
          (λ (a : A) (w : World X). D w.database)
          (λ w. D w.database × ((s : X) × (e : Error) × (m s ≡ (err e, w.outside))))
          (r, record { database = d; outside = y })
  raising-Post D d m x (ok a) y e h = h
  raising-Post D d m x (err f) y e h = (h, (x, f, e))

  -- An adapter that raises is the last that has happened.
  pub outside_raising :
      {A : Type 0} (D : Database → Type 0) (m : Action X A)
      → Triple
          (λ w. D w.database)
          (outside m)
          (λ _ w. D w.database)
          (λ w. D w.database × ((s : X) × (e : Error) × (m s ≡ (err e, w.outside))))
  unfolding outside
  outside_raising D m = record {
    at = λ w h. raising-Post D w.database m w.outside (m w.outside).0 (m w.outside).1 refl h;
  }

  pub outside_frame :
      {A : Type 0} (m : Action X A) (w w' : World X) {x : Result A}
      → outside m w ≡ (x, w')
      → w'.database.committed ≡ w.database.committed
  unfolding outside
  outside_frame {A = A} m w w' h = sym (ap (λ (y : Result A × World X). y.1.database.committed) h)

  pub Pending-Committed : (t t' : Tables) (w : World X) → Pending t t' w → Committed t w
  Pending-Committed t t' w h = ap (λ (d : Database). d.committed) h

  -- It leaves an open transaction pending, and a raise of it the committed tables.
  pub outside_calm :
      {A : Type 0} (t t' : Tables) (m : Action X A)
      → Triple (Pending t t') (outside m) (λ _. Pending t t') (Committed t)
  outside_calm t t' m =
      triple_weaken (Pending t t') (Pending t t') (outside m) (λ _. Pending t t')
        (λ _. Pending t t') (Pending t t') (Committed t) (λ w h. h) (λ a w h. h)
        (Pending-Committed t t') (outside-Keeps (λ d. d ≡ record { committed = t; working = t' }) m)

  -- What a statement has done when it returns.
  abbrev pub Ran :
      {A : Type 0} → Tables → Tables → (Tables → Result (A × Tables)) → A → World X → Type 0
  Ran t t' run a w = (t'' : Tables) × (run t' ≡ ok (a, t'')) × Pending t t'' w

  ran-Post :
      {A : Type 0} (t t' : Tables) (run : Tables → Result (A × Tables)) (r : Result (A × Tables))
      (w : World X)
      → run t' ≡ r
      → Pending t t' w
      → Post (Ran t t' run) (Committed t) (ran r w)
  unfolding ran
  ran-Post t t' run (ok (a, t'')) w e h =
      (t'', e, ap (λ (d : Database). record d { working = t'' }) h)
  ran-Post t t' run (err x) w e h = Pending-Committed t t' w h

  -- A statement is run on the working tables; a raise leaves the committed ones.
  pub statement_triple :
      {A : Type 0} (t t' : Tables) (fault : Action X (Unit {0}))
      (run : Tables → Result (A × Tables))
      → Triple (Pending t t') (statement fault run) (Ran t t' run) (Committed t)
  unfolding statement
  statement_triple t t' fault run =
      triple_bind (Pending t t') (outside fault) (λ _. Pending t t') _ (Ran t t' run) (Committed t)
        (outside_calm t t' fault)
        (λ _. record {
          at = λ w h.
              ran-Post t t' run (run w.database.working) w
                (ap (λ (d : Database). run d.working) (sym h)) h;
        })

  pub session_triple :
      (t t' : Tables) (fault : Action X (Unit {0})) (f : Database → Database)
      → Triple
          (Pending t t')
          (session fault f)
          (λ _ w. w.database ≡ f (record { committed = t; working = t' }))
          (Committed t)
  unfolding session
  session_triple t t' fault f =
      triple_bind (Pending t t') (outside fault) (λ _. Pending t t') _ _ (Committed t)
        (outside_calm t t' fault) (λ _. record { at = λ w h. ap f h })

  pub rollback_triple :
      (t : Tables) (fault : Action X (Unit {0})) → Keeps (Committed t) (session fault rollback)
  unfolding session rollback
  rollback_triple t fault =
      triple_bind (Committed t) (outside fault) (λ _. Committed t) _ (λ _. Committed t)
        (Committed t) (outside-Keeps (λ d. d.committed ≡ t) fault) (λ _. record { at = λ w h. h })

-- What a query or a command that returned has done.
pub query_inv :
    {A : Type 0} (run : Tables → Result A) (t t' : Tables) (a : A)
    → query run t ≡ ok (a, t')
    → (run t ≡ ok a) × (t' ≡ t)
query_inv {A} run t t' a = go (run t)
  where
    go :
        (r : Result A)
        → bind_result {B = A × Tables} r (λ b. ok (b, t)) ≡ ok (a, t')
        → (r ≡ ok a) × (t' ≡ t)
    go (ok b) h = (cc h, cc h)
    go (err e) h = cc h

pub command_inv :
    (run : Tables → Result Tables) (t t' : Tables) (a : Unit {0})
    → command run t ≡ ok (a, t')
    → run t ≡ ok t'
command_inv run t t' a = go (run t)
  where
    go :
        (r : Result Tables)
        → bind_result {B = Unit {0} × Tables} r (λ s. ok (tt, s)) ≡ ok (a, t')
        → r ≡ ok t'
    go (ok s) h = cc h
    go (err e) h = cc h
