-- ===== src/Application/Movement/Done.antt =====
-- What the end of a call of the service has done: the movement as it is written, the giving up of
-- one, and the receipt, whatever the store raises.
use evenkeel.Prelude.{ℕ, ◌≡◌, ◌⊎◌, refl, inl, Bool, true, false, Option, none, some, if_holds}
use evenkeel.Prelude.Text.{Text}
use evenkeel.Domain.Errors.{Error, Result, ok, err, is_exception}
use evenkeel.Domain.Money.{Unicode, Money}
use evenkeel.Domain.Wallet.{Uuid, Instant, Wallet}
use evenkeel.Domain.Ledger.{record_entry}
use evenkeel.Sqla.Tables.{Tables, Database}
use evenkeel.Sqla.Wallets
use evenkeel.Sqla.Entries
use evenkeel.Application.Action.{Action}
use evenkeel.Application.Triple.{Post, Triple, Keeps, triple_bind, triple_pure, triple_weaken}
use evenkeel.Application.Movement.{
  Payload, MovementSettings, MovementRequest, MovementOutcome, move, outcome_of, release_key,
  release_request, abandon, confirm_key, confirm_settled, scoped_key,
}
use evenkeel.Application.Movement.Wired.{World, Outside, outside, wired}
use evenkeel.Application.Movement.Frames.{Committed, outside-Keeps, rollback_triple}

-- A movement as it is written: from the tables at its start to those it commits.
pub record Written (u : Unicode) (is_space : ℕ → Bool) (r : MovementRequest) (t : Tables)
    (o : MovementOutcome) (t' : Tables) : Type 0 where
  pub loaded : Wallet
  pub stamp : Instant
  pub balance_after : Money
  pub entry_id : Uuid
  pub between : Tables
  pub read : Wallets.read u r.wallet_id r.owner_id t ≡ ok (some loaded)
  pub changed : move r.direction loaded r.amount stamp ≡ ok (o.wallet, balance_after)
  pub entry :
      o.entry
      ≡ record_entry is_space entry_id o.wallet.id r.direction r.amount balance_after r.description
          stamp
  pub added : Entries.add o.entry t ≡ ok between
  pub updated : Wallets.update o.wallet loaded.version between ≡ ok (true, t')
  pub fresh : o.replayed ≡ false
  pub balance : o.balance ≡ o.wallet.balance

module _ {X : Type 0} (u : Unicode) (out : Outside X) (settings : MovementSettings)
    (digest : Payload → Text) (is_space : ℕ → Bool) where
  release-Keeps :
      (D : Database → Type 0) (r : MovementRequest)
      → Keeps (λ w. D w.database) (release_request (wired u out) settings digest is_space r)
  unfolding release_request wired
  release-Keeps D r = go r.idempotency_key
    where
      go :
          (k : Option Text)
          → Keeps
              (λ (w : World X). D w.database)
              (release_key (wired u out) settings digest is_space r.owner_id k)
      go none =
          triple_pure (λ w. D w.database) tt (λ _ w. D w.database) (λ w. D w.database) (λ w h. h)
      go (some key) = outside-Keeps D _

  -- A movement that is given up raises, and has committed nothing.
  abandon_triple :
      {A : Type 0} (t : Tables) (r : MovementRequest) (e : Error) (Q : A → World X → Type 0)
      → Triple (Committed t) (abandon (wired u out) settings digest is_space r e) Q (Committed t)
  unfolding abandon wired
  abandon_triple t r e Q =
      triple_bind (Committed t) _ (λ _. Committed t) _ Q (Committed t) (rollback_triple t out.fault)
        (λ _.
          triple_bind (Committed t) _ (λ _. Committed t) _ Q (Committed t)
            (release-Keeps (λ d. d.committed ≡ t) r) (λ _. record { at = λ w h. h }))

  -- A receipt was not stored, since the store raised what is no `Exception`.
  abbrev pub Interrupted : MovementRequest → MovementOutcome → Type 0
  Interrupted r o =
      (key : Text) × (x : X) × (e : Error) × (r.idempotency_key ≡ some key)
      × ((out.confirm (scoped_key r.owner_id key)
            (record { entry_id = o.entry.id; wallet_id = o.wallet.id }) settings.idempotency_ttl
            x).0
          ≡ err e)
      × (is_exception e ≡ false)

  settled-Post :
      (D : Database → Type 0) (I : Type 0) (result : Result (Unit {0})) (w : World X)
      → ((e : Error) → result ≡ err e → is_exception e ≡ false → I)
      → D w.database
      → Post
          (λ (a : Unit {0}) (v : World X). D v.database)
          (λ v. D v.database × I)
          (confirm_settled (wired u out) settings digest is_space result w)
  unfolding confirm_settled wired
  settled-Post D I (ok a) w f h = h
  settled-Post D I (err e) w f h =
      if_holds (Post (λ (a : Unit {0}) (v : World X). D v.database) (λ v. D v.database × I))
        (is_exception e) (λ _. h) (λ other. (h, f e refl other))

  -- The receipt touches no table, and raises only what is no `Exception` and what the store raised.
  pub confirm_triple :
      (D : Database → Type 0) (r : MovementRequest) (o : MovementOutcome)
      → Triple
          (λ w. D w.database)
          (confirm_key
            (wired u out)
            settings
            digest
            is_space
            r.owner_id
            o.wallet
            o.entry
            r.idempotency_key)
          (λ _ w. D w.database)
          (λ w. D w.database × Interrupted r o)
  unfolding confirm_key wired outside
  confirm_triple D r o = go r.idempotency_key refl
    where
      go :
          (k : Option Text)
          → r.idempotency_key ≡ k
          → Triple
              (λ (w : World X). D w.database)
              (confirm_key (wired u out) settings digest is_space r.owner_id o.wallet o.entry k)
              (λ _ w. D w.database)
              (λ w. D w.database × Interrupted r o)
      go none same = record { at = λ w h. h }
      go (some key) same = record {
        at = λ w h.
            settled-Post D (Interrupted r o) _ _
              (λ e raised other. (key, w.outside, e, same, raised, other)) h;
      }

  -- The outcome of a movement that was not replayed.
  abbrev pub written_as : MovementRequest → Uuid → Wallet → Money → Instant → MovementOutcome
  written_as r id wallet balance_after now =
      outcome_of wallet
        (record_entry is_space id wallet.id r.direction r.amount balance_after r.description now)
        false wallet.balance

  abbrev pub Done : MovementRequest → Tables → MovementOutcome → World X → Type 0
  Done r t o w = Written u is_space r t o w.database.committed

  -- What a raise in the write path has done: nothing, or, where the receipt was interrupted, the
  -- movement.
  abbrev pub Broken : MovementRequest → Tables → World X → Type 0
  Broken r t w = Committed t w ⊎ ((o : MovementOutcome) × Done r t o w × Interrupted r o)

  -- A raise that has committed nothing is one of them.
  pub calmly :
      {A : Type 0} (t : Tables) (r : MovementRequest) (P : World X → Type 0)
      (m : Action (World X) A) (Q : A → World X → Type 0)
      → Triple P m Q (Committed t)
      → Triple P m Q (Broken r t)
  calmly t r P m Q h =
      triple_weaken P P m Q Q (Committed t) (Broken r t) (λ w p. p) (λ a w q. q) (λ w e. inl e) h

  pub abandon-Broken :
      {A : Type 0} (t : Tables) (r : MovementRequest) (e : Error) (Q : A → World X → Type 0)
      → Triple (Committed t) (abandon (wired u out) settings digest is_space r e) Q (Broken r t)
  abandon-Broken t r e Q = calmly t r (Committed t) _ Q (abandon_triple t r e Q)
