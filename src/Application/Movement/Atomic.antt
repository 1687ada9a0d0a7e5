-- ===== src/Application/Movement/Atomic.antt =====
-- What a run of the write path of src/evenkeel/application/services/wallet_movement.py has done to the
-- committed tables, on every path, whatever the other adapters answer or raise.
use evenkeel.Prelude.{ℕ, ◌≡◌, refl, sym, inr, Bool, true, false, Option, none, some}
use mathlib.Core.Path.{subst}
use evenkeel.Prelude.Text.{Text}
use evenkeel.Domain.Errors.{Result, ok, err}
use evenkeel.Domain.Money.{Unicode, Money}
use evenkeel.Domain.Wallet.{Uuid, Instant, Wallet}
use evenkeel.Sqla.Tables.{Tables, Database, commit}
use evenkeel.Sqla.Wallets
use evenkeel.Sqla.Entries
use evenkeel.Application.Action.{pure, ◌>>◌, tell}
use evenkeel.Application.Triple.{Triple, triple_bind, triple_weaken}
use evenkeel.Application.Movement.{
  Payload, MovementSettings, MovementRequest, move, lock_observed, conclude, when_acquired,
  confirm_key, write, moved, locked, apply_locked, under_lock,
}
use evenkeel.Application.Movement.Wired.{
  World, Outside, outside, statement, session, query, command, wired,
}
use evenkeel.Application.Movement.Frames.{
  Pending, Ran, outside_calm, query_inv, command_inv, Pending-Committed, statement_triple,
  session_triple,
}
use evenkeel.Application.Movement.Done.{
  Written, Done, Broken, calmly, confirm_triple, abandon-Broken, written_as,
}

module _ {X : Type 0} (u : Unicode) (out : Outside X) (settings : MovementSettings)
    (digest : Payload → Text) (is_space : ℕ → Bool) where
  module _ (t : Tables) (r : MovementRequest) (loaded : Wallet) (stamp : Instant) (wallet : Wallet)
      (balance_after : Money) (read : Wallets.read u r.wallet_id r.owner_id t ≡ ok (some loaded))
      (changed : move r.direction loaded r.amount stamp ≡ ok (wallet, balance_after)) where
    -- From the commit on only the receipt raises, where it is interrupted.
    settle_triple :
        (id : Uuid) (between t' : Tables)
        → Entries.add
            (written_as u out settings digest is_space r id wallet balance_after stamp).entry
            t
          ≡ ok between
        → Wallets.update wallet loaded.version between ≡ ok (true, t')
        → Triple
            (Pending t t')
            (session out.fault commit
              >> (confirm_key
                    (wired u out)
                    settings
                    digest
                    is_space
                    r.owner_id
                    wallet
                    (written_as u out settings digest is_space r id wallet balance_after
                      stamp).entry
                    r.idempotency_key
                  >> pure
                      (written_as u out settings digest is_space r id wallet balance_after stamp)))
            (Done u out settings digest is_space r t)
            (Broken u out settings digest is_space r t)
    unfolding commit
    settle_triple id between t' added updated =
        let o = written_as u out settings digest is_space r id wallet balance_after stamp in
        let done : Written u is_space r t o t' = record {
          loaded = loaded;
          stamp = stamp;
          balance_after = balance_after;
          entry_id = id;
          between = between;
          read = read;
          changed = changed;
          entry = refl;
          added = added;
          updated = updated;
          fresh = refl;
          balance = refl;
        } in
        let landed : Database → Type 0 = λ d. d ≡ record { committed = t'; working = t' } in
        let landing : (w : World X)
            → landed w.database
            → Done u out settings digest is_space r t o w =
          λ w h. subst (λ (d : Database). Written u is_space r t o d.committed) (sym h) done in
        triple_bind (Pending t t') (session out.fault commit) (λ _ w. landed w.database) _
          (Done u out settings digest is_space r t) (Broken u out settings digest is_space r t)
          (calmly u out settings digest is_space t r (Pending t t') _ (λ _ w. landed w.database)
            (session_triple t t' out.fault commit))
          (λ _.
            triple_bind (λ w. landed w.database) _ (λ _ w. landed w.database) _
              (Done u out settings digest is_space r t) (Broken u out settings digest is_space r t)
              (triple_weaken (λ w. landed w.database) (λ w. landed w.database) _
                (λ _ w. landed w.database) (λ _ w. landed w.database) _
                (Broken u out settings digest is_space r t) (λ w p. p) (λ a w q. q)
                (λ w (h, interrupted). inr (o, landing w h, interrupted))
                (confirm_triple u out settings digest is_space landed r o))
              (λ _. record { at = λ w h. landing w h }))

    conclude_triple :
        (id : Uuid) (between : Tables) (b : Bool)
        → Entries.add
            (written_as u out settings digest is_space r id wallet balance_after stamp).entry
            t
          ≡ ok between
        → Triple
            (Ran t between (Wallets.update wallet loaded.version) b)
            (conclude
              (wired u out)
              settings
              digest
              is_space
              r
              wallet
              (written_as u out settings digest is_space r id wallet balance_after stamp).entry
              b)
            (Done u out settings digest is_space r t)
            (Broken u out settings digest is_space r t)
    unfolding conclude wired
    conclude_triple id between false added = record {
      at = λ w (t', e, h).
          (abandon-Broken u out settings digest is_space t r _
              (Done u out settings digest is_space r t)).at
            w (Pending-Committed t t' w h);
    }
    conclude_triple id between true added = record {
      at = λ w (t', e, h). (settle_triple id between t' added e).at w h;
    }

    -- The entry, the guarded update, and then the commit or the giving up.
    write_triple :
        Triple
          (Pending t t)
          (write (wired u out) settings digest is_space r loaded.version wallet balance_after stamp)
          (Done u out settings digest is_space r t)
          (Broken u out settings digest is_space r t)
    unfolding write wired
    write_triple =
        triple_bind (Pending t t) (outside out.generate) (λ _. Pending t t) _
          (Done u out settings digest is_space r t) (Broken u out settings digest is_space r t)
          (calmly u out settings digest is_space t r (Pending t t) _ (λ _. Pending t t)
            (outside_calm t t out.generate))
          (λ id.
            let run = command (
              Entries.add
                (written_as u out settings digest is_space r id wallet balance_after
                  stamp).entry) in
            triple_bind (Pending t t) (statement out.fault run) (Ran t t run) _
              (Done u out settings digest is_space r t) (Broken u out settings digest is_space r t)
              (calmly u out settings digest is_space t r (Pending t t) _ (Ran t t run)
                (statement_triple t t out.fault run))
              (λ a. record {
                at = λ w (between, e, h).
                    (triple_bind (Pending t between)
                        (statement out.fault (Wallets.update wallet loaded.version))
                        (Ran t between (Wallets.update wallet loaded.version)) _
                        (Done u out settings digest is_space r t)
                        (Broken u out settings digest is_space r t)
                        (calmly u out settings digest is_space t r (Pending t between) _
                          (Ran t between (Wallets.update wallet loaded.version))
                          (statement_triple t between out.fault
                            (Wallets.update wallet loaded.version)))
                        (λ b.
                          conclude_triple id between b
                            (command_inv (Entries.add _) t between a e))).at
                      w h;
              }))

  moved_triple :
      (t : Tables) (r : MovementRequest) (loaded : Wallet) (stamp : Instant)
      (result : Result (Wallet × Money))
      → Wallets.read u r.wallet_id r.owner_id t ≡ ok (some loaded)
      → move r.direction loaded r.amount stamp ≡ result
      → Triple
          (Pending t t)
          (moved (wired u out) settings digest is_space r loaded.version stamp result)
          (Done u out settings digest is_space r t)
          (Broken u out settings digest is_space r t)
  unfolding moved
  moved_triple t r loaded stamp (ok (wallet, balance)) read changed =
      write_triple t r loaded stamp wallet balance read changed
  moved_triple t r loaded stamp (err e) read changed = record {
    at = λ w h.
        (abandon-Broken u out settings digest is_space t r e
            (Done u out settings digest is_space r t)).at
          w (Pending-Committed t t w h);
  }

  locked_triple :
      (t : Tables) (r : MovementRequest) (found : Option Wallet)
      → Wallets.read u r.wallet_id r.owner_id t ≡ ok found
      → Triple
          (Pending t t)
          (locked (wired u out) settings digest is_space r found)
          (Done u out settings digest is_space r t)
          (Broken u out settings digest is_space r t)
  unfolding locked wired
  locked_triple t r none read = record {
    at = λ w h.
        (abandon-Broken u out settings digest is_space t r _
            (Done u out settings digest is_space r t)).at
          w (Pending-Committed t t w h);
  }
  locked_triple t r (some loaded) read =
      triple_bind (Pending t t) (outside out.now) (λ _. Pending t t) _
        (Done u out settings digest is_space r t) (Broken u out settings digest is_space r t)
        (calmly u out settings digest is_space t r (Pending t t) _ (λ _. Pending t t)
          (outside_calm t t out.now))
        (λ stamp. moved_triple t r loaded stamp _ read refl)

  apply_locked_triple :
      (t : Tables) (r : MovementRequest)
      → Triple
          (Pending t t)
          (apply_locked (wired u out) settings digest is_space r)
          (Done u out settings digest is_space r t)
          (Broken u out settings digest is_space r t)
  unfolding apply_locked wired
  apply_locked_triple t r =
      let run = query (Wallets.read u r.wallet_id r.owner_id) in
      triple_bind (Pending t t) (statement out.fault run) (Ran t t run) _
        (Done u out settings digest is_space r t) (Broken u out settings digest is_space r t)
        (calmly u out settings digest is_space t r (Pending t t) _ (Ran t t run)
          (statement_triple t t out.fault run))
        (λ found. record {
          at = λ w (t', e, h).
              let (read, same) = query_inv (Wallets.read u r.wallet_id r.owner_id) t t' found e in
              (locked_triple t r found read).at w (subst (λ (s : Tables). Pending t s w) same h);
        })

  pub under_lock_triple :
      (t : Tables) (r : MovementRequest) (acquired : Bool)
      → Triple
          (Pending t t)
          (under_lock (wired u out) settings digest is_space r acquired)
          (Done u out settings digest is_space r t)
          (Broken u out settings digest is_space r t)
  unfolding under_lock wired
  under_lock_triple t r acquired =
      triple_bind (Pending t t) (tell ((wired u out).observe (lock_observed acquired)))
        (λ _. Pending t t) _ (Done u out settings digest is_space r t)
        (Broken u out settings digest is_space r t) (record { at = λ w h. h }) (λ _. go acquired)
    where
      go :
          (b : Bool)
          → Triple
              (Pending t t)
              (when_acquired (wired u out) settings digest is_space r b)
              (Done u out settings digest is_space r t)
              (Broken u out settings digest is_space r t)
      go false = record {
        at = λ w h.
            unfold when_acquired in
            (abandon-Broken u out settings digest is_space t r _
                (Done u out settings digest is_space r t)).at
              w (Pending-Committed t t w h);
      }
      go true = unfold when_acquired in apply_locked_triple t r
