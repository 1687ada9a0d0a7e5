-- ===== src/Application/OpenWallet/Opened.antt =====
-- What opening a wallet has committed, by src/evenkeel/application/interactors/wallets/open_wallet.py
-- over the SQL repositories.
use evenkeel.Prelude.{◌≡◌, refl, sym, Bool}
use mathlib.Core.Path.{subst}
use evenkeel.Domain.Errors.{Result, ok, err}
use evenkeel.Domain.Wallet.{Wallet, Uuid, Instant, open_wallet}
use evenkeel.Sqla.Tables.{Tables, Database, commit}
use evenkeel.Sqla.Wallets
use evenkeel.Application.Action.{lift, ◌>>=◌}
use evenkeel.Application.Triple.{Post, Triple, triple_bind}
use evenkeel.Application.Movement.Wired.{World, Outside, outside, statement, session, command}
use evenkeel.Application.Movement.Frames.{
  Pending, Committed, Ran, outside_calm, command_inv, statement_triple, session_triple,
  Pending-Committed,
}
use evenkeel.Application.OpenWallet.{
  OpenWalletCommand, OpenWalletResult, OpenPorts, open_new, opened_body, store,
}

-- The interactor over the SQL repository and session; what it observes does not touch either.
unfoldable pub wired_open : {X : Type 0} → Outside X → (Bool → X → X) → OpenPorts (World X)
wired_open out observe = record {
  generate = outside out.generate;
  now = outside out.now;
  add_wallet = λ wallet. statement out.fault (command (Wallets.add wallet));
  commit = session out.fault commit;
  observe = λ b w. record { database = w.database; outside = observe b w.outside };
}

-- A wallet that was opened: by the domain, and inserted.
pub record Opens (c : OpenWalletCommand) (t : Tables) (x : OpenWalletResult) (t' : Tables)
    : Type 0 where
  pub id : Uuid
  pub stamp : Instant
  pub wallet : Wallet
  pub made : open_wallet id c.owner_id c.currency stamp ≡ ok wallet
  pub added : Wallets.add wallet t ≡ ok t'
  pub wallet_id : x.wallet_id ≡ wallet.id
  pub currency : x.currency ≡ wallet.balance.currency

observed-Post :
    {X A : Type 0} (D : A → Database → Type 0) (E : Database → Type 0) (f : X → X) (r : Result A)
    (w : World X)
    → Post (λ a (w : World X). D a w.database) (λ w. E w.database) (r, w)
    → Post
        (λ a (w : World X). D a w.database)
        (λ w. E w.database)
        (r, record { database = w.database; outside = f w.outside })
observed-Post D E f (ok a) w h = h
observed-Post D E f (err e) w h = h

module _ {X : Type 0} (out : Outside X) (observe : Bool → X → X) (t : Tables)
    (c : OpenWalletCommand) where
  abbrev Landed : OpenWalletResult → World X → Type 0
  Landed x w = Opens c t x w.database.committed

  stored :
      (id : Uuid) (stamp : Instant) (r : Result Wallet)
      → open_wallet id c.owner_id c.currency stamp ≡ r
      → Triple (Pending t t) (lift r >>= store (wired_open out observe)) Landed (Committed t)
  unfolding store wired_open commit
  stored id stamp (err e) made = record { at = λ w h. Pending-Committed t t w h }
  stored id stamp (ok wallet) made =
      let run = command (Wallets.add wallet) in
      triple_bind (Pending t t) (statement out.fault run) (Ran t t run) _ Landed (Committed t)
        (statement_triple t t out.fault run)
        (λ a. record {
          at = λ w (t', e, h).
              (triple_bind (Pending t t') (session out.fault commit)
                  (λ _ w. w.database ≡ record { committed = t'; working = t' }) _ Landed
                  (Committed t) (session_triple t t' out.fault commit)
                  (λ _. record {
                    at = λ w h.
                        subst
                          (λ (d : Database).
                            Opens c t
                              (record { wallet_id = wallet.id; currency = wallet.balance.currency })
                              d.committed)
                          (sym h)
                          (record {
                            id = id;
                            stamp = stamp;
                            wallet = wallet;
                            made = made;
                            added = command_inv (Wallets.add wallet) t t' a e;
                            wallet_id = refl;
                            currency = refl;
                          });
                  })).at
                w h;
        })

  body_triple : Triple (Pending t t) (opened_body (wired_open out observe) c) Landed (Committed t)
  unfolding opened_body wired_open
  body_triple =
      triple_bind (Pending t t) (outside out.generate) (λ _. Pending t t) _ Landed (Committed t)
        (outside_calm t t out.generate)
        (λ id.
          triple_bind (Pending t t) (outside out.now) (λ _. Pending t t) _ Landed (Committed t)
            (outside_calm t t out.now) (λ stamp. stored id stamp _ refl))

  -- On a session with nothing pending, a call that returns has committed exactly the insertion of
  -- the wallet that the domain opened, and one that raises has committed nothing.
  pub open_new_triple :
      Triple (Pending t t) (open_new (wired_open out observe) c) Landed (Committed t)
  unfolding open_new
  open_new_triple = record {
    at = λ w h.
        let (r, w') = opened_body (wired_open out observe) c w in
        unfold wired_open in
        observed-Post (λ x d. Opens c t x d.committed) (λ d. d.committed ≡ t) (observe _) r w'
          (body_triple.at w h);
  }
