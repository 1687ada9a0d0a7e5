-- ===== src/Application/Movement/Claims.antt =====
-- The claim of a key by src/evenkeel/application/services/wallet_movement.py, and the replay of an
-- earlier movement.
use evenkeel.Prelude.{ℕ, ◌≡◌, refl, Bool, true, Option, none, some}
use mathlib.Core.Path.{subst}
use evenkeel.Prelude.Text.{Text}
use evenkeel.Domain.Errors.{Result}
use evenkeel.Domain.Money.{Unicode}
use evenkeel.Domain.Wallet.{Wallet}
use evenkeel.Domain.Ledger.{LedgerEntry}
use evenkeel.Ports.{
  IdempotencyOutcome, IdempotencyRecord, reserved, in_progress, completed, conflict,
}
use evenkeel.Sqla.Tables.{Tables, rollback}
use evenkeel.Sqla.Wallets
use evenkeel.Sqla.Entries
use evenkeel.Application.Triple.{Triple, triple_bind, triple_weaken}
use evenkeel.Application.Movement.{
  Payload, MovementSettings, MovementRequest, MovementOutcome, scoped_key, claim, claim_key,
  answer_claim, replay, replay_rows, fingerprint,
}
use evenkeel.Application.Movement.Wired.{World, Outside, outside, statement, session, query, wired}
use evenkeel.Application.Movement.Frames.{
  Pending, Committed, Ran, outside_calm, Pending-Committed, query_inv, statement_triple,
  rollback_triple,
}

module _ {X : Type 0} (u : Unicode) (out : Outside X) (settings : MovementSettings)
    (digest : Payload → Text) (is_space : ℕ → Bool) where
  -- A claim commits nothing; it hands on a replay, or a transaction that has changed nothing.
  abbrev pub Claimed : Tables → Option MovementOutcome → World X → Type 0
  Claimed t none w = Pending t t w
  Claimed t (some o) w = (o.replayed ≡ true) × Committed t w

  replay_rows_triple :
      (t : Tables) (entry : Option LedgerEntry) (wallet : Option Wallet)
      → Triple
          (Pending t t)
          (replay_rows (wired u out) settings digest is_space entry wallet)
          (Claimed t)
          (Committed t)
  unfolding replay_rows wired
  replay_rows_triple t none wallet = record { at = λ w h. h }
  replay_rows_triple t (some entry) none = record { at = λ w h. h }
  replay_rows_triple t (some entry) (some wallet) =
      triple_bind (Pending t t) (session out.fault rollback) (λ _. Committed t) _ (Claimed t)
        (Committed t)
        (triple_weaken (Committed t) (Pending t t) _ (λ _. Committed t) (λ _. Committed t)
          (Committed t) (Committed t) (Pending-Committed t t) (λ a w h. h) (λ w h. h)
          (rollback_triple t out.fault))
        (λ _. record { at = λ w h. (refl, h) })

  -- A query leaves the open transaction as it is.
  query_calm :
      {A : Type 0} (t : Tables) (run : Tables → Result A)
      → Triple
          (Pending t t)
          (statement out.fault (query run))
          (λ _. Pending t t)
          (Committed {X = X} t)
  query_calm t run =
      triple_weaken (Pending t t) (Pending t t) _ (Ran t t (query run)) (λ _. Pending t t)
        (Committed t) (Committed t) (λ w h. h)
        (λ a w x. subst (λ (s : Tables). Pending t s w) (query_inv run t x.0 a x.1).1 x.2)
        (λ w h. h) (statement_triple t t out.fault (query run))

  replay_triple :
      (t : Tables) (r : MovementRequest) (stored : Option IdempotencyRecord)
      → Triple
          (Pending t t)
          (replay (wired u out) settings digest is_space r stored)
          (Claimed t)
          (Committed t)
  unfolding replay wired
  replay_triple t r none = record { at = λ w h. h }
  replay_triple t r (some stored) =
      triple_bind (Pending t t)
        (statement out.fault (query (Entries.read u stored.response.entry_id r.owner_id)))
        (λ _. Pending t t) _ (Claimed t) (Committed t)
        (query_calm t (Entries.read u stored.response.entry_id r.owner_id))
        (λ entry.
          triple_bind (Pending t t)
            (statement out.fault (query (Wallets.read u r.wallet_id r.owner_id))) (λ _. Pending t t)
            _ (Claimed t) (Committed t) (query_calm t (Wallets.read u r.wallet_id r.owner_id))
            (λ wallet. replay_rows_triple t entry wallet))

  answer_triple :
      (t : Tables) (r : MovementRequest) (key : Text) (o : IdempotencyOutcome)
      (stored : Option IdempotencyRecord)
      → Triple
          (Pending t t)
          (answer_claim (wired u out) settings digest is_space r key o stored)
          (Claimed t)
          (Committed t)
  unfolding answer_claim
  answer_triple t r key reserved stored = record { at = λ w h. h }
  answer_triple t r key in_progress stored = record { at = λ w h. Pending-Committed t t w h }
  answer_triple t r key completed stored = replay_triple t r stored
  answer_triple t r key conflict stored = record { at = λ w h. Pending-Committed t t w h }

  pub claim_triple :
      (t : Tables) (r : MovementRequest)
      → Triple
          (Pending t t)
          (claim (wired u out) settings digest is_space r)
          (Claimed t)
          (Committed t)
  unfolding claim claim_key wired
  claim_triple t r = go r.idempotency_key
    where
      go :
          (k : Option Text)
          → Triple
              (Pending t t)
              (claim_key (wired u out) settings digest is_space r k)
              (Claimed t)
              (Committed t)
      go none = record { at = λ w h. h }
      go (some key) =
          triple_bind (Pending t t)
            (outside (
              out.reserve (scoped_key r.owner_id key)
                (fingerprint (wired u out) settings digest is_space r) settings.idempotency_ttl))
            (λ _. Pending t t) _ (Claimed t) (Committed t) (outside_calm t t _)
            (λ found. answer_triple t r key found.outcome found.stored)
