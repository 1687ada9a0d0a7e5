-- ===== src/Application/Movement/Books.antt =====
-- The money of a movement that is written: the books stay reconciled, the wallet moves by the
-- amount, and nothing else moves.
use evenkeel.Prelude.{
  ℕ, ◌+◌, ◌≡◌, refl, ap, sym, ◌∙◌, Bool, true, [], ◌∷◌, ◌++◌, arith, All, ◌==◌, filter,
  if◌then◌else◌,
}
use mathlib.Core.Path.{subst}
use evenkeel.Prelude.Int.{ℤ, pos, ◌+ℤ◌, ◌≤ℤ◌, int_laws}
use evenkeel.Domain.Decimal.Cents.{cents}
use evenkeel.Domain.Errors.{ok}
use evenkeel.Domain.Money.{Unicode, Money}
use evenkeel.Domain.Money.Laws.{value, IsMoney}
use evenkeel.Domain.Wallet.{Wallet, Uuid, Instant}
use evenkeel.Domain.Wallet.Laws.{
  IsValid, deposit-ok, withdraw-ok, deposit-IsValid, withdraw-IsValid,
}
use evenkeel.Domain.Ledger.{LedgerDirection, credit, debit, LedgerEntry, record_entry}
use evenkeel.Sqla.Tables.{WalletRow, Tables}
use evenkeel.Sqla.Wallets
use evenkeel.Sqla.Wallets.{update_rows, is_owned_row, is_at_version, violates_check}
use evenkeel.Sqla.Wallets.Laws.{Loads, read-some, only_row, selected_not_fresh, update-Unique}
use evenkeel.Sqla.Entries
use evenkeel.Sqla.Reconciled.{signed, total, IsReconciled, update_reconciles, total-append}
use evenkeel.Application.Movement.{MovementRequest, MovementOutcome, move}
use evenkeel.Application.Movement.Done.{Written}

-- A movement of the domain, as far as the tables see it.
pub record Shifts (d : LedgerDirection) (w : Wallet) (amount : Money) (w' : Wallet)
    (balance_after : Money) : Type 0 where
  pub id : w'.id ≡ w.id
  pub owner_id : w'.owner_id ≡ w.owner_id
  pub balance : w'.balance ≡ balance_after
  pub version : w'.version ≡ w.version + 1
  pub sum : value balance_after ≡ value w.balance +ℤ signed d (value amount)
  pub positive : pos 1 ≤ℤ value amount
  pub valid : IsValid w'

pub move-Shifts :
    (d : LedgerDirection) (w w' : Wallet) (amount balance_after : Money) (now : Instant)
    → IsValid w
    → IsMoney amount
    → move d w amount now ≡ ok (w', balance_after)
    → Shifts d w amount w' balance_after
unfolding move
move-Shifts credit w w' amount b now v m h =
    let (_, positive, _, moved, _, _, sum) = deposit-ok w w' amount b now v m h in
    record {
      id = ap (λ (x : Wallet). x.id) moved;
      owner_id = ap (λ (x : Wallet). x.owner_id) moved;
      balance = ap (λ (x : Wallet). x.balance) moved;
      version = ap (λ (x : Wallet). x.version) moved;
      sum = sum;
      positive = positive;
      valid = deposit-IsValid w w' amount b now v m h;
    }
move-Shifts debit w w' amount b now v m h =
    let (_, positive, _, moved, _, _, sum, _) = withdraw-ok w w' amount b now v m h in
    record {
      id = ap (λ (x : Wallet). x.id) moved;
      owner_id = ap (λ (x : Wallet). x.owner_id) moved;
      balance = ap (λ (x : Wallet). x.balance) moved;
      version = ap (λ (x : Wallet). x.version) moved;
      sum = sum ∙ omega int_laws;
      positive = positive;
      valid = withdraw-IsValid w w' amount b now v m h;
    }

-- An insert that succeeded appended its row.
entry_added :
    (e : LedgerEntry) (t between : Tables)
    → Entries.add e t ≡ ok between
    → between ≡ record t { entries = t.entries ++ Entries.to_row e ∷ [] }
unfolding Entries.add
entry_added e t between h = ground arith

-- An update that matched one row assigned it.
row_updated :
    (w : Wallet) (expected : ℕ) (t t' : Tables) (b : Bool)
    → Wallets.update w expected t ≡ ok (b, t')
    → t' ≡ record t { wallets = update_rows (Wallets.to_row w) expected t.wallets }
unfolding Wallets.update
row_updated w expected t t' b h = ground arith

module _ (u : Unicode) (is_space : ℕ → Bool) (r : MovementRequest) (t t' : Tables)
    (o : MovementOutcome) (written : Written u is_space r t o t') where
  written_tables : t' ≡ record {
    wallets = update_rows (Wallets.to_row o.wallet) written.loaded.version t.wallets;
    entries = t.entries ++ Entries.to_row o.entry ∷ [];
  }
  written_tables =
      row_updated o.wallet written.loaded.version written.between t' true written.updated
      ∙ ap
          (λ (s : Tables). record s {
            wallets = update_rows (Wallets.to_row o.wallet) written.loaded.version s.wallets;
          })
          (entry_added o.entry t written.between written.added)

  abbrev amount_moved : ℤ
  amount_moved = signed r.direction (value r.amount)

  -- The row that was read, and what the movement made of the wallet in it.
  selected :
      IsMoney r.amount
      → (row : WalletRow) × (filter (is_owned_row r.wallet_id r.owner_id) t.wallets ≡ row ∷ [])
        × Loads row written.loaded
        × Shifts r.direction written.loaded r.amount o.wallet written.balance_after
  selected m =
      let (row, found, loads) = read-some u r.wallet_id r.owner_id t written.loaded written.read in
      (
        row,
        found,
        loads,
        move-Shifts r.direction written.loaded o.wallet r.amount written.balance_after written.stamp
            loads.valid m written.changed,
      )

  entry_row :
      (Entries.to_row o.entry).wallet_id ≡ o.wallet.id
      × ((Entries.to_row o.entry).direction ≡ r.direction)
      × ((Entries.to_row o.entry).amount ≡ value r.amount)
  unfolding Entries.to_row record_entry
  entry_row =
      let e = written.entry in
      (
        ap (λ (x : LedgerEntry). x.wallet_id) e,
        ap (λ (x : LedgerEntry). x.direction) e,
        ap (λ (x : LedgerEntry). cents x.amount.amount) e,
      )

  wallet_row :
      ((Wallets.to_row o.wallet).id ≡ o.wallet.id)
      × ((Wallets.to_row o.wallet).balance_amount ≡ value o.wallet.balance)
  unfolding Wallets.to_row
  wallet_row = (refl, refl)

  -- Books that were reconciled are reconciled after the movement.
  pub written-IsReconciled : IsMoney r.amount → IsReconciled t → IsReconciled t'
  written-IsReconciled m rec =
      let (row, found, loads, shifts) = selected m in
      let (own, direction, amount) = entry_row in
      let (row_id, row_balance) = wallet_row in
      let values = Wallets.to_row o.wallet in
      let (id, _) = selected_not_fresh r.wallet_id r.owner_id t.wallets [] row found in
      let same_id : values.id ≡ r.wallet_id = row_id ∙ shifts.id ∙ loads.id ∙ id in
      let balance : values.balance_amount
          ≡ row.balance_amount
            +ℤ signed (Entries.to_row o.entry).direction (Entries.to_row o.entry).amount =
        row_balance
        ∙ ap value shifts.balance
        ∙ shifts.sum
        ∙ cc (loads.balance, direction, amount) in
      let only : All (λ (x : WalletRow). x.id ≡ values.id → x ≡ row) t.wallets =
        subst (λ (i : Uuid). All (λ (x : WalletRow). x.id ≡ i → x ≡ row) t.wallets) (sym same_id)
          (only_row r.wallet_id r.owner_id t.wallets row rec.unique found) in
      subst IsReconciled (sym written_tables) (record {
        unique = update-Unique values written.loaded.version t.wallets rec.unique;
        balances =
            update_reconciles values row written.loaded.version t.entries (Entries.to_row o.entry)
              t.wallets (sym loads.version) (own ∙ sym row_id) balance only rec.balances;
      })

  -- Where a movement of a validated amount was written, the ledger of its wallet adds up to the
  -- signed amount more, and that of any other wallet to what it did.
  pub written-total :
      IsMoney r.amount
      → (id : Uuid)
      → total id t'.entries
        ≡ (if r.wallet_id == id then total id t.entries +ℤ amount_moved else total id t.entries)
  written-total m id =
      let (row, found, loads, shifts) = selected m in
      let (own, direction, amount) = entry_row in
      let (row_id, _) = selected_not_fresh r.wallet_id r.owner_id t.wallets [] row found in
      let wid : (Entries.to_row o.entry).wallet_id ≡ r.wallet_id =
        own ∙ shifts.id ∙ loads.id ∙ row_id in
      ap (λ (s : Tables). total id s.entries) written_tables
      ∙ total-append id t.entries (Entries.to_row o.entry)
      ∙ rw (wid, direction, amount) refl
