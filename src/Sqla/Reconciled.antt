-- ===== src/Sqla/Reconciled.antt =====
-- The balance column as a cache of the ledger: what a reconciliation by replay of the entries would
-- find, and that an update beside its entry keeps it.
use evenkeel.Prelude.{
  ℕ, ◌≡◌, ◌≢◌, refl, ap, sym, ◌∙◌, inl, inr, true, false, List, [], ◌∷◌, ◌++◌, arith, All, ◌==◌,
  Bool-cases, if◌then◌else◌,
}
use evenkeel.Prelude.Int.{ℤ, pos, ◌+ℤ◌, ◌-ℤ◌, int_laws}
use evenkeel.Domain.Ledger.{LedgerDirection, credit, debit}
use evenkeel.Domain.Wallet.{Uuid}
use evenkeel.Sqla.Tables.{WalletRow, EntryRow, Tables}
use evenkeel.Sqla.Wallets.{update_rows, is_at_version}
use evenkeel.Sqla.Wallets.Laws.{Unique}

-- What an entry does to the balance.
abbrev pub signed : LedgerDirection → ℤ → ℤ
signed credit amount = amount
signed debit amount = pos 0 -ℤ amount

-- The balance that the entries of a wallet add up to.
unfoldable pub total : Uuid → List EntryRow → ℤ
total id [] = pos 0
total id (e ∷ entries) =
    if e.wallet_id == id then signed e.direction e.amount +ℤ total id entries else total id entries

-- Every balance is the sum of its wallet's entries, and no id is taken twice.
pub record IsReconciled (t : Tables) : Type 0 where
  pub unique : Unique t.wallets
  pub balances : All (λ (row : WalletRow). row.balance_amount ≡ total row.id t.entries) t.wallets

pub total-append :
    (id : Uuid) (entries : List EntryRow) (e : EntryRow)
    → total id (entries ++ e ∷ []) ≡ (
        if e.wallet_id == id
        then total id entries +ℤ signed e.direction e.amount
        else total id entries)
unfolding total
total-append id [] e = elim (Bool-cases (e.wallet_id == id)) [
  | inl y ↦ rw y (omega int_laws)
  | inr n ↦ rw n refl
]
total-append id (x ∷ entries) e =
    let ih = total-append id entries e in
    elim (Bool-cases (e.wallet_id == id)) [
      | inl y ↦ elim (Bool-cases (x.wallet_id == id)) [
        | inl y' ↦ rw (y', ih, y) (omega int_laws)
        | inr n' ↦ rw (n', ih) refl
      ]
      | inr n ↦ elim (Bool-cases (x.wallet_id == id)) [
        | inl y' ↦ rw (y', ih) (rw n refl)
        | inr n' ↦ rw (n', ih) refl
      ]
    ]

pub total-append_own :
    (id : Uuid) (entries : List EntryRow) (e : EntryRow)
    → e.wallet_id ≡ id
    → total id (entries ++ e ∷ []) ≡ total id entries +ℤ signed e.direction e.amount
total-append_own id entries e own =
    let y : (e.wallet_id == id) ≡ true = ground arith in rw y at (total-append id entries e)

pub total-append_other :
    (id : Uuid) (entries : List EntryRow) (e : EntryRow)
    → e.wallet_id ≢ id
    → total id (entries ++ e ∷ []) ≡ total id entries
total-append_other id entries e other =
    let n : (e.wallet_id == id) ≡ false = ground arith in rw n at (total-append id entries e)

-- The update of one wallet's row, and the entry of the same wallet and amount, keep every row
-- reconciled.
pub update_reconciles :
    (values old : WalletRow) (expected : ℕ) (entries : List EntryRow) (e : EntryRow)
    (rows : List WalletRow)
    → old.version ≡ expected
    → e.wallet_id ≡ values.id
    → values.balance_amount ≡ old.balance_amount +ℤ signed e.direction e.amount
    → All (λ (x : WalletRow). x.id ≡ values.id → x ≡ old) rows
    → All (λ (x : WalletRow). x.balance_amount ≡ total x.id entries) rows
    → All
        (λ (x : WalletRow). x.balance_amount ≡ total x.id (entries ++ e ∷ []))
        (update_rows values expected rows)
unfolding update_rows
update_reconciles values old expected entries e [] ver wid bal only rec = tt
update_reconciles values old expected entries e (x ∷ rows) ver wid bal only rec =
    let rest = update_reconciles values old expected entries e rows ver wid bal only.1 rec.1 in
    elim (Bool-cases (is_at_version values.id expected x)) [
      | inl y ↦
          let same_id : x.id ≡ values.id = ground (arith, y) in
          let same : x ≡ old = only.0 same_id in
          rw y (
            bal
                ∙ ap (λ (b : ℤ). b +ℤ signed e.direction e.amount)
                    (sym (ap (λ (r : WalletRow). r.balance_amount) same) ∙ rec.0)
                ∙ sym (total-append_own x.id entries e (wid ∙ sym same_id)),
            rest,
          )
      | inr n ↦
          let other : e.wallet_id ≢ x.id = λ same_id.
            let found : x ≡ old = only.0 (sym same_id ∙ wid) in
            let version : x.version ≡ expected = cc (found, ver) in
            ground (arith, n, version, same_id, wid) in
          rw n (rec.0 ∙ sym (total-append_other x.id entries e other), rest)
    ]
