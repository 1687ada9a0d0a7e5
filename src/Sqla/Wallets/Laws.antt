-- ===== src/Sqla/Wallets/Laws.antt =====
-- What a row that loads says of the wallet, and what a read, an insert and an update do to the rows.
use evenkeel.Prelude.{
  ℕ, ◌≡◌, ◌≢◌, refl, ap, sym, ◌∙◌, inl, inr, Option, none, some, List, [], ◌∷◌, arith, filter, All,
  All-map, Bool-cases,
}
use evenkeel.Prelude.Int.{ℤ, ◌+ℤ◌, eq_of_parts, scale, scale_pos, scale_neg}
use evenkeel.Domain.Decimal.{finite}
use evenkeel.Domain.Decimal.Cents.{cents}
use evenkeel.Domain.Errors.{ok}
use evenkeel.Domain.Money.{Unicode, Money, CurrencyCode, currency_code, money}
use evenkeel.Domain.Money.Laws.{money-ok, money-IsMoney}
use evenkeel.Domain.Wallet.{Wallet, WalletId, OwnerId}
use evenkeel.Domain.Wallet.Laws.{IsValid, >>=-eq-ok, new_wallet-ok}
use evenkeel.Sqla.Tables.{WalletRow, Tables, one_or_none, numeric}
use evenkeel.Sqla.Wallets.{to_entity, read, load_one, is_owned_row, update_rows, is_at_version}

cents-numeric : (c : ℤ) → cents (numeric c) ≡ c
unfolding cents scale ◌+ℤ◌
cents-numeric c = eq_of_parts _ _ (omega (arith, scale_pos, scale_neg))

-- The wallet of a row has the row's fields, and is valid.
pub record Loads (row : WalletRow) (w : Wallet) : Type 0 where
  pub id : w.id ≡ row.id
  pub owner_id : w.owner_id ≡ row.owner_id
  pub version : w.version ≡ row.version
  pub status : w.status ≡ row.status
  pub currency : w.balance.currency.value ≡ row.currency
  pub balance : cents w.balance.amount ≡ row.balance_amount
  pub valid : IsValid w

currency_code-ok :
    (u : Unicode) (t : List ℕ) (c : CurrencyCode) → currency_code u t ≡ ok c → c.value ≡ t
unfolding currency_code
currency_code-ok u t c h = ground arith

pub to_entity-Loads :
    (u : Unicode) (row : WalletRow) (w : Wallet) → to_entity u row ≡ ok w → Loads row w
unfolding to_entity
to_entity-Loads u row w h =
    let (c, e₁, h₁) = >>=-eq-ok (currency_code u row.currency) _ h in
    let (m, e₂, h₂) = >>=-eq-ok (money (finite (numeric row.balance_amount)) c) _ h₁ in
    let (same, nonneg) = (new_wallet-ok _ w).0 h₂ in
    let (made, _, _) = (money-ok _ c m).0 e₂ in
    rw same (record {
      id = refl;
      owner_id = refl;
      version = refl;
      status = refl;
      currency = ap (λ (x : Money). x.currency.value) made ∙ currency_code-ok u row.currency c e₁;
      balance = ap (λ (x : Money). cents x.amount) made ∙ cents-numeric row.balance_amount;
      valid = record { balance = money-IsMoney _ c m e₂; nonnegative = nonneg };
    })

one_or_none-some {ℓ} :
    {A : Type ℓ} (xs : List A) (x : A) → one_or_none xs ≡ ok (some x) → xs ≡ x ∷ []
unfolding one_or_none
one_or_none-some [] x h = cc h
one_or_none-some (y ∷ []) x h = cc h
one_or_none-some (y ∷ z ∷ xs) x h = cc h

load_one-some :
    (u : Unicode) (o : Option WalletRow) (w : Wallet)
    → load_one u o ≡ ok (some w)
    → (row : WalletRow) × (o ≡ some row) × (to_entity u row ≡ ok w)
unfolding load_one
load_one-some u none w h = cc h
load_one-some u (some row) w h =
    let (w', e, h') = >>=-eq-ok (to_entity u row) _ h in (row, refl, cc (e, h'))

-- A read that finds a wallet has loaded the one row with the id and the owner.
pub read-some :
    (u : Unicode) (id : WalletId) (owner_id : OwnerId) (t : Tables) (w : Wallet)
    → read u id owner_id t ≡ ok (some w)
    → (row : WalletRow) × (filter (is_owned_row id owner_id) t.wallets ≡ row ∷ []) × Loads row w
unfolding read
read-some u id owner_id t w h =
    let (o, e, h') = >>=-eq-ok (one_or_none (filter (is_owned_row id owner_id) t.wallets)) _ h in
    let (row, e', loaded) = load_one-some u o w h' in
    (row, one_or_none-some _ row (cc (e, e')), to_entity-Loads u row w loaded)

-- No two rows have one id.
abbrev pub Unique : List WalletRow → Type 0
Unique [] = Unit {0}
Unique (row ∷ rows) = All (λ (x : WalletRow). x.id ≢ row.id) rows × Unique rows

-- A selected row is among the rows.
pub selected_not_fresh :
    (id : WalletId) (owner_id : OwnerId) (rows rest : List WalletRow) (row : WalletRow)
    → filter (is_owned_row id owner_id) rows ≡ row ∷ rest
    → (row.id ≡ id) × (All (λ (x : WalletRow). x.id ≢ id) rows → ⊥)
selected_not_fresh id owner_id [] rest row h = cc h
selected_not_fresh id owner_id (x ∷ rows) rest row h =
    elim (Bool-cases (is_owned_row id owner_id x)) [
      | inl y ↦
          let e : x.id ≡ id = ground (arith, y) in
          let same : x ≡ row = cc (rw y at h) in (cc (e, same), λ f. f.0 e)
      | inr n ↦
          let ih = selected_not_fresh id owner_id rows rest row (rw n at h) in (ih.0, λ f. ih.1 f.1)
    ]

-- In tables with unique ids the selected row is the only one with its id.
pub only_row :
    (id : WalletId) (owner_id : OwnerId) (rows : List WalletRow) (row : WalletRow)
    → Unique rows
    → filter (is_owned_row id owner_id) rows ≡ row ∷ []
    → All (λ (x : WalletRow). x.id ≡ id → x ≡ row) rows
only_row id owner_id [] row unique h = tt
only_row id owner_id (x ∷ rows) row unique h = elim (Bool-cases (is_owned_row id owner_id x)) [
  | inl y ↦
      let e : x.id ≡ id = ground (arith, y) in
      let same : x ≡ row = cc (rw y at h) in
      (
        λ _. same,
        All-map (λ (z : WalletRow). z.id ≢ x.id) (λ (z : WalletRow). z.id ≡ id → z ≡ row)
            (λ z f g. absurd (f (g ∙ sym e))) rows unique.0,
      )
  | inr n ↦
      let rest : filter (is_owned_row id owner_id) rows ≡ row ∷ [] = rw n at h in
      (
        λ e. absurd (
            (selected_not_fresh id owner_id rows [] row rest).1 (
              All-map (λ (z : WalletRow). z.id ≢ x.id) (λ (z : WalletRow). z.id ≢ id)
                (λ z f g. f (g ∙ sym e)) rows unique.0)),
        only_row id owner_id rows row unique.1 rest,
      )
]

-- An update changes no id, so unique ids stay unique.
update-fresh :
    (values : WalletRow) (expected k : ℕ) (rows : List WalletRow)
    → All (λ (x : WalletRow). x.id ≢ k) rows
    → All (λ (x : WalletRow). x.id ≢ k) (update_rows values expected rows)
unfolding update_rows
update-fresh values expected k [] h = tt
update-fresh values expected k (x ∷ rows) h =
    let rest = update-fresh values expected k rows h.1 in
    elim (Bool-cases (is_at_version values.id expected x)) [
      | inl y ↦ rw y (h.0, rest)
      | inr n ↦ rw n (h.0, rest)
    ]

pub update-Unique :
    (values : WalletRow) (expected : ℕ) (rows : List WalletRow)
    → Unique rows
    → Unique (update_rows values expected rows)
unfolding update_rows
update-Unique values expected [] h = tt
update-Unique values expected (x ∷ rows) h =
    let rest = update-Unique values expected rows h.1 in
    let fresh = update-fresh values expected x.id rows h.0 in
    elim (Bool-cases (is_at_version values.id expected x)) [
      | inl y ↦ rw y (fresh, rest)
      | inr n ↦ rw n (fresh, rest)
    ]
