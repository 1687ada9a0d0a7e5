-- ===== src/Sqla/Wallets.antt =====
-- src/evenkeel/infrastructure/adapters/sqla/wallet_repository.py
pub mod Laws
use evenkeel.Prelude.{
  ℕ, ◌+◌, Bool, true, false, not, ◌&&◌, ◌||◌, Option, none, some, List, [], ◌∷◌, ◌++◌, ◌==◌, filter,
  length, if◌then◌else◌,
}
use evenkeel.Prelude.Int.{pos, ltb_ℤ}
use evenkeel.Domain.Decimal.{finite}
use evenkeel.Domain.Decimal.Cents.{cents}
use evenkeel.Domain.Errors.{Result, ok, err, driver, ◌>>=◌}
use evenkeel.Domain.Money.{Unicode, currency_code, money}
use evenkeel.Domain.Wallet.{Wallet, WalletId, OwnerId, new_wallet}
use evenkeel.Prelude.Text.{Text}
use evenkeel.Ports.{Page}
use evenkeel.Sqla.Paging.{list_page}
use evenkeel.Sqla.Tables.{WalletRow, Tables, one_or_none, any, numeric}

-- `_to_entity`: a row is validated as it is loaded.
unfoldable pub to_entity : Unicode → WalletRow → Result Wallet
to_entity u row = do
  currency ← currency_code u row.currency
  balance ← money (finite (numeric row.balance_amount)) currency
  new_wallet (record {
    id = row.id;
    owner_id = row.owner_id;
    balance = balance;
    status = row.status;
    version = row.version;
    created_at = row.created_at;
    updated_at = row.updated_at;
  })

-- `_to_row`
unfoldable pub to_row : Wallet → WalletRow
to_row w = record {
  id = w.id;
  owner_id = w.owner_id;
  balance_amount = cents w.balance.amount;
  currency = w.balance.currency.value;
  status = w.status;
  version = w.version;
  created_at = w.created_at;
  updated_at = w.updated_at;
}

-- The `WHERE` of `read`.
abbrev pub is_owned_row : WalletId → OwnerId → WalletRow → Bool
is_owned_row id owner_id row = row.id == id && row.owner_id == owner_id

unfoldable pub load_one : Unicode → Option WalletRow → Result (Option Wallet)
load_one u none = ok none
load_one u (some row) = do wallet ← to_entity u row; ok (some wallet)

-- `read`; a row lock is not part of the rows.
unfoldable pub read : Unicode → WalletId → OwnerId → Tables → Result (Option Wallet)
unfolding load_one one_or_none
read u id owner_id t = do
  row ← one_or_none (filter (is_owned_row id owner_id) t.wallets)
  load_one u row

abbrev pub violates_check : WalletRow → Bool
violates_check row = ltb_ℤ row.balance_amount (pos 0)

-- `add`: the primary key and the check constraint hold, or the statement fails.
unfoldable pub add : Wallet → Tables → Result Tables
unfolding to_row
add w t =
    if any (λ row. row.id == w.id) t.wallets || violates_check (to_row w)
    then err (driver "IntegrityError")
    else ok (record t { wallets = t.wallets ++ to_row w ∷ [] })

-- The `WHERE` of `update`, and its `SET`: all but the id and the time of creation.
abbrev pub is_at_version : WalletId → ℕ → WalletRow → Bool
is_at_version id expected row = row.id == id && row.version == expected

abbrev pub assign : WalletRow → WalletRow → WalletRow
assign values row = record values { id = row.id; created_at = row.created_at }

unfoldable pub update_rows : WalletRow → ℕ → List WalletRow → List WalletRow
update_rows values expected [] = []
update_rows values expected (row ∷ rows) =
    let rest = update_rows values expected rows in
    if is_at_version values.id expected row then assign values row ∷ rest else row ∷ rest

-- `update`: whether exactly one row matched.
unfoldable pub update : Wallet → ℕ → Tables → Result (Bool × Tables)
unfolding to_row update_rows
update w expected t =
    let matched = filter (is_at_version w.id expected) t.wallets in
    if violates_check (to_row w) && not (length matched == 0)
    then err (driver "IntegrityError")
    else ok (length matched == 1, record t { wallets = update_rows (to_row w) expected t.wallets })

-- `list_by_owner`
unfoldable pub list_by_owner : Unicode → OwnerId → ℕ → Option Text → Tables → Result (Page Wallet)
unfolding to_entity
list_by_owner u owner_id limit cursor t =
    list_page (λ row. row.id) (λ row. row.owner_id == owner_id) (to_entity u) limit cursor t.wallets
