-- ===== src/Sqla/Entries.antt =====
-- src/evenkeel/infrastructure/adapters/sqla/ledger_repository.py
use evenkeel.Prelude.{
  ℕ, Bool, not, ◌&&◌, ◌||◌, Option, none, some, [], ◌∷◌, ◌++◌, ◌==◌, filter, if◌then◌else◌,
}
use evenkeel.Prelude.Int.{pos, leb_ℤ}
use evenkeel.Domain.Decimal.{finite}
use evenkeel.Domain.Decimal.Cents.{cents}
use evenkeel.Domain.Errors.{Result, ok, err, driver, ◌>>=◌}
use evenkeel.Domain.Money.{Unicode, currency_code, money}
use evenkeel.Domain.Wallet.{OwnerId, WalletId, LedgerEntryId}
use evenkeel.Domain.Ledger.{LedgerEntry}
use evenkeel.Prelude.Text.{Text}
use evenkeel.Ports.{Page}
use evenkeel.Sqla.Paging.{list_page}
use evenkeel.Sqla.Tables.{EntryRow, Tables, one_or_none, any, numeric}

-- `_to_entity`
unfoldable pub to_entity : Unicode → EntryRow → Result LedgerEntry
to_entity u row = do
  currency ← currency_code u row.currency
  amount ← money (finite (numeric row.amount)) currency
  balance_after ← money (finite (numeric row.balance_after)) currency
  ok (record {
    id = row.id;
    wallet_id = row.wallet_id;
    direction = row.direction;
    amount = amount;
    balance_after = balance_after;
    description = row.description;
    occurred_at = row.occurred_at;
  })

-- The values of the `INSERT`.
unfoldable pub to_row : LedgerEntry → EntryRow
to_row e = record {
  id = e.id;
  wallet_id = e.wallet_id;
  direction = e.direction;
  amount = cents e.amount.amount;
  currency = e.amount.currency.value;
  balance_after = cents e.balance_after.amount;
  description = e.description;
  occurred_at = e.occurred_at;
}

-- `add`: the primary key, the foreign key and the check constraint hold, or the statement fails.
unfoldable pub add : LedgerEntry → Tables → Result Tables
unfolding to_row
add e t =
    if any (λ row. row.id == e.id) t.entries
      || not (any (λ row. row.id == e.wallet_id) t.wallets)
      || leb_ℤ (cents e.amount.amount) (pos 0)
    then err (driver "IntegrityError")
    else ok (record t { entries = t.entries ++ to_row e ∷ [] })

-- The `JOIN` and `WHERE` of `read`: the wallet of the entry has the owner.
unfoldable pub is_owned_entry : LedgerEntryId → OwnerId → Tables → EntryRow → Bool
is_owned_entry id owner_id t row =
    row.id == id && any (λ w. w.id == row.wallet_id && w.owner_id == owner_id) t.wallets

unfoldable pub load_one : Unicode → Option EntryRow → Result (Option LedgerEntry)
load_one u none = ok none
load_one u (some row) = do entry ← to_entity u row; ok (some entry)

-- `read`
unfoldable pub read : Unicode → LedgerEntryId → OwnerId → Tables → Result (Option LedgerEntry)
unfolding load_one one_or_none is_owned_entry
read u id owner_id t = do
  row ← one_or_none (filter (is_owned_entry id owner_id t) t.entries)
  load_one u row

-- The `JOIN` and `WHERE` of `list_by_wallet`.
abbrev pub is_listed_entry : WalletId → OwnerId → Tables → EntryRow → Bool
is_listed_entry wallet_id owner_id t row =
    row.wallet_id == wallet_id
    && any (λ w. w.id == row.wallet_id && w.owner_id == owner_id) t.wallets

-- `list_by_wallet`
unfoldable pub list_by_wallet :
    Unicode → WalletId → OwnerId → ℕ → Option Text → Tables → Result (Page LedgerEntry)
unfolding to_entity
list_by_wallet u wallet_id owner_id limit cursor t =
    list_page (λ row. row.id) (is_listed_entry wallet_id owner_id t) (to_entity u) limit cursor
      t.entries
