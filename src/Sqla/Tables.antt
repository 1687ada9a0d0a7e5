-- ===== src/Sqla/Tables.antt =====
-- The rows of src/evenkeel/infrastructure/sqla/tables.py, and a unit of work over them.
use evenkeel.Prelude.{ℕ, Bool, false, ◌||◌, Option, none, some, List, [], ◌∷◌}
use evenkeel.Prelude.Int.{ℤ, negsuc}
use evenkeel.Prelude.Text.{Text}
use evenkeel.Domain.Decimal.{Number}
use evenkeel.Domain.Errors.{Result, ok, err, driver}
use evenkeel.Domain.Wallet.{Uuid, Instant, WalletStatus}
use evenkeel.Domain.Ledger.{LedgerDirection}

pub record WalletRow : Type 0 where
  pub id : Uuid
  pub owner_id : Uuid
  pub balance_amount : ℤ
  pub currency : Text
  pub status : WalletStatus
  pub version : ℕ
  pub created_at : Instant
  pub updated_at : Instant

pub record EntryRow : Type 0 where
  pub id : Uuid
  pub wallet_id : Uuid
  pub direction : LedgerDirection
  pub amount : ℤ
  pub currency : Text
  pub balance_after : ℤ
  pub description : Text
  pub occurred_at : Instant

pub record Tables : Type 0 where
  pub wallets : List WalletRow
  pub entries : List EntryRow

-- What is committed, and what the session's open transaction sees.
pub record Database : Type 0 where
  pub committed : Tables
  pub working : Tables

unfoldable pub commit : Database → Database
commit d = record { committed = d.working; working = d.working }

unfoldable pub rollback : Database → Database
rollback d = record { committed = d.committed; working = d.committed }

-- `Result.one_or_none()`
unfoldable pub one_or_none {ℓ} : {A : Type ℓ} → List A → Result (Option A)
one_or_none [] = ok none
one_or_none (x ∷ []) = ok (some x)
one_or_none (x ∷ y ∷ xs) = err (driver "MultipleResultsFound")

abbrev pub any {ℓ} : {A : Type ℓ} → (A → Bool) → List A → Bool
any p [] = false
any p (x ∷ xs) = p x || any p xs

-- A value that a NUMERIC(20, 2) column returns.
abbrev pub numeric : ℤ → Number
numeric cents = record { coefficient = cents; exponent = negsuc 1 }
