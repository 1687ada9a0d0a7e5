-- ===== src/Presentation/Tools.antt =====
-- What a tool of src/evenkeel/presentation/mcp/server.py comes to and what its client sees, and the
-- scope that a use case is resolved in. Values that are printed stand unprinted.
use Prim.Native.String.{String}
use evenkeel.Prelude.{◌++◌}
use evenkeel.Prelude.Text.{Text, codes}
use evenkeel.Domain.Decimal.{Number}
use evenkeel.Domain.Errors.{Error, Result, ok, err, application, domain, driver, error_message}
use evenkeel.Domain.Wallet.{Uuid, Wallet, WalletStatus, Instant}
use evenkeel.Domain.Ledger.{LedgerDirection, LedgerEntry}
use evenkeel.Application.Action.{Action}
use evenkeel.Presentation.Problem.{code_value, domain_code_value, sentence}

-- What a tool comes to: an answer, an error of a use case, or what `_invalid` makes of a message.
pub data Told (A : Type 0) : Type 0 where
  told : A → Told A
  failed : Error → Told A
  invalid : Text → Told A

abbrev pub Tool : Type 0 → Type 0 → Type 0
Tool W A = W → Told A × W

abbrev pub of_result : {A : Type 0} → Result A → Told A
of_result (ok a) = told a
of_result (err e) = failed e

abbrev pub call : {W A : Type 0} → Action W A → Tool W A
call m w = let (r, w') = m w in (of_result r, w')

abbrev pub settled : {W A : Type 0} → Told A → Tool W A
settled x w = (x, w)

abbrev pub resume : {W A B : Type 0} → Told A → (A → Tool W B) → Tool W B
resume (told a) f w = f a w
resume (failed e) f w = (failed e, w)
resume (invalid m) f w = (invalid m, w)

infixl 5 ◌>>=◌
abbrev pub ◌>>=◌ : {W A B : Type 0} → Tool W A → (A → Tool W B) → Tool W B
◌>>=◌ m f w = let (r, w') = m w in resume r f w'

-- What a client of the server sees.
pub data Answer (A : Type 0) : Type 0 where
  answer : A → Answer A
  tool_error : Text → Answer A
  unhandled : String → Answer A

-- `f"{code}: {message}"`
abbrev pub coded : Text → Text → Text
coded code message = code ++ codes ": " ++ message

-- `_translated`
unfoldable pub translated : {A : Type 0} → Told A → Answer A
unfolding code_value domain_code_value sentence
translated (told a) = answer a
translated (failed (application e)) =
    tool_error (coded (codes (code_value e.code)) (codes (error_message e.code)))
translated (failed (domain e)) =
    tool_error
      (coded (codes (domain_code_value e.code)) (sentence (codes (domain_code_value e.code))))
translated (failed (driver name)) = unhandled name
translated (invalid message) = tool_error (coded (codes "VALIDATION_FAILED") message)

-- The dicts that the tools for reading answer with.
pub record ToolWallet : Type 0 where
  pub wallet_id : Uuid
  pub balance : Number
  pub currency : Text
  pub status : WalletStatus

pub record ListedWallet : Type 0 where
  pub wallet_id : Uuid
  pub balance : Number
  pub currency : Text

pub record ToolEntry : Type 0 where
  pub entry_id : Uuid
  pub direction : LedgerDirection
  pub amount : Number
  pub balance_after : Number
  pub description : Text
  pub occurred_at : Instant

unfoldable pub tool_wallet : Wallet → ToolWallet
tool_wallet w = record {
  wallet_id = w.id;
  balance = w.balance.amount;
  currency = w.balance.currency.value;
  status = w.status;
}

unfoldable pub listed_wallet : Wallet → ListedWallet
listed_wallet w = record {
  wallet_id = w.id;
  balance = w.balance.amount;
  currency = w.balance.currency.value;
}

unfoldable pub tool_entry : LedgerEntry → ToolEntry
tool_entry e = record {
  entry_id = e.id;
  direction = e.direction;
  amount = e.amount.amount;
  balance_after = e.balance_after.amount;
  description = e.description;
  occurred_at = e.occurred_at;
}

-- A container of dependencies: its request scope, and a use case resolved in it.
pub record Container (W I : Type 0) : Type 0 where
  pub enter_scope : Action W (Unit {0})
  pub get : Action W I
  pub exit_scope : W → W

module _ {W I : Type 0} (container : Container W I) where
  -- `__aenter__`
  unfoldable pub enter_use_case : Tool W I
  enter_use_case = do entered ← call container.enter_scope; call container.get

  -- What stands under `async with _use_case(...)`, with `__aexit__` after it where it was entered.
  unfoldable pub use_case : {A : Type 0} → (I → Tool W A) → Tool W A
  unfolding enter_use_case
  use_case body = do
    interactor ← enter_use_case
    λ w. let (r, w') = body interactor w in (r, container.exit_scope w')
