-- ===== src/Presentation/Wallets.antt =====
-- The handlers of src/evenkeel/presentation/http/routers/v1/wallets.py and the schemas of
-- src/evenkeel/presentation/http/schemas/v1/wallets.py. A handler is given the request that the
-- framework validated, and the interactor; `upper` is Python's `str.upper`.
use evenkeel.Prelude.{ℕ, Bool, Option, map}
use evenkeel.Prelude.Text.{Text}
use evenkeel.Domain.Decimal.{Number, Decimal}
use evenkeel.Domain.Errors.{Result, ok, err}
use evenkeel.Domain.Money.{Unicode, Money, currency_code, money, zero_amount}
use evenkeel.Domain.Wallet.{Uuid, OwnerId, WalletId, Instant, Wallet, WalletStatus, opened}
use evenkeel.Domain.Ledger.{LedgerDirection, LedgerEntry}
use evenkeel.Ports.{Page}
use evenkeel.Application.Action.{Action, pure, lift, ◌>>=◌}
use evenkeel.Application.OpenWallet.{OpenWalletCommand, OpenWalletResult}
use evenkeel.Application.MoveMoney.{MoveCommand, MovementResult}
use evenkeel.Application.ReadWallets.{GetWalletQuery, ListLedgerQuery, list_query}
use evenkeel.Application.ListWallets.{ListWalletsQuery, wallets_query}

pub record MoneyRequest : Type 0 where
  pub amount : Decimal
  pub currency : Text
  pub description : Text

pub record WalletResponse : Type 0 where
  pub id : Uuid
  pub owner_id : Uuid
  pub balance : Number
  pub currency : Text
  pub status : WalletStatus
  pub version : ℕ

-- `WalletResponse.of`
unfoldable pub wallet_response : Wallet → WalletResponse
wallet_response w = record {
  id = w.id;
  owner_id = w.owner_id;
  balance = w.balance.amount;
  currency = w.balance.currency.value;
  status = w.status;
  version = w.version;
}

-- The entry as it is shown; the time stands unprinted.
pub record LedgerEntryResponse : Type 0 where
  pub id : Uuid
  pub direction : LedgerDirection
  pub amount : Number
  pub currency : Text
  pub balance_after : Number
  pub description : Text
  pub occurred_at : Instant

-- `LedgerEntryResponse.of`
unfoldable pub entry_response : LedgerEntry → LedgerEntryResponse
entry_response e = record {
  id = e.id;
  direction = e.direction;
  amount = e.amount.amount;
  currency = e.amount.currency.value;
  balance_after = e.balance_after.amount;
  description = e.description;
  occurred_at = e.occurred_at;
}

pub record MovementResponse : Type 0 where
  pub entry_id : Uuid
  pub wallet_id : Uuid
  pub balance : Number
  pub currency : Text
  pub replayed : Bool

-- `_movement_response`
unfoldable pub movement_response : MovementResult → MovementResponse
movement_response r = record {
  entry_id = r.entry_id;
  wallet_id = r.wallet_id;
  balance = r.balance.amount;
  currency = r.balance.currency.value;
  replayed = r.replayed;
}

-- `Money(amount=..., currency=CurrencyCode(currency.upper()))`
unfoldable pub request_money : Unicode → (Text → Text) → Decimal → Text → Result Money
request_money u upper amount currency = elim (currency_code u (upper currency)) [
  | err e ↦ err e
  | ok code ↦ money amount code
]

module _ {W : Type 0} (u : Unicode) (upper : Text → Text) (principal : OwnerId) where
  -- `open_wallet`
  unfoldable pub open_wallet :
      (OpenWalletCommand → Action W OpenWalletResult) → Text → Action W WalletResponse
  open_wallet interactor currency = do
    code ← lift (currency_code u (upper currency))
    result ← interactor (record { owner_id = principal; currency = code })
    pure (record {
      id = result.wallet_id;
      owner_id = principal;
      balance = zero_amount;
      currency = result.currency.value;
      status = opened;
      version = 0;
    })

  -- `deposit` and `withdraw`, each with its interactor.
  unfoldable pub post_movement :
      (MoveCommand → Action W MovementResult)
      → WalletId
      → MoneyRequest
      → Option Text
      → Action W MovementResponse
  unfolding request_money movement_response
  post_movement interactor wallet_id payload idempotency_key = do
    amount ← lift (request_money u upper payload.amount payload.currency)
    result ← interactor (record {
      wallet_id = wallet_id;
      owner_id = principal;
      amount = amount;
      description = payload.description;
      idempotency_key = idempotency_key;
    })
    pure (movement_response result)

  -- `get_wallet`
  unfoldable pub get_wallet :
      (GetWalletQuery → Action W Wallet) → WalletId → Action W WalletResponse
  unfolding wallet_response
  get_wallet interactor wallet_id = do
    wallet ← interactor (record { wallet_id = wallet_id; owner_id = principal })
    pure (wallet_response wallet)

  -- `list_wallets`
  unfoldable pub list_wallets :
      (ListWalletsQuery → Action W (Page Wallet)) → ℕ → Option Text → Action W (Page WalletResponse)
  unfolding wallet_response
  list_wallets interactor limit cursor = do
    query ← lift (wallets_query (record { owner_id = principal; limit = limit; cursor = cursor }))
    page ← interactor query
    pure (record { items = map wallet_response page.items; next_cursor = page.next_cursor })

  -- `list_entries`
  unfoldable pub list_entries :
      (ListLedgerQuery → Action W (Page LedgerEntry))
      → WalletId
      → ℕ
      → Option Text
      → Action W (Page LedgerEntryResponse)
  unfolding entry_response
  list_entries interactor wallet_id limit cursor = do
    query ← lift (
        list_query
          (record { wallet_id = wallet_id; owner_id = principal; limit = limit; cursor = cursor }))
    page ← interactor query
    pure (record { items = map entry_response page.items; next_cursor = page.next_cursor })
