-- ===== src/Presentation/Mcp.antt =====
-- src/evenkeel/presentation/mcp/server.py: the tools, over the interactors that the HTTP handlers
-- call. Values that are printed stand unprinted; how Python reads a decimal and a UUID, prints the
-- repr of a text and changes its case is given.
pub mod Scoped
pub mod Same
use Prim.Native.String.{String}
use evenkeel.Prelude.{ℕ, Bool, Option, none, some, List, [], ◌∷◌, ◌++◌, map}
use evenkeel.Prelude.Text.{Text, codes}
use evenkeel.Domain.Decimal.{Number, Decimal, finite, infinity, nan}
use evenkeel.Domain.Errors.{Error, Result, ok, err, application, domain, driver, error_message}
use evenkeel.Domain.Money.{Unicode, Money, CurrencyCode, currency_code, money}
use evenkeel.Domain.Wallet.{Uuid, OwnerId, WalletId, Wallet, WalletStatus, Instant}
use evenkeel.Domain.Ledger.{LedgerDirection, LedgerEntry}
use evenkeel.Ports.{Page}
use evenkeel.Application.Action.{Action}
use evenkeel.Application.OpenWallet.{OpenWalletCommand, OpenWalletResult}
use evenkeel.Application.MoveMoney.{MoveCommand, MovementResult, described}
use evenkeel.Application.ReadWallets.{GetWalletQuery, ListLedgerQuery, list_query}
use evenkeel.Application.ListWallets.{ListWalletsQuery, wallets_query}
use evenkeel.Presentation.Problem.{code_value, domain_code_value, sentence}
use evenkeel.Presentation.Wallets.{MovementResponse, movement_response}
use evenkeel.Presentation.Tools.{
  Told, told, failed, invalid, Tool, of_result, call, settled, resume, ◌>>=◌, ToolWallet,
  ListedWallet, ToolEntry, tool_wallet, listed_wallet, tool_entry, Container, use_case,
}

-- Python, as far as the arguments of a tool are read with it.
pub record Python : Type 0 where
  pub decimal : Text → Option Decimal
  pub uuid : Text → Option Uuid
  pub repr : Text → Text
  pub upper : Text → Text

module _ (u : Unicode) (python : Python) where
  currency_read : Text → Result CurrencyCode → Told CurrencyCode
  currency_read code (ok c) = told c
  currency_read code (err e) =
      invalid (codes "currency must be an ISO 4217 code, got " ++ python.repr code)

  -- `_currency`
  unfoldable pub tool_currency : Text → Told CurrencyCode
  unfolding currency_read
  tool_currency code = currency_read code (currency_code u (python.upper code))

  -- `Money(...)`, of what the currency came to.
  money_in : Decimal → Told CurrencyCode → Told Money
  money_in amount (told c) = of_result (money amount c)
  money_in amount (failed e) = failed e
  money_in amount (invalid m) = invalid m

  -- From the parsed amount on.
  money_parsed : Text → Text → Option Decimal → Told Money
  unfolding tool_currency money_in
  money_parsed amount currency none =
      invalid (codes "amount must be a decimal string, got " ++ python.repr amount)
  money_parsed amount currency (some (finite n)) = money_in (finite n) (tool_currency currency)
  money_parsed amount currency (some _) = invalid (codes "amount must be a finite number")

  -- `_money`
  unfoldable pub tool_money : Text → Text → Told Money
  unfolding money_parsed
  tool_money amount currency = money_parsed amount currency (python.decimal amount)

  id_read : Text → Option Uuid → Told WalletId
  id_read value (some id) = told id
  id_read value none = invalid (codes "wallet_id must be a UUID, got " ++ python.repr value)

  -- `_wallet_id`
  unfoldable pub tool_wallet_id : Text → Told WalletId
  unfolding id_read
  tool_wallet_id value = id_read value (python.uuid value)

  module _ {W : Type 0} (owner : OwnerId) where
    -- `open_wallet`
    unfoldable pub open_wallet_tool :
        Container W (OpenWalletCommand → Action W OpenWalletResult) → Text → Tool W (Uuid × Text)
    unfolding use_case tool_currency
    open_wallet_tool container currency = use_case container (λ interactor. do
      code ← settled (tool_currency currency)
      result ← call (interactor (record { owner_id = owner; currency = code }))
      settled (told (result.wallet_id, result.currency.value)))

    -- `deposit` and `withdraw`, each with its interactor and its default description.
    unfoldable pub movement_tool :
        Container W (MoveCommand → Action W MovementResult)
        → LedgerDirection
        → Text
        → Text
        → Text
        → Text
        → Option Text
        → Tool W MovementResponse
    unfolding use_case tool_wallet_id tool_money movement_response
    movement_tool container direction wallet_id amount currency description idempotency_key =
        use_case container (λ interactor. do
          id ← settled (tool_wallet_id wallet_id)
          sum ← settled (tool_money amount currency)
          result ← call (
              interactor (record {
                wallet_id = id;
                owner_id = owner;
                amount = sum;
                description = described direction description;
                idempotency_key = idempotency_key;
              }))
          settled (told (movement_response result)))

    -- `get_wallet`
    unfoldable pub get_wallet_tool :
        Container W (GetWalletQuery → Action W Wallet) → Text → Tool W ToolWallet
    unfolding use_case tool_wallet_id tool_wallet
    get_wallet_tool container wallet_id = use_case container (λ interactor. do
      id ← settled (tool_wallet_id wallet_id)
      wallet ← call (interactor (record { wallet_id = id; owner_id = owner }))
      settled (told (tool_wallet wallet)))

    -- `list_wallets`
    unfoldable pub list_wallets_tool :
        Container W (ListWalletsQuery → Action W (Page Wallet))
        → ℕ
        → Option Text
        → Tool W (Page ListedWallet)
    unfolding use_case listed_wallet
    list_wallets_tool container limit cursor = use_case container (λ interactor. do
      query ←
          settled (
            of_result (wallets_query (record { owner_id = owner; limit = limit; cursor = cursor })))
      page ← call (interactor query)
      settled
          (told (record { items = map listed_wallet page.items; next_cursor = page.next_cursor })))

    -- `list_entries`
    unfoldable pub list_entries_tool :
        Container W (ListLedgerQuery → Action W (Page LedgerEntry))
        → Text
        → ℕ
        → Option Text
        → Tool W (Page ToolEntry)
    unfolding use_case tool_wallet_id tool_entry
    list_entries_tool container wallet_id limit cursor = use_case container (λ interactor. do
      id ← settled (tool_wallet_id wallet_id)
      query ← settled (
          of_result (
            list_query
              (record { wallet_id = id; owner_id = owner; limit = limit; cursor = cursor })))
      page ← call (interactor query)
      settled (told (record { items = map tool_entry page.items; next_cursor = page.next_cursor })))
