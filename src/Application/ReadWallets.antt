-- ===== src/Application/ReadWallets.antt =====
-- The queries of src/evenkeel/application/interactors/wallets/read_wallets.py, over the
-- repositories.
pub mod Scoped
use Prim.Native.String.{String}
use evenkeel.Prelude.{ℕ, Bool, true, false, ◌||◌, Option, none, some, [], ◌∷◌, ltb, if◌then◌else◌}
use evenkeel.Prelude.Text.{Text}
use evenkeel.Domain.Errors.{
  Error, Result, ok, err, application, not_found_error, wallet_not_found, validation_error,
  validation_failed, uuid, number, raise_if, raise_application, ◌>>◌,
}
use evenkeel.Domain.Wallet.{Wallet, WalletId, OwnerId}
use evenkeel.Domain.Ledger.{LedgerEntry}
use evenkeel.Ports.{Page}
use evenkeel.Application.Action.{Action, raise}

-- `MAX_PAGE_SIZE`
abbrev pub max_page_size : ℕ
max_page_size = 100

pub record GetWalletQuery : Type 0 where
  pub wallet_id : WalletId
  pub owner_id : OwnerId

pub record ListLedgerQuery : Type 0 where
  pub wallet_id : WalletId
  pub owner_id : OwnerId
  pub limit : ℕ
  pub cursor : Option Text

-- `ListLedgerQuery(...)`: its `__post_init__` lets a limit from 1 to the largest page through.
unfoldable pub list_query : ListLedgerQuery → Result ListLedgerQuery
list_query q =
    raise_if (ltb q.limit 1 || ltb max_page_size q.limit)
      (raise_application validation_error validation_failed (("limit", number max_page_size) ∷ []))
    >> ok q

-- The label that is observed.
pub data ReadOutcome : Type 0 where
  errored not_found succeeded : ReadOutcome

pub record ReadPorts (W : Type 0) : Type 0 where
  pub read_wallet : WalletId → OwnerId → Action W (Option Wallet)
  pub list_entries : WalletId → OwnerId → ℕ → Option Text → Action W (Page LedgerEntry)
  pub observe : String → ReadOutcome → W → W

abbrev pub no_wallet : WalletId → Error
no_wallet id = application (record {
  kind = not_found_error;
  code = wallet_not_found;
  details = ("wallet_id", uuid id) ∷ [];
})

module _ {W : Type 0} (ports : ReadPorts W) where
  -- The `finally` block, for a label.
  abbrev observed : {A : Type 0} → String → ReadOutcome → Result A × W → Result A × W
  observed name o (r, w) = (r, ports.observe name o w)

  -- The label of a last step that may raise.
  abbrev labelled : {A : Type 0} → Result A → ReadOutcome
  labelled (ok a) = succeeded
  labelled (err e) = errored

  get_answered : WalletId → Result (Option Wallet) × W → Result Wallet × W
  get_answered id (ok none, w) = observed "get_wallet" not_found (err (no_wallet id), w)
  get_answered id (ok (some wallet), w) = observed "get_wallet" succeeded (ok wallet, w)
  get_answered id (err e, w) = observed "get_wallet" errored (err e, w)

  -- `GetWalletInteractor.__call__`
  unfoldable pub get_wallet : GetWalletQuery → Action W Wallet
  unfolding get_answered
  get_wallet q w = get_answered q.wallet_id (ports.read_wallet q.wallet_id q.owner_id w)

  unfoldable pub listed : Result (Page LedgerEntry) × W → Result (Page LedgerEntry) × W
  listed (r, w) = observed "list_ledger_entries" (labelled r) (r, w)

  unfoldable pub list_answered :
      ListLedgerQuery → Result (Option Wallet) × W → Result (Page LedgerEntry) × W
  unfolding listed
  list_answered q (ok none, w) =
      observed "list_ledger_entries" not_found (err (no_wallet q.wallet_id), w)
  list_answered q (ok (some wallet), w) =
      listed (ports.list_entries q.wallet_id q.owner_id q.limit q.cursor w)
  list_answered q (err e, w) = observed "list_ledger_entries" errored (err e, w)

  -- `ListLedgerEntriesInteractor.__call__`
  unfoldable pub list_ledger_entries : ListLedgerQuery → Action W (Page LedgerEntry)
  unfolding list_answered
  list_ledger_entries q w = list_answered q (ports.read_wallet q.wallet_id q.owner_id w)
