-- ===== src/Application/ListWallets.antt =====
-- `ListWalletsInteractor` of src/evenkeel/application/interactors/wallets/read_wallets.py.
use Prim.Native.String.{String}
use evenkeel.Prelude.{ℕ, ◌||◌, Option, [], ◌∷◌, ltb}
use evenkeel.Prelude.Text.{Text}
use evenkeel.Domain.Errors.{
  Result, ok, validation_error, validation_failed, number, raise_if, raise_application, ◌>>◌,
}
use evenkeel.Domain.Wallet.{Wallet, OwnerId}
use evenkeel.Ports.{Page}
use evenkeel.Application.Action.{Action}
use evenkeel.Application.ReadWallets.{max_page_size, ReadOutcome, succeeded}

pub record ListWalletsQuery : Type 0 where
  pub owner_id : OwnerId
  pub limit : ℕ
  pub cursor : Option Text

-- `ListWalletsQuery(...)` with its `__post_init__`.
unfoldable pub wallets_query : ListWalletsQuery → Result ListWalletsQuery
wallets_query q =
    raise_if (ltb q.limit 1 || ltb max_page_size q.limit)
      (raise_application validation_error validation_failed (("limit", number max_page_size) ∷ []))
    >> ok q

pub record ListPorts (W : Type 0) : Type 0 where
  pub list_by_owner : OwnerId → ℕ → Option Text → Action W (Page Wallet)
  pub observe : String → ReadOutcome → W → W

-- `__call__`: its `finally` observes a success, whatever was raised.
unfoldable pub list_wallets : {W : Type 0} → ListPorts W → ListWalletsQuery → Action W (Page Wallet)
list_wallets ports q w =
    let (r, w') = ports.list_by_owner q.owner_id q.limit q.cursor w in
    (r, ports.observe "list_wallets" succeeded w')
