-- ===== src/Application/OpenWallet.antt =====
-- `OpenWalletInteractor` of src/evenkeel/application/interactors/wallets/open_wallet.py, over the
-- ports that it is constructed with.
pub mod Opened
use evenkeel.Prelude.{Bool, true, false}
use evenkeel.Domain.Errors.{Result, ok, err}
use evenkeel.Domain.Money.{CurrencyCode}
use evenkeel.Domain.Wallet.{Uuid, WalletId, OwnerId, Instant, Wallet, open_wallet}
use evenkeel.Application.Action.{Action, pure, lift, continue, ◌>>=◌, ◌>>◌}

pub record OpenWalletCommand : Type 0 where
  pub owner_id : OwnerId
  pub currency : CurrencyCode

pub record OpenWalletResult : Type 0 where
  pub wallet_id : WalletId
  pub currency : CurrencyCode

pub record OpenPorts (W : Type 0) : Type 0 where
  pub generate : Action W Uuid
  pub now : Action W Instant
  pub add_wallet : Wallet → Action W (Unit {0})
  pub commit : Action W (Unit {0})
  pub observe : Bool → W → W

-- The label: "created", or "error".
abbrev created {ℓ} : {A : Type ℓ} → Result A → Bool
created (ok a) = true
created (err e) = false

module _ {W : Type 0} (ports : OpenPorts W) where
  -- From the new wallet on.
  unfoldable pub store : Wallet → Action W OpenWalletResult
  store wallet = do
    ports.add_wallet wallet
    ports.commit
    pure (record { wallet_id = wallet.id; currency = wallet.balance.currency })

  -- The body of the `try`.
  unfoldable pub opened_body : OpenWalletCommand → Action W OpenWalletResult
  unfolding store
  opened_body c = do
    id ← ports.generate
    now ← ports.now
    wallet ← lift (open_wallet id c.owner_id c.currency now)
    store wallet

  -- `__call__`
  unfoldable pub open_new : OpenWalletCommand → Action W OpenWalletResult
  unfolding opened_body
  open_new c w = let (r, w') = opened_body c w in (r, ports.observe (created r) w')
