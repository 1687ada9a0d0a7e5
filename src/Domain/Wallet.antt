-- ===== src/Domain/Wallet.antt =====
-- The wallet aggregate: src/evenkeel/domain/entities/wallet.py. Identifiers are UUIDs read as
-- numbers, and a point in time is a number. A method returns the wallet it has changed, and one
-- that raises has changed nothing, since each raises before its first assignment.
pub mod Laws
pub mod Accepted
use evenkeel.Prelude.{ℕ, ◌+◌, Bool, true, false, not, [], ◌∷◌, if◌then◌else◌, ◌==◌}
use evenkeel.Domain.Decimal.{finite, negative}
use evenkeel.Domain.Errors.{
  Result, ok, Context, raise_domain, raise_if, ◌>>=◌, ◌>>◌, decimal, uuid, wallet_balance_negative,
  wallet_closed, wallet_insufficient_funds, wallet_not_empty,
}
use evenkeel.Domain.Money.{
  CurrencyCode, Money, money_zero, money_add, money_sub, money_less, require_positive, is_zero,
}

abbrev pub Uuid : Type 0
Uuid = ℕ

-- The typed identifiers of src/evenkeel/domain/value_objects/ids.py.
abbrev pub WalletId : Type 0
WalletId = Uuid

abbrev pub OwnerId : Type 0
OwnerId = Uuid

abbrev pub LedgerEntryId : Type 0
LedgerEntryId = Uuid

abbrev pub Instant : Type 0
Instant = ℕ

pub data WalletStatus : Type 0 where
  opened closed : WalletStatus

pub record Wallet : Type 0 where
  pub id : WalletId
  pub owner_id : OwnerId
  pub balance : Money
  pub status : WalletStatus
  pub version : ℕ
  pub created_at : Instant
  pub updated_at : Instant

-- `Wallet.__init__`, which is also how a row is loaded.
unfoldable pub new_wallet : Wallet → Result Wallet
new_wallet w = do
  raise_if (negative w.balance.amount) (
      raise_domain wallet_balance_negative
        (("wallet_id", uuid w.id) ∷ ("balance", decimal (finite w.balance.amount)) ∷ []))
  ok w

-- `Wallet.open`
unfoldable pub open_wallet : WalletId → OwnerId → CurrencyCode → Instant → Result Wallet
unfolding new_wallet
open_wallet id owner_id currency now = do
  balance ← money_zero currency
  new_wallet (record {
    id = id;
    owner_id = owner_id;
    balance = balance;
    status = opened;
    version = 0;
    created_at = now;
    updated_at = now;
  })

unfoldable pub is_owned_by : Wallet → OwnerId → Bool
is_owned_by w owner_id = w.owner_id == owner_id

abbrev pub is_open : WalletStatus → Bool
is_open opened = true
is_open closed = false

unfoldable pub require_open : Wallet → Result (Unit {0})
require_open w =
    raise_if (not (is_open w.status)) (raise_domain wallet_closed (("wallet_id", uuid w.id) ∷ []))

unfoldable pub touch : Wallet → Instant → Wallet
touch w now = record w { version = w.version + 1; updated_at = now }

-- The wallet after the call, and the balance that the call returns.
unfoldable pub deposit : Wallet → Money → Instant → Result (Wallet × Money)
unfolding touch
deposit w amount now = do
  require_open w
  require_positive amount
  balance ← money_add w.balance amount
  ok (touch (record w { balance = balance }) now, balance)

-- The context of a refused withdrawal.
unfoldable pub shortfall : Wallet → Money → Context
shortfall w amount =
    ("wallet_id", uuid w.id)
    ∷ ("balance", decimal (finite w.balance.amount))
    ∷ ("requested", decimal (finite amount.amount))
    ∷ []

unfoldable pub withdraw : Wallet → Money → Instant → Result (Wallet × Money)
unfolding touch shortfall
withdraw w amount now = do
  require_open w
  require_positive amount
  short ← money_less w.balance amount
  raise_if short (raise_domain wallet_insufficient_funds (shortfall w amount))
  balance ← money_sub w.balance amount
  ok (touch (record w { balance = balance }) now, balance)

unfoldable pub close : Wallet → Instant → Result Wallet
unfolding touch
close w now = do
  require_open w
  raise_if (not (is_zero w.balance)) (
      raise_domain wallet_not_empty
        (("wallet_id", uuid w.id) ∷ ("balance", decimal (finite w.balance.amount)) ∷ []))
  ok (touch (record w { status = closed }) now)
