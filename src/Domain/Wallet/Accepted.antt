-- ===== src/Domain/Wallet/Accepted.antt =====
-- When a movement of src/evenkeel/domain/entities/wallet.py is accepted, and when it is refused.
use evenkeel.Prelude.{◌+◌, ◌^◌, ◌<◌, ◌≡◌, refl, true, false, arith}
use evenkeel.Prelude.Int.{pos, ◌+ℤ◌, ◌-ℤ◌, ◌≤ℤ◌, abs, ltb_ℤ, -ℤ_parts}
use evenkeel.Domain.Decimal.{add, sub}
use evenkeel.Domain.Errors.{ok, raise_domain, wallet_insufficient_funds}
use evenkeel.Domain.Money.{Money}
use evenkeel.Domain.Money.Laws.{
  value, IsMoney, money_add_succeeds, money_sub_succeeds, money_less_same,
  require_positive_succeeds,
}
use evenkeel.Domain.Wallet.{Wallet, Instant, opened, require_open, deposit, withdraw, shortfall}
use evenkeel.Domain.Wallet.Laws.{IsValid}

require_open_succeeds : (w : Wallet) → w.status ≡ opened → require_open w ≡ ok tt
unfolding require_open
require_open_succeeds w e = ground arith

-- The wallet after a movement to a balance.
unfoldable pub moved_wallet : Wallet → Money → Instant → Wallet
moved_wallet w balance now = record w {
  balance = balance;
  version = w.version + 1;
  updated_at = now;
}

abbrev pub deposited : Wallet → Money → Money
deposited w amount = record {
  amount = add w.balance.amount amount.amount;
  currency = w.balance.currency;
}

abbrev pub withdrawn : Wallet → Money → Money
withdrawn w amount = record {
  amount = sub w.balance.amount amount.amount;
  currency = w.balance.currency;
}

-- Into a valid open wallet of the same currency, a validated positive amount that keeps the
-- balance in range is deposited.
pub deposit_succeeds :
    (w : Wallet) (amount : Money) (now : Instant)
    → IsValid w
    → IsMoney amount
    → w.status ≡ opened
    → pos 1 ≤ℤ value amount
    → w.balance.currency ≡ amount.currency
    → abs (value w.balance +ℤ value amount) < 10 ^ 20
    → deposit w amount now ≡ ok (moved_wallet w (deposited w amount) now, deposited w amount)
unfolding deposit moved_wallet
deposit_succeeds w amount now v m opn positive same bound =
    rw
      (
        require_open_succeeds w opn,
        require_positive_succeeds amount positive,
        money_add_succeeds w.balance amount v.balance m same bound,
      )
      refl

-- From a valid open wallet of the same currency, a validated positive amount that the balance
-- covers is withdrawn; the balance stays in range by itself.
pub withdraw_succeeds :
    (w : Wallet) (amount : Money) (now : Instant)
    → IsValid w
    → IsMoney amount
    → w.status ≡ opened
    → pos 1 ≤ℤ value amount
    → w.balance.currency ≡ amount.currency
    → value amount ≤ℤ value w.balance
    → withdraw w amount now ≡ ok (moved_wallet w (withdrawn w amount) now, withdrawn w amount)
unfolding withdraw moved_wallet
withdraw_succeeds w amount now v m opn positive same covered =
    rw
      (
        require_open_succeeds w opn,
        require_positive_succeeds amount positive,
        money_less_same w.balance amount v.balance m same,
        not_short,
        money_sub_succeeds w.balance amount v.balance m same bound,
      )
      refl
  where
    not_short : ltb_ℤ (value w.balance) (value amount) ≡ false
    not_short = ground arith

    bound : abs (value w.balance -ℤ value amount) < 10 ^ 20
    bound = ground (arith, -ℤ_parts (value w.balance) (value amount), v.balance.bounded)

-- A validated amount of the wallet's currency that the balance of a valid open wallet does not
-- cover is refused as insufficient funds.
pub withdraw_refused :
    (w : Wallet) (amount : Money) (now : Instant)
    → IsValid w
    → IsMoney amount
    → w.status ≡ opened
    → w.balance.currency ≡ amount.currency
    → ¬ (value amount ≤ℤ value w.balance)
    → withdraw w amount now ≡ raise_domain wallet_insufficient_funds (shortfall w amount)
unfolding withdraw shortfall
withdraw_refused w amount now v m opn same short =
    rw
      (
        require_open_succeeds w opn,
        require_positive_succeeds amount positive,
        money_less_same w.balance amount v.balance m same,
        is_short,
      )
      refl
  where
    positive : pos 1 ≤ℤ value amount
    positive = omega (arith, v.nonnegative)

    is_short : ltb_ℤ (value w.balance) (value amount) ≡ true
    is_short = ground arith
