-- ===== src/Tests/Wallets.antt =====
-- Money, wallets and rows of src/evenkeel/domain and src/evenkeel/infrastructure/adapters/sqla at
-- concrete inputs.
use evenkeel.Prelude.{◌<◌, ◌^◌, ◌≡◌, refl, arith}
use evenkeel.Prelude.Int.{ℤ, pos, negsuc, ◌+ℤ◌, ◌-ℤ◌, ◌≤ℤ◌, scale, abs, ltb_ℤ}
use evenkeel.Prelude.Text.{codes}
use evenkeel.Domain.Decimal.{add, sub, less, common_exponent, aligned}
use evenkeel.Domain.Decimal.Cents.{cents, less-cents}
use evenkeel.Domain.Errors.{ok}
use evenkeel.Domain.Money.{
  CurrencyCode, Money, money, money_max, money_add, money_sub, money_less, require_positive,
  assert_same_currency,
}
use evenkeel.Domain.Money.Laws.{value, IsMoney}
use evenkeel.Domain.Wallet.{Wallet, opened, closed, deposit, withdraw, require_open, touch}
use evenkeel.Domain.Wallet.Laws.{IsValid, MovesTo, deposit-ok, withdraw-ok}
use evenkeel.Domain.Wallet.Accepted.{moved_wallet, withdrawn, withdraw_succeeds}

abbrev eur : CurrencyCode
eur = record { value = codes "EUR" }

-- An amount in cents.
abbrev euros : ℤ → Money
euros n = record { amount = record { coefficient = n; exponent = negsuc 1 }; currency = eur }

abbrev wallet : Wallet
wallet = record {
  id = 7;
  owner_id = 3;
  balance = euros (pos 1000);
  status = opened;
  version = 4;
  created_at = 100;
  updated_at = 200;
}

abbrev shut : Wallet
shut = record wallet { status = closed }

deposit_run :
    deposit wallet (euros (pos 250)) 300
    ≡ ok (moved_wallet wallet (euros (pos 1250)) 300, euros (pos 1250))
unfolding deposit moved_wallet touch require_open require_positive money_add money add
    common_exponent aligned scale ◌+ℤ◌ ◌-ℤ◌ less money_max sub assert_same_currency
deposit_run = refl

withdraw_run :
    withdraw wallet (euros (pos 250)) 300
    ≡ ok (moved_wallet wallet (euros (pos 750)) 300, euros (pos 750))
unfolding withdraw moved_wallet touch require_open require_positive money_sub money_less money add
    common_exponent aligned scale ◌+ℤ◌ ◌-ℤ◌ less money_max sub assert_same_currency
withdraw_run = refl

small-IsMoney : IsMoney (euros (pos 250))
unfolding cents scale ◌+ℤ◌
small-IsMoney = record { scaled = omega arith; bounded = omega arith }

large-IsMoney : IsMoney (euros (pos 2500))
unfolding cents scale ◌+ℤ◌
large-IsMoney = record { scaled = omega arith; bounded = omega arith }

wallet-IsValid : IsValid wallet
unfolding cents scale ◌+ℤ◌
wallet-IsValid = record {
  balance = record { scaled = omega arith; bounded = omega arith };
  nonnegative = omega arith;
}

deposit-ok_example :
    (wallet.status ≡ opened)
    × (pos 1 ≤ℤ value (euros (pos 250)))
    × (wallet.balance.currency ≡ eur)
    × MovesTo wallet (euros (pos 1250)) 300 (moved_wallet wallet (euros (pos 1250)) 300)
    × IsMoney (euros (pos 1250))
    × (eur ≡ wallet.balance.currency)
    × (value (euros (pos 1250)) ≡ value wallet.balance +ℤ value (euros (pos 250)))
deposit-ok_example =
    deposit-ok wallet (moved_wallet wallet (euros (pos 1250)) 300) (euros (pos 250))
      (euros (pos 1250)) 300 wallet-IsValid small-IsMoney deposit_run

withdraw-ok_example :
    (wallet.status ≡ opened)
    × (pos 1 ≤ℤ value (euros (pos 250)))
    × (wallet.balance.currency ≡ eur)
    × MovesTo wallet (euros (pos 750)) 300 (moved_wallet wallet (euros (pos 750)) 300)
    × IsMoney (euros (pos 750))
    × (eur ≡ wallet.balance.currency)
    × (value (euros (pos 750)) ≡ value wallet.balance -ℤ value (euros (pos 250)))
    × (value (euros (pos 250)) ≤ℤ value wallet.balance)
withdraw-ok_example =
    withdraw-ok wallet (moved_wallet wallet (euros (pos 750)) 300) (euros (pos 250))
      (euros (pos 750)) 300 wallet-IsValid small-IsMoney withdraw_run

small_positive : pos 1 ≤ℤ value (euros (pos 250))
unfolding cents scale ◌+ℤ◌
small_positive = omega arith

small_fits : abs (value wallet.balance +ℤ value (euros (pos 250))) < 10 ^ 20
unfolding cents scale ◌+ℤ◌
small_fits = omega arith

small_covered : value (euros (pos 250)) ≤ℤ value wallet.balance
unfolding cents scale ◌+ℤ◌
small_covered = omega arith

large_uncovered : ¬ (value (euros (pos 2500)) ≤ℤ value wallet.balance)
unfolding cents scale ◌+ℤ◌
large_uncovered = λ h. omega (arith, h)

withdraw_succeeds_example :
    withdraw wallet (euros (pos 250)) 300
    ≡ ok (
      moved_wallet wallet (withdrawn wallet (euros (pos 250))) 300,
      withdrawn wallet (euros (pos 250)),
    )
withdraw_succeeds_example =
    withdraw_succeeds wallet (euros (pos 250)) 300 wallet-IsValid small-IsMoney refl small_positive
      refl small_covered

abbrev empty : Wallet
empty = record wallet { balance = euros (pos 0) }

abbrev ended : Wallet
ended = record empty { status = closed; version = 5; updated_at = 300 }

money_add_run : money_add (euros (pos 1000)) (euros (pos 250)) ≡ ok (euros (pos 1250))
unfolding money_add money add common_exponent aligned scale ◌+ℤ◌ ◌-ℤ◌ less money_max sub
    assert_same_currency
money_add_run = refl

less-cents_example :
    less
      (record { coefficient = pos 5; exponent = pos 0 })
      (record { coefficient = pos 45; exponent = negsuc 0 })
    ≡ ltb_ℤ
        (cents (record { coefficient = pos 5; exponent = pos 0 }))
        (cents (record { coefficient = pos 45; exponent = negsuc 0 }))
less-cents_example =
    less-cents (record { coefficient = pos 5; exponent = pos 0 })
      (record { coefficient = pos 45; exponent = negsuc 0 }) (omega arith) (omega arith)
