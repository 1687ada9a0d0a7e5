-- ===== src/Domain/Money.antt =====
-- Currency codes and money: src/evenkeel/domain/value_objects/money.py.
pub mod Laws
use evenkeel.Prelude.{
  ℕ, ◌+◌, ◌-◌, ◌^◌, Bool, true, false, not, ◌&&◌, ◌||◌, [], ◌∷◌, length, ltb, leb, ◌==◌,
  if◌then◌else◌,
}
use evenkeel.Prelude.Int.{pos, negsuc, neg_part, eqb_ℤ}
use evenkeel.Prelude.Text.{Text, text_beq}
use evenkeel.Domain.Decimal.{
  Number, Decimal, finite, infinity, nan, add, sub, less, magnitude, not_positive,
}
use evenkeel.Domain.Errors.{
  Result, ok, err, driver, raise_domain, raise_if, ◌>>=◌, ◌>>◌, decimal, text, number,
  currency_code_invalid, money_currency_mismatch, money_amount_not_positive, money_scale_exceeded,
  money_amount_not_finite, money_amount_out_of_range,
}

abbrev pub money_scale : ℕ
money_scale = 2

-- `Decimal(10) ** (20 - MONEY_SCALE) - Decimal(1).scaleb(-MONEY_SCALE)`
unfoldable pub money_max : Number
unfolding sub
money_max =
    sub (record { coefficient = pos (10 ^ 18); exponent = pos 0 })
      (record { coefficient = pos 1; exponent = negsuc 1 })

-- What Python's `str.isalpha` and `str.isupper` know of each character.
pub record Unicode : Type 0 where
  pub alphabetic : ℕ → Bool
  pub uppercase : ℕ → Bool
  pub lowercase : ℕ → Bool
  pub titlecase : ℕ → Bool

pub record CurrencyCode : Type 0 where
  pub value : Text

all_alphabetic : Unicode → Text → Bool
all_alphabetic u [] = true
all_alphabetic u (c ∷ s) = u.alphabetic c && all_alphabetic u s

-- `str.isalpha`: no other character, and not empty.
unfoldable pub is_alpha : Unicode → Text → Bool
unfolding all_alphabetic
is_alpha u [] = false
is_alpha u (c ∷ s) = all_alphabetic u (c ∷ s)

-- `str.isupper`: some uppercase character, and none in lower or title case.
unfoldable pub is_upper_from : Bool → Unicode → Text → Bool
is_upper_from seen u [] = seen
is_upper_from seen u (c ∷ s) =
    let rest = is_upper_from (seen || u.uppercase c) u s in
    if u.lowercase c || u.titlecase c then false else rest

-- `CurrencyCode(value)` with its `_validate`.
unfoldable pub currency_code : Unicode → Text → Result CurrencyCode
unfolding is_alpha is_upper_from
currency_code u t =
    if not (length t == 3) || not (is_alpha u t) || not (is_upper_from false u t)
    then raise_domain currency_code_invalid (("value", text t) ∷ [])
    else ok (record { value = t })

abbrev pub same_currency : CurrencyCode → CurrencyCode → Bool
same_currency c d = text_beq c.value d.value

pub record Money : Type 0 where
  pub amount : Number
  pub currency : CurrencyCode

-- From here on a magnitude rounds, at the 28 digits of the context, past its largest exponent.
overflow_bound : Number
overflow_bound = record { coefficient = pos (10 ^ 29 - 5); exponent = pos 999971 }

-- What is raised for a number that is out of range: `abs` itself raises past the context's exponents.
refuse_range : Number → Result (Unit {0})
unfolding overflow_bound
refuse_range n =
    if not (less (magnitude n) overflow_bound)
    then err (driver "Overflow")
    else raise_domain money_amount_out_of_range
        (("amount", decimal (finite n)) ∷ ("max", decimal (finite money_max)) ∷ [])

-- `Money(amount, currency)` with its `_validate`.
unfoldable pub money : Decimal → CurrencyCode → Result Money
unfolding refuse_range
money infinity c = raise_domain money_amount_not_finite (("amount", decimal infinity) ∷ [])
money nan c = raise_domain money_amount_not_finite (("amount", decimal nan) ∷ [])
money (finite n) c = do
  raise_if (ltb money_scale (neg_part n.exponent)) (
      raise_domain money_scale_exceeded
        (("amount", decimal (finite n)) ∷ ("max_scale", number money_scale) ∷ []))
  raise_if (less money_max (magnitude n)) (refuse_range n)
  ok (record { amount = n; currency = c })

-- `Money.zero`: the literal "0.00" passes its own validation.
unfoldable pub zero_amount : Number
zero_amount = record { coefficient = pos 0; exponent = negsuc 1 }

unfoldable pub money_zero : CurrencyCode → Result Money
unfolding money zero_amount
money_zero c = money (finite zero_amount) c

unfoldable pub assert_same_currency : Money → Money → Result (Unit {0})
assert_same_currency m o = raise_if (not (same_currency m.currency o.currency)) (
    raise_domain money_currency_mismatch
      (("left", text m.currency.value) ∷ ("right", text o.currency.value) ∷ []))

unfoldable pub require_positive : Money → Result Money
require_positive m = do
  raise_if (not_positive m.amount)
      (raise_domain money_amount_not_positive (("amount", decimal (finite m.amount)) ∷ []))
  ok m

-- `__add__`, `__sub__`, `__lt__` and `is_zero`
unfoldable pub money_add : Money → Money → Result Money
unfolding assert_same_currency
money_add m o = do assert_same_currency m o; money (finite (add m.amount o.amount)) m.currency

unfoldable pub money_sub : Money → Money → Result Money
unfolding assert_same_currency
money_sub m o = do assert_same_currency m o; money (finite (sub m.amount o.amount)) m.currency

unfoldable pub money_less : Money → Money → Result Bool
unfolding assert_same_currency
money_less m o = do assert_same_currency m o; ok (less m.amount o.amount)

unfoldable pub is_zero : Money → Bool
is_zero m = eqb_ℤ m.amount.coefficient (pos 0)
