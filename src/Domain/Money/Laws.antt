-- ===== src/Domain/Money/Laws.antt =====
-- What validation lets through, and what arithmetic on money does, in whole cents.
use evenkeel.Prelude.{
  ◌-◌, ◌^◌, ◌<◌, ◌≡◌, refl, ◌↔◌, Bool, true, arith, Bool-cases, inl, inr, sym, leb, ap, ◌∙◌,
}
use evenkeel.Prelude.Int.{
  ℤ, pos, ◌+ℤ◌, ◌-ℤ◌, ◌≤ℤ◌, abs, ltb_ℤ, leb_ℤ, scale, scale_pos, scale_neg, eq_of_parts,
}
use evenkeel.Prelude.Text.{text_beq_iff}
use evenkeel.Domain.Decimal.{
  Number, finite, common_exponent, aligned, add, sub, less, magnitude, not_positive,
}
use evenkeel.Domain.Decimal.Cents.{
  IsScaled, IsScaled-add, IsScaled-sub, cents, cents-add, cents-sub, less-cents, cents_sign,
}
use evenkeel.Domain.Errors.{Result, ok, ◌>>=◌}
use evenkeel.Domain.Money.{
  money_max, CurrencyCode, Money, money, money_zero, same_currency, assert_same_currency,
  require_positive, money_add, money_sub, money_less, is_zero, zero_amount,
}

-- The amount in cents.
abbrev pub value : Money → ℤ
value m = cents m.amount

-- What every validated amount satisfies: whole cents, twenty digits at most.
pub record IsMoney (m : Money) : Type 0 where
  pub scaled : IsScaled m.amount
  pub bounded : abs (value m) < 10 ^ 20

cents-magnitude : (n : Number) → cents (magnitude n) ≡ pos (abs (cents n))
unfolding cents
cents-magnitude n = eq_of_parts _ _ (omega (arith, scale_pos, scale_neg))

IsScaled-money_max : IsScaled money_max
unfolding money_max common_exponent
IsScaled-money_max = omega arith

cents-money_max : cents money_max ≡ pos (10 ^ 20 - 1)
unfolding money_max cents common_exponent aligned scale ◌-ℤ◌ ◌+ℤ◌
cents-money_max = refl

out_of_range_lem :
    (n : Number) → IsScaled n → less money_max (magnitude n) ≡ leb (10 ^ 20) (abs (cents n))
out_of_range_lem n h =
    rw (less-cents money_max (magnitude n) IsScaled-money_max h, cents-money_max, cents-magnitude n)
      (ground arith)

-- Validation accepts exactly the numbers of at most two places below 10 ^ 18 in magnitude, and
-- changes nothing of them.
pub money-ok :
    (n : Number) (c : CurrencyCode) (m : Money)
    → (money (finite n) c ≡ ok m)
      ↔ ((m ≡ record { amount = n; currency = c }) × IsScaled n × (abs (cents n) < 10 ^ 20))
unfolding money
money-ok n c m = (λ h. ground (arith, out_of_range_lem n), λ h. ground (arith, out_of_range_lem n))

-- An amount that validation returned is money.
pub money-IsMoney :
    (n : Number) (c : CurrencyCode) (m : Money) → money (finite n) c ≡ ok m → IsMoney m
money-IsMoney n c m h =
    let (e, scaled, bounded) = (money-ok n c m).0 h in
    rw e (record { scaled = scaled; bounded = bounded })

pub same_currency_iff : (c d : CurrencyCode) → (same_currency c d ≡ true) ↔ (c ≡ d)
same_currency_iff c d = ground (arith, text_beq_iff c.value d.value)

checked_ok {ℓ} :
    {A : Type ℓ} (m o : Money) (k : Result A) (s : A)
    → (assert_same_currency m o >>= λ _. k) ≡ ok s
    → (m.currency ≡ o.currency) × (k ≡ ok s)
unfolding assert_same_currency
checked_ok m o k s h = elim (Bool-cases (same_currency m.currency o.currency)) [
  | inl same ↦ ((same_currency_iff _ _).0 same, rw same at h)
  | inr other ↦ cc (rw other at h)
]

checked_same {ℓ} :
    {A : Type ℓ} (m o : Money) (k : Result A)
    → m.currency ≡ o.currency
    → (assert_same_currency m o >>= λ _. k) ≡ k
unfolding assert_same_currency
checked_same m o k e = rw ((same_currency_iff m.currency o.currency).1 e) refl

-- A sum of two validated amounts that is returned is of amounts of one currency, has that
-- currency, is validated, and is exact.
pub money_add-ok :
    (m o s : Money)
    → IsMoney m
    → IsMoney o
    → money_add m o ≡ ok s
    → (m.currency ≡ o.currency)
      × (s.currency ≡ m.currency)
      × IsMoney s
      × (value s ≡ value m +ℤ value o)
unfolding money_add
money_add-ok m o s hm ho h =
    let (same, made) = checked_ok m o _ s h in
    let (e, scaled, bounded) = (money-ok _ _ s).0 made in
    (
      same,
      ap (λ (t : Money). t.currency) e,
      money-IsMoney _ _ s made,
      ap value e ∙ cents-add m.amount o.amount hm.scaled ho.scaled,
    )

pub money_sub-ok :
    (m o s : Money)
    → IsMoney m
    → IsMoney o
    → money_sub m o ≡ ok s
    → (m.currency ≡ o.currency)
      × (s.currency ≡ m.currency)
      × IsMoney s
      × (value s ≡ value m -ℤ value o)
unfolding money_sub
money_sub-ok m o s hm ho h =
    let (same, made) = checked_ok m o _ s h in
    let (e, scaled, bounded) = (money-ok _ _ s).0 made in
    (
      same,
      ap (λ (t : Money). t.currency) e,
      money-IsMoney _ _ s made,
      ap value e ∙ cents-sub m.amount o.amount hm.scaled ho.scaled,
    )

-- Addition succeeds wherever the currencies agree and the sum is in range.
pub money_add_succeeds :
    (m o : Money)
    → IsMoney m
    → IsMoney o
    → m.currency ≡ o.currency
    → abs (value m +ℤ value o) < 10 ^ 20
    → money_add m o ≡ ok (record { amount = add m.amount o.amount; currency = m.currency })
unfolding money_add
money_add_succeeds m o hm ho same bound =
    checked_same m o _ same
    ∙ (money-ok _ _ _).1 (
      refl,
      IsScaled-add m.amount o.amount hm.scaled ho.scaled,
      rw (cents-add m.amount o.amount hm.scaled ho.scaled) bound,
    )

pub money_sub_succeeds :
    (m o : Money)
    → IsMoney m
    → IsMoney o
    → m.currency ≡ o.currency
    → abs (value m -ℤ value o) < 10 ^ 20
    → money_sub m o ≡ ok (record { amount = sub m.amount o.amount; currency = m.currency })
unfolding money_sub
money_sub_succeeds m o hm ho same bound =
    checked_same m o _ same
    ∙ (money-ok _ _ _).1 (
      refl,
      IsScaled-sub m.amount o.amount hm.scaled ho.scaled,
      rw (cents-sub m.amount o.amount hm.scaled ho.scaled) bound,
    )

-- A comparison of one currency compares the values.
pub money_less-ok :
    (m o : Money) (b : Bool)
    → IsMoney m
    → IsMoney o
    → money_less m o ≡ ok b
    → (m.currency ≡ o.currency) × (b ≡ ltb_ℤ (value m) (value o))
unfolding money_less
money_less-ok m o b hm ho h =
    let (same, e) = checked_ok m o _ b h in
    (same, cc e ∙ less-cents m.amount o.amount hm.scaled ho.scaled)

pub money_less_same :
    (m o : Money)
    → IsMoney m
    → IsMoney o
    → m.currency ≡ o.currency
    → money_less m o ≡ ok (ltb_ℤ (value m) (value o))
unfolding money_less
money_less_same m o hm ho same =
    checked_same m o _ same
    ∙ ap (λ (b : Bool). ok b) (less-cents m.amount o.amount hm.scaled ho.scaled)

-- The sign tests read the value.
pub not_positive_lem : (m : Money) → not_positive m.amount ≡ leb_ℤ (value m) (pos 0)
not_positive_lem m = sym (cents_sign m.amount).0

pub is_zero_lem : (m : Money) → (is_zero m ≡ true) ↔ (value m ≡ pos 0)
unfolding is_zero
is_zero_lem m = ground (arith, cents_sign m.amount)

pub require_positive-ok : (m p : Money) → require_positive m ≡ ok p → (p ≡ m) × (pos 1 ≤ℤ value m)
unfolding require_positive
require_positive-ok m p h = ground (arith, not_positive_lem m)

pub require_positive_succeeds : (m : Money) → pos 1 ≤ℤ value m → require_positive m ≡ ok m
unfolding require_positive
require_positive_succeeds m h = ground (arith, not_positive_lem m)

-- The empty balance of a new wallet.
pub money_zero_lem :
    (c : CurrencyCode)
    → (z : Money) × (money_zero c ≡ ok z) × IsMoney z × (z.currency ≡ c) × (value z ≡ pos 0)
unfolding money_zero cents common_exponent aligned scale ◌-ℤ◌ ◌+ℤ◌ less money_max
money_zero_lem c = (
  record { amount = zero_amount; currency = c },
  refl,
  record { scaled = omega arith; bounded = omega arith },
  refl,
  refl,
)
