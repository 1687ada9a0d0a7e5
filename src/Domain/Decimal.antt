-- ===== src/Domain/Decimal.antt =====
-- Python's `decimal.Decimal`, as the money of the domain uses it: a coefficient and a power of ten,
-- or one of the values that are no number. A context of 28 digits is exact for every sum and
-- difference of two validated amounts, which have 20 digits at most; no sign is kept on a zero.
pub mod Cents
use evenkeel.Prelude.{ℕ, ◌-◌, ◌^◌, Bool, if◌then◌else◌}
use evenkeel.Prelude.Int.{ℤ, pos, negsuc, pos_part, ◌+ℤ◌, ◌-ℤ◌, scale, abs, ltb_ℤ, leb_ℤ}

-- coefficient * 10 ^ exponent
pub record Number : Type 0 where
  pub coefficient : ℤ
  pub exponent : ℤ

pub data Decimal : Type 0 where
  finite : Number → Decimal
  infinity nan : Decimal

-- The lower of two exponents, to which both operands of a sum are brought.
unfoldable pub common_exponent : Number → Number → ℤ
common_exponent a b = if leb_ℤ a.exponent b.exponent then a.exponent else b.exponent

-- The coefficient of a number at an exponent that is not above its own.
unfoldable pub aligned : Number → ℤ → ℤ
aligned a m = scale (10 ^ pos_part (a.exponent -ℤ m)) a.coefficient

-- `a + b`
unfoldable pub add : Number → Number → Number
add a b =
    let m = common_exponent a b in record { coefficient = aligned a m +ℤ aligned b m; exponent = m }

-- `a - b`
unfoldable pub sub : Number → Number → Number
sub a b =
    let m = common_exponent a b in record { coefficient = aligned a m -ℤ aligned b m; exponent = m }

-- `a < b`
unfoldable pub less : Number → Number → Bool
less a b = let m = common_exponent a b in ltb_ℤ (aligned a m) (aligned b m)

-- `a <= 0`, `a < 0` and `a == 0`
abbrev pub not_positive : Number → Bool
not_positive a = leb_ℤ a.coefficient (pos 0)

abbrev pub negative : Number → Bool
negative a = ltb_ℤ a.coefficient (pos 0)

-- `abs(a)`
abbrev pub magnitude : Number → Number
magnitude a = record { coefficient = pos (abs a.coefficient); exponent = a.exponent }
