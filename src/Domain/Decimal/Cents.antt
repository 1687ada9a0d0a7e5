-- ===== src/Domain/Decimal/Cents.antt =====
-- A number with at most two places is a whole number of cents, and the arithmetic of `Decimal` on
-- such numbers is that of the integers.
use native.Mathlib.Nat.{mul_assoc, pow-suc, pow-zero, add-zero}
use mathlib.Core.Path.{ap₂}
use evenkeel.Prelude.{
  ℕ, zero, suc, ◌+◌, ◌*◌, ◌^◌, ◌≤◌, ◌<◌, ◌≡◌, ap, sym, ◌∙◌, ◌↔◌, arith, ltb, leb,
}
use evenkeel.Prelude.Int.{
  ℤ, pos, pos_part, neg_part, ◌+ℤ◌, ◌-ℤ◌, ◌≤ℤ◌, scale, scale_pos, scale_neg, int_laws, +ℤ_parts,
  -ℤ_parts, eq_of_parts, leb_ℤ, ltb_ℤ,
}
use evenkeel.Domain.Decimal.{Number, common_exponent, aligned, add, sub, less}

-- At most two places after the point.
abbrev pub IsScaled : Number → Type 0
IsScaled a = neg_part a.exponent ≤ 2

-- The value in hundredths.
unfoldable pub cents : Number → ℤ
cents a = scale (10 ^ pos_part (a.exponent +ℤ pos 2)) a.coefficient

pow_add : (a b : ℕ) → 10 ^ (a + b) ≡ 10 ^ a * 10 ^ b
pow_add a zero = grind (arith, pow-zero, add-zero)
pow_add a (suc b) =
    let e : a + suc b ≡ suc (a + b) = omega arith in
    rw e (rw (pow-suc 10 (a + b), pow-suc 10 b, pow_add a b) (mul_assoc (10 ^ a) (10 ^ b) 10))

pow_pos : (a : ℕ) → 0 < 10 ^ a
pow_pos zero = omega arith
pow_pos (suc a) = grind (arith, pow-suc, pow_pos a)

ruleset scale_laws = (int_laws, scale_pos, scale_neg)

scale-scale : (k l : ℕ) (a : ℤ) → scale k (scale l a) ≡ scale (k * l) a
scale-scale k l a = eq_of_parts _ _ (simp (scale_pos, scale_neg) (omega arith))

scale-+ℤ : (k : ℕ) (a b : ℤ) → scale k (a +ℤ b) ≡ scale k a +ℤ scale k b
scale-+ℤ k a b = omega (scale_laws, ap (λ (t : ℕ). k * t) (+ℤ_parts a b))

scale--ℤ : (k : ℕ) (a b : ℤ) → scale k (a -ℤ b) ≡ scale k a -ℤ scale k b
scale--ℤ k a b = omega (scale_laws, ap (λ (t : ℕ). k * t) (-ℤ_parts a b))

gap :
    (m e : ℤ)
    → neg_part m ≤ 2
    → m ≤ℤ e
    → pos_part (m +ℤ pos 2) + pos_part (e -ℤ m) ≡ pos_part (e +ℤ pos 2)
unfolding ◌+ℤ◌ ◌-ℤ◌
gap m e low le = ground arith

-- The common exponent of two scaled numbers is in range and above neither.
common_exponent_bounds :
    (a b : Number)
    → IsScaled a
    → IsScaled b
    → (neg_part (common_exponent a b) ≤ 2)
      × (common_exponent a b ≤ℤ a.exponent)
      × (common_exponent a b ≤ℤ b.exponent)
unfolding common_exponent
common_exponent_bounds a b ha hb = ground arith

-- Bringing a number to an exponent that is in range does not change its value in cents.
cents-aligned :
    (a : Number) (m : ℤ)
    → neg_part m ≤ 2
    → m ≤ℤ a.exponent
    → scale (10 ^ pos_part (m +ℤ pos 2)) (aligned a m) ≡ cents a
unfolding aligned cents
cents-aligned a m low le =
    scale-scale (10 ^ pos_part (m +ℤ pos 2)) (10 ^ pos_part (a.exponent -ℤ m)) a.coefficient
    ∙ ap (λ (t : ℕ). scale t a.coefficient) (sym (pow_add _ _))
    ∙ ap (λ (t : ℕ). scale (10 ^ t) a.coefficient) (gap m a.exponent low le)

pub IsScaled-add : (a b : Number) → IsScaled a → IsScaled b → IsScaled (add a b)
unfolding add
IsScaled-add a b ha hb = (common_exponent_bounds a b ha hb).0

pub IsScaled-sub : (a b : Number) → IsScaled a → IsScaled b → IsScaled (sub a b)
unfolding sub
IsScaled-sub a b ha hb = (common_exponent_bounds a b ha hb).0

-- Addition and subtraction are exact.
pub cents-add : (a b : Number) → IsScaled a → IsScaled b → cents (add a b) ≡ cents a +ℤ cents b
unfolding add cents
cents-add a b ha hb =
    let (low, la, lb) = common_exponent_bounds a b ha hb in
    let m = common_exponent a b in
    scale-+ℤ (10 ^ pos_part (m +ℤ pos 2)) (aligned a m) (aligned b m)
    ∙ ap₂ ◌+ℤ◌ (cents-aligned a m low la) (cents-aligned b m low lb)

pub cents-sub : (a b : Number) → IsScaled a → IsScaled b → cents (sub a b) ≡ cents a -ℤ cents b
unfolding sub cents
cents-sub a b ha hb =
    let (low, la, lb) = common_exponent_bounds a b ha hb in
    let m = common_exponent a b in
    scale--ℤ (10 ^ pos_part (m +ℤ pos 2)) (aligned a m) (aligned b m)
    ∙ ap₂ ◌-ℤ◌ (cents-aligned a m low la) (cents-aligned b m low lb)

mul_lt_iff : (k a b : ℕ) → 0 < k → (k * a < k * b) ↔ (a < b)
mul_lt_iff k a b h = (λ lt. grind arith, λ lt. grind arith)

-- A positive factor keeps the order.
ltb-mul : (k a b : ℕ) → 0 < k → ltb (k * a) (k * b) ≡ ltb a b
ltb-mul k a b h = ground (arith, mul_lt_iff k a b h)

leb-mul : (k a b : ℕ) → 0 < k → leb (k * a) (k * b) ≡ leb a b
leb-mul k a b h = ground (arith, mul_lt_iff k b a h)

ltb-scale : (k : ℕ) (x y : ℤ) → 0 < k → ltb_ℤ (scale k x) (scale k y) ≡ ltb_ℤ x y
ltb-scale k x y h =
    ap₂ ltb (spread x y) (spread y x)
    ∙ ltb-mul k (pos_part x + neg_part y) (pos_part y + neg_part x) h
  where
    spread : (x y : ℤ) → pos_part (scale k x) + neg_part (scale k y) ≡ k * (pos_part x + neg_part y)
    spread x y = omega (arith, scale_pos k x, scale_neg k y)

-- `<` compares the values.
pub less-cents : (a b : Number) → IsScaled a → IsScaled b → less a b ≡ ltb_ℤ (cents a) (cents b)
unfolding less
less-cents a b ha hb =
    let (low, la, lb) = common_exponent_bounds a b ha hb in
    let m = common_exponent a b in
    sym (ltb-scale (10 ^ pos_part (m +ℤ pos 2)) (aligned a m) (aligned b m) (pow_pos _))
    ∙ ap₂ ltb_ℤ (cents-aligned a m low la) (cents-aligned b m low lb)

-- The sign is that of the coefficient.
pub cents_sign :
    (a : Number)
    → (leb_ℤ (cents a) (pos 0) ≡ leb_ℤ a.coefficient (pos 0))
      × (ltb_ℤ (cents a) (pos 0) ≡ ltb_ℤ a.coefficient (pos 0))
unfolding cents
cents_sign a =
    let k = 10 ^ pos_part (a.exponent +ℤ pos 2) in
    let h : 0 < k = pow_pos _ in
    let p : pos_part (cents a) + 0 ≡ k * (pos_part a.coefficient + 0) =
      omega (arith, scale_pos k a.coefficient) in
    let n : 0 + neg_part (cents a) ≡ k * (0 + neg_part a.coefficient) =
      omega (arith, scale_neg k a.coefficient) in
    (ap₂ leb p n ∙ leb-mul k _ _ h, ap₂ ltb p n ∙ ltb-mul k _ _ h)
