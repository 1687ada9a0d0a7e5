-- ===== src/Domain/Uuid/Laws.antt =====
-- A printed UUID has 36 characters and determines its number.
use native.Mathlib.Nat.{pow-suc}
use evenkeel.Prelude.{
  ℕ, zero, suc, ◌+◌, ◌-◌, ◌*◌, ◌/◌, ◌%◌, ◌^◌, ◌<◌, ◌≡◌, refl, sym, ap, ◌∙◌, ◌++◌, [], ◌∷◌, ltb,
  take, drop, arith, length, length-append, length-take, length-drop, take-append-drop,
  if◌then◌else◌, ◌==◌,
}
use evenkeel.Prelude.Text.{Text}
use evenkeel.Domain.Uuid.{hyphen, hex_digit, hex, grouped, uuid_text}

digit_value : ℕ → ℕ
digit_value c = if ltb c 58 then c - 48 else c - 87

-- Reading digits on from a number, hyphens skipped.
pub read_from : ℕ → Text → ℕ
read_from acc [] = acc
read_from acc (c ∷ s) = read_from (if c == hyphen then acc else acc * 16 + digit_value c) s

read_from-append : (acc : ℕ) (s t : Text) → read_from acc (s ++ t) ≡ read_from (read_from acc s) t
unfolding read_from
read_from-append acc [] t = refl
read_from-append acc (c ∷ s) t =
    read_from-append (if c == hyphen then acc else acc * 16 + digit_value c) s t

read_from-digit : (acc d : ℕ) → d < 16 → read_from acc (hex_digit d ∷ []) ≡ acc * 16 + d
unfolding read_from digit_value hex_digit
read_from-digit acc d h = ground arith

below_hex : (k n : ℕ) → n < 16 ^ suc k → n / 16 < 16 ^ k
below_hex k n h = let e = pow-suc 16 k in omega (arith, e)

read_from-hex : (k n : ℕ) → n < 16 ^ k → read_from 0 (hex k n) ≡ n
unfolding hex read_from
read_from-hex zero n h = omega arith
read_from-hex (suc k) n h =
    read_from-append 0 (hex k (n / 16)) (hex_digit (n % 16) ∷ [])
    ∙ rw (read_from-hex k (n / 16) (below_hex k n h))
        (read_from-digit (n / 16) (n % 16) (omega arith) ∙ omega arith)

-- A group, a hyphen and the rest read as the whole.
read_from-join :
    (n : ℕ) (s rest : Text)
    → ((a : ℕ) → read_from a rest ≡ read_from a (drop n s))
    → (a : ℕ) → read_from a (take n s ++ hyphen ∷ rest) ≡ read_from a s
unfolding read_from
read_from-join n s rest h a =
    read_from-append a (take n s) (hyphen ∷ rest)
    ∙ h (read_from a (take n s))
    ∙ sym (read_from-append a (take n s) (drop n s))
    ∙ ap (read_from a) (take-append-drop n s)

read_from-grouped : (s : Text) → read_from 0 (grouped s) ≡ read_from 0 s
unfolding grouped
read_from-grouped s =
    read_from-join 8 s _
      (read_from-join 4 (drop 8 s) _ (
        read_from-join 4 (drop 4 (drop 8 s)) _
          (read_from-join 4 (drop 4 (drop 4 (drop 8 s))) _ (λ a. refl))))
      0

pub read_from-uuid_text : (n : ℕ) → n < 2 ^ 128 → read_from 0 (uuid_text n) ≡ n
unfolding uuid_text
read_from-uuid_text n h = read_from-grouped (hex 32 n) ∙ read_from-hex 32 n h

-- Different UUIDs print differently.
pub uuid_text-injective : (m n : ℕ) → m < 2 ^ 128 → n < 2 ^ 128 → uuid_text m ≡ uuid_text n → m ≡ n
uuid_text-injective m n hm hn e =
    sym (read_from-uuid_text m hm) ∙ ap (read_from 0) e ∙ read_from-uuid_text n hn

length-hex : (k n : ℕ) → length (hex k n) ≡ k
unfolding hex
length-hex zero n = refl
length-hex (suc k) n = length-append (hex k (n / 16)) _ ∙ rw (length-hex k (n / 16)) (omega arith)

pub length-uuid_text : (n : ℕ) → length (uuid_text n) ≡ 36
unfolding uuid_text grouped
length-uuid_text n = grind (arith, length-append, length-take, length-drop, length-hex 32 n)
