-- ===== src/Domain/Uuid.antt =====
-- Python's `str(UUID)`: thirty-two hexadecimal digits in five groups.
pub mod Laws
use evenkeel.Prelude.{ℕ, zero, suc, ◌+◌, ◌/◌, ◌%◌, ◌++◌, [], ◌∷◌, ltb, take, drop, if◌then◌else◌}
use evenkeel.Prelude.Text.{Text}

abbrev pub hyphen : ℕ
hyphen = b'-'

unfoldable pub hex_digit : ℕ → ℕ
hex_digit d = if ltb d 10 then 48 + d else 87 + d

-- The last digits of a number, the highest first.
unfoldable pub hex : ℕ → ℕ → Text
unfolding hex_digit
hex zero n = []
hex (suc k) n = hex k (n / 16) ++ hex_digit (n % 16) ∷ []

-- Groups of 8, 4, 4, 4 and 12 digits.
unfoldable pub grouped : Text → Text
grouped s =
    take 8 s
    ++ hyphen
      ∷ (take 4 (drop 8 s)
          ++ hyphen
            ∷ (take 4 (drop 4 (drop 8 s))
                ++ hyphen
                  ∷ (take 4 (drop 4 (drop 4 (drop 8 s)))
                      ++ hyphen ∷ drop 4 (drop 4 (drop 4 (drop 8 s))))))

unfoldable pub uuid_text : ℕ → Text
unfolding hex grouped
uuid_text n = grouped (hex 32 n)
