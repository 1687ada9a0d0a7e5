-- ===== src/Sqla/Cursor.antt =====
-- src/evenkeel/infrastructure/adapters/sqla/cursor.py, with Python's base64: its encoder, and its
-- decoder, which passes over what is outside the alphabet.
pub mod Decoded
use evenkeel.Prelude.{
  ℕ, zero, suc, ◌+◌, ◌-◌, ◌*◌, ◌/◌, ◌%◌, Bool, ◌&&◌, ◌||◌, true, false, Option, none, some, List,
  [], ◌∷◌, ◌++◌, ◌==◌, leb, ltb, length, if◌then◌else◌,
}
use evenkeel.Prelude.Text.{Text, codes}
use evenkeel.Domain.Errors.{
  Error, Result, ok, err, application, label, validation_error, validation_failed,
}

-- `UUID.bytes`: the last bytes of a number, the highest first.
unfoldable pub bytes_of : ℕ → ℕ → List ℕ
bytes_of zero n = []
bytes_of (suc k) n = bytes_of k (n / 256) ++ n % 256 ∷ []

unfoldable pub number_of : ℕ → List ℕ → ℕ
number_of acc [] = acc
number_of acc (b ∷ bytes) = number_of (acc * 256 + b) bytes

-- A character of the URL-safe alphabet.
unfoldable pub base64_char : ℕ → ℕ
base64_char v =
    if ltb v 26
    then 65 + v
    else if ltb v 52
    then 71 + v
    else if ltb v 62
    then v - 4
    else if v == 62
    then 45
    else 95

abbrev pub pad : ℕ
pad = 61

-- `base64.urlsafe_b64encode`
unfoldable pub b64encode : List ℕ → Text
unfolding base64_char
b64encode [] = []
b64encode (a ∷ []) = base64_char (a / 4) ∷ base64_char (a % 4 * 16) ∷ pad ∷ pad ∷ []
b64encode (a ∷ b ∷ []) =
    base64_char (a / 4) ∷ base64_char (a % 4 * 16 + b / 16) ∷ base64_char (b % 16 * 4) ∷ pad ∷ []
b64encode (a ∷ b ∷ c ∷ bytes) =
    base64_char (a / 4)
    ∷ base64_char (a % 4 * 16 + b / 16)
    ∷ base64_char (b % 16 * 4 + c / 64)
    ∷ base64_char (c % 64)
    ∷ b64encode bytes

-- What a character of either alphabet stands for.
unfoldable pub base64_value : ℕ → Option ℕ
base64_value c =
    if leb 65 c && leb c 90
    then some (c - 65)
    else if leb 97 c && leb c 122
    then some (c - 71)
    else if leb 48 c && leb c 57
    then some (c + 4)
    else if c == 43 || c == 45
    then some 62
    else if c == 47 || c == 95
    then some 63
    else none

-- A byte before what is decoded.
emit : ℕ → Option (List ℕ) → Option (List ℕ)
emit b none = none
emit b (some bytes) = some (b ∷ bytes)

-- The decoder: how far into four characters it is, what is left over, and how many pads it has seen
-- since. It ends at the pads that fill four characters up, and fails where the text ends amid them.
unfoldable pub b64decode : ℕ → ℕ → ℕ → Text → Option (List ℕ)
unfolding base64_value emit
b64decode quad left pads [] = if quad == 0 then some [] else none
b64decode quad left pads (c ∷ s) =
    if c == pad
    then elim (leb 2 quad && leb 4 (quad + pads + 1)) [
      | true ↦ some []
      | false ↦ b64decode quad left (if leb 2 quad then pads + 1 else pads) s
    ]
    else elim (base64_value c) [
      | none ↦ b64decode quad left pads s
      | some v ↦ elim (quad == 0) [
        | true ↦ b64decode 1 v 0 s
        | false ↦ elim (quad == 1) [
          | true ↦ emit (left * 4 + v / 16) (b64decode 2 (v % 16) 0 s)
          | false ↦ elim (quad == 2) [
            | true ↦ emit (left * 16 + v / 4) (b64decode 3 (v % 4) 0 s)
            | false ↦ emit (left * 64 + v) (b64decode 0 0 0 s)
          ]
        ]
      ]
    ]

-- `encode_cursor`
unfoldable pub encode_cursor : ℕ → Text
unfolding bytes_of b64encode
encode_cursor id = b64encode (bytes_of 16 id)

-- `ValidationError` of a cursor.
abbrev pub malformed_cursor : Error
malformed_cursor = application (record {
  kind = validation_error;
  code = validation_failed;
  details = ("cursor", label "malformed cursor") ∷ [];
})

-- `UUID(bytes=...)`, of sixteen bytes or none.
uuid_of : Option (List ℕ) → Result (Option ℕ)
unfolding number_of
uuid_of none = err malformed_cursor
uuid_of (some bytes) =
    if length bytes == 16 then ok (some (number_of 0 bytes)) else err malformed_cursor

-- `decode_cursor`
unfoldable pub decode_cursor : Option Text → Result (Option ℕ)
unfolding b64decode uuid_of
decode_cursor none = ok none
decode_cursor (some cursor) = uuid_of (b64decode 0 0 0 cursor)
