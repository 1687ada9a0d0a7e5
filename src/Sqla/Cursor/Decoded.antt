-- ===== src/Sqla/Cursor/Decoded.antt =====
-- A cursor of src/evenkeel/infrastructure/adapters/sqla/cursor.py is read as the id it was made of.
use native.Mathlib.Nat.{pow-suc}
use evenkeel.Prelude.{
  ℕ, zero, suc, ◌+◌, ◌*◌, ◌/◌, ◌%◌, ◌^◌, ◌<◌, ◌≡◌, refl, ap, ◌∙◌, true, false, some, List, [], ◌∷◌,
  ◌++◌, ◌==◌, length, length-append, All, arith,
}
use evenkeel.Prelude.Text.{Text}
use evenkeel.Domain.Errors.{ok}
use evenkeel.Sqla.Cursor.{
  bytes_of, number_of, base64_char, pad, b64encode, base64_value, emit, b64decode, encode_cursor,
  uuid_of, decode_cursor,
}

value_char : (v : ℕ) → v < 64 → base64_value (base64_char v) ≡ some v
unfolding base64_value base64_char
value_char v h = ground arith

char_pad : (v : ℕ) → v < 64 → (base64_char v == pad) ≡ false
unfolding base64_char
char_pad v h = ground arith

-- A character of the encoder's, by how far the decoder is.
decode_0 :
    (v left pads : ℕ) (s : Text)
    → v < 64
    → b64decode 0 left pads (base64_char v ∷ s) ≡ b64decode 1 v 0 s
unfolding b64decode
decode_0 v left pads s h = rw (char_pad v h, value_char v h) refl

decode_1 :
    (v left pads : ℕ) (s : Text)
    → v < 64
    → b64decode 1 left pads (base64_char v ∷ s)
      ≡ emit (left * 4 + v / 16) (b64decode 2 (v % 16) 0 s)
unfolding b64decode
decode_1 v left pads s h = rw (char_pad v h, value_char v h) refl

decode_2 :
    (v left pads : ℕ) (s : Text)
    → v < 64
    → b64decode 2 left pads (base64_char v ∷ s) ≡ emit (left * 16 + v / 4) (b64decode 3 (v % 4) 0 s)
unfolding b64decode
decode_2 v left pads s h = rw (char_pad v h, value_char v h) refl

decode_3 :
    (v left pads : ℕ) (s : Text)
    → v < 64
    → b64decode 3 left pads (base64_char v ∷ s) ≡ emit (left * 64 + v) (b64decode 0 0 0 s)
unfolding b64decode
decode_3 v left pads s h = rw (char_pad v h, value_char v h) refl

AreBytes : List ℕ → Type 0
AreBytes bytes = All (λ b. b < 256) bytes

-- The first two characters give the first byte, and leave what the second has of the next.
first_two :
    (a v r : ℕ) (s : Text)
    → a < 256
    → r < 16
    → v ≡ a % 4 * 16 + r
    → b64decode 0 0 0 (base64_char (a / 4) ∷ base64_char v ∷ s) ≡ emit a (b64decode 2 r 0 s)
first_two a v r s ha hr e =
    let byte : a / 4 * 4 + v / 16 ≡ a = omega (arith, e, hr) in
    let rest : v % 16 ≡ r = omega (arith, e, hr) in
    decode_0 (a / 4) 0 0 (base64_char v ∷ s) (omega (arith, ha))
    ∙ decode_1 v (a / 4) 0 s (omega (arith, e, hr))
    ∙ rw (byte, rest) refl

third :
    (b v r : ℕ) (s : Text)
    → b < 256
    → r < 4
    → v ≡ b % 16 * 4 + r
    → b64decode 2 (b / 16) 0 (base64_char v ∷ s) ≡ emit b (b64decode 3 r 0 s)
third b v r s hb hr e =
    let byte : b / 16 * 16 + v / 4 ≡ b = omega (arith, e, hr) in
    let rest : v % 4 ≡ r = omega (arith, e, hr) in
    decode_2 v (b / 16) 0 s (omega (arith, e, hr)) ∙ rw (byte, rest) refl

fourth :
    (c : ℕ) (s : Text)
    → c < 256
    → b64decode 3 (c / 64) 0 (base64_char (c % 64) ∷ s) ≡ emit c (b64decode 0 0 0 s)
fourth c s hc =
    let byte : c / 64 * 64 + c % 64 ≡ c = omega arith in
    decode_3 (c % 64) (c / 64) 0 s (omega arith) ∙ rw byte refl

pads_end : (left : ℕ) → b64decode 2 left 0 (pad ∷ pad ∷ []) ≡ some []
unfolding b64decode
pads_end left = refl

pad_end : (left : ℕ) → b64decode 3 left 0 (pad ∷ []) ≡ some []
unfolding b64decode
pad_end left = refl

decode-encode : (bytes : List ℕ) → AreBytes bytes → b64decode 0 0 0 (b64encode bytes) ≡ some bytes
unfolding b64encode emit AreBytes b64decode
decode-encode [] h = refl
decode-encode (a ∷ []) (ha, _) =
    first_two a (a % 4 * 16) 0 (pad ∷ pad ∷ []) ha (omega arith) (omega arith)
decode-encode (a ∷ b ∷ []) (ha, (hb, _)) =
    first_two a _ (b / 16) (base64_char (b % 16 * 4) ∷ pad ∷ []) ha (omega (arith, hb)) refl
    ∙ ap (emit a) (third b (b % 16 * 4) 0 (pad ∷ []) hb (omega arith) (omega arith))
decode-encode (a ∷ b ∷ c ∷ bytes) (ha, (hb, (hc, h))) =
    let last = base64_char (c % 64) ∷ b64encode bytes in
    first_two a _ (b / 16) (base64_char (b % 16 * 4 + c / 64) ∷ last) ha (omega (arith, hb)) refl
    ∙ ap (emit a) (
        third b _ (c / 64) last hb (omega (arith, hc)) refl
        ∙ ap (emit b) (fourth c (b64encode bytes) hc ∙ ap (emit c) (decode-encode bytes h)))

All-append : (xs ys : List ℕ) → AreBytes xs → AreBytes ys → AreBytes (xs ++ ys)
unfolding AreBytes
All-append [] ys h k = k
All-append (x ∷ xs) ys (h, hs) k = (h, All-append xs ys hs k)

bytes_of-AreBytes : (k n : ℕ) → AreBytes (bytes_of k n)
unfolding bytes_of AreBytes
bytes_of-AreBytes zero n = tt
bytes_of-AreBytes (suc k) n =
    All-append (bytes_of k (n / 256)) _ (bytes_of-AreBytes k (n / 256)) (omega arith, tt)

length-bytes_of : (k n : ℕ) → length (bytes_of k n) ≡ k
unfolding bytes_of
length-bytes_of zero n = refl
length-bytes_of (suc k) n =
    length-append (bytes_of k (n / 256)) _ ∙ rw (length-bytes_of k (n / 256)) (omega arith)

number_of-append : (acc : ℕ) (s t : List ℕ) → number_of acc (s ++ t) ≡ number_of (number_of acc s) t
unfolding number_of
number_of-append acc [] t = refl
number_of-append acc (b ∷ s) t = number_of-append (acc * 256 + b) s t

number_of-bytes_of : (k n : ℕ) → n < 256 ^ k → number_of 0 (bytes_of k n) ≡ n
unfolding bytes_of number_of
number_of-bytes_of zero n h = omega arith
number_of-bytes_of (suc k) n h =
    let below : n / 256 < 256 ^ k = (let e = pow-suc 256 k in omega (arith, e)) in
    number_of-append 0 (bytes_of k (n / 256)) (n % 256 ∷ [])
    ∙ rw (number_of-bytes_of k (n / 256) below) (omega arith)

uuid_of_bytes :
    (bytes : List ℕ) (n : ℕ)
    → length bytes ≡ 16
    → number_of 0 bytes ≡ n
    → uuid_of (some bytes) ≡ ok (some n)
unfolding uuid_of
uuid_of_bytes bytes n long reads =
    let sixteen : (length bytes == 16) ≡ true = ground (arith, long) in rw (sixteen, reads) refl

-- The cursor of every UUID is read as that UUID.
pub decode_cursor-encode_cursor :
    (id : ℕ) → id < 2 ^ 128 → decode_cursor (some (encode_cursor id)) ≡ ok (some id)
unfolding decode_cursor encode_cursor
decode_cursor-encode_cursor id h =
    ap uuid_of (decode-encode (bytes_of 16 id) (bytes_of-AreBytes 16 id))
    ∙ uuid_of_bytes (bytes_of 16 id) id (length-bytes_of 16 id) (number_of-bytes_of 16 id h)
