-- ===== src/Jwt/KeySet.antt =====
-- `JwksCache._fetch` of src/evenkeel/infrastructure/adapters/jwt/keys.py, from the response that the
-- session gave. What the JSON and the JWT libraries make of it is given: `decode` reads a
-- document and its "keys", where it is an object and where those are a list; `build` is `PyJWKSet`.
pub mod FirstWins
use evenkeel.Prelude.{
  ℕ, ◌+◌, ◌*◌, Bool, true, false, not, Option, none, some, List, [], ◌∷◌, ltb, ◌==◌, length, filter,
  map, if◌then◌else◌,
}
use evenkeel.Prelude.Text.{Text, codes, text_beq, text_eq}
use evenkeel.Prelude.Dict.{Dict, lookup, insert}
use evenkeel.Domain.Errors.{Error, Result, ok, err, driver, ◌>>=◌, ◌>>◌, raise_if}
use evenkeel.Http.Transport.{Stream, read_capped}

abbrev pub max_bytes : ℕ
max_bytes = 256 * 1024

-- The `use` of an entry: not there or null, a text, or something else.
pub data UseClaim : Type 0 where
  unused : UseClaim
  used_for : Text → UseClaim
  odd_use : UseClaim

-- An entry of the document's list: an object with its `use`, or something else.
pub data Entry (E : Type 0) : Type 0 where
  object : UseClaim → E → Entry E
  other : Entry E

-- `entry.get("use") in (None, "sig")`
unfoldable pub is_signing_use : UseClaim → Bool
is_signing_use unused = true
is_signing_use (used_for s) = text_beq s (codes "sig")
is_signing_use odd_use = false

-- The list `signing`.
unfoldable pub signing : {E : Type 0} → List (Entry E) → List E
unfolding is_signing_use
signing [] = []
signing (object u e ∷ entries) =
    let rest = signing entries in if is_signing_use u then e ∷ rest else rest
signing (other ∷ entries) = signing entries

-- A built key with its `key_id`.
abbrev pub Built : Type 0 → Type 0
Built K = Option Text × K

-- `if key.key_id and key.key_id not in keys`, of a key id that is one.
keep_first : {K : Type 0} → Text → K → Option K → Dict Text K → Dict Text K
keep_first kid key none keys = insert kid key keys
keep_first kid key (some held) keys = keys

add_built : {K : Type 0} → Built K → Dict Text K → Dict Text K
unfolding keep_first
add_built (none, key) keys = keys
add_built (some [], key) keys = keys
add_built (some (c ∷ kid), key) keys = keep_first (c ∷ kid) key (lookup (c ∷ kid) keys) keys

-- The last loop.
unfoldable pub first_wins : {K : Type 0} → List (Built K) → Dict Text K → Dict Text K
unfolding add_built
first_wins [] keys = keys
first_wins (b ∷ built) keys = first_wins built (add_built b keys)

module _ {E K S : Type 0} (stream : Stream S) (decode : Text → Option (Option (List (Entry E))))
    (build : List E → Option (List (Built K))) where
  -- `PyJWKSet(signing).keys if signing else []`
  built_keys : List E → Result (List (Built K))
  built_keys [] = ok []
  built_keys (e ∷ es) = elim (build (e ∷ es)) [
    | none ↦ err (driver "PyJWTError")
    | some built ↦ ok built
  ]

  -- The document's list, or nothing where it has none or is not an object.
  listed : Option (Option (List (Entry E))) → Result (List (Entry E))
  listed (some (some entries)) = ok entries
  listed (some none) = err (driver "ValueError")
  listed none = err (driver "ValueError")

  -- `_fetch`, of the status and the body of the response.
  unfoldable pub fetch_keys : ℕ → S → Result (Dict Text K)
  unfolding signing built_keys listed first_wins
  fetch_keys status body = do
    raise_if (not (status == 200)) (err (driver "ValueError"))
    let raw = read_capped stream (max_bytes + 1) body
    raise_if (ltb max_bytes (length raw)) (err (driver "ValueError"))
    entries ← listed (decode raw)
    built ← built_keys (signing entries)
    ok (first_wins built [])
