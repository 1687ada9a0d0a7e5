-- ===== src/Logging.antt =====
-- src/evenkeel/logging.py: what is kept out of a log record. What Python knows of the characters is
-- given.
pub mod Redacted
pub mod Allowed
use evenkeel.Prelude.{
  ℕ, zero, suc, ◌-◌, Bool, true, false, ◌||◌, Option, none, some, List, [], ◌∷◌, ◌++◌, ◌==◌, length,
  if◌then◌else◌,
}
use evenkeel.Prelude.Text.{Text, codes, text_beq, text_eq}
use evenkeel.Prelude.Dict.{Dict, insert}

abbrev pub redacted_text : Text
redacted_text = codes "***REDACTED***"

-- `str.casefold` and `str.isalnum`, of a character.
pub record Unicode : Type 0 where
  pub casefold : ℕ → Text
  pub isalnum : ℕ → Bool

-- `SENSITIVE_KEYS`, each without its underscores.
abbrev sensitive_keys : List Text
sensitive_keys =
    codes "password"
    ∷ codes "token"
    ∷ codes "accesstoken"
    ∷ codes "refreshtoken"
    ∷ codes "authorization"
    ∷ codes "secret"
    ∷ codes "secretkey"
    ∷ codes "apikey"
    ∷ codes "privatekey"
    ∷ codes "clientsecret"
    ∷ codes "cookie"
    ∷ codes "setcookie"
    ∷ []

unfoldable pub is_in : Text → List Text → Bool
is_in s [] = false
is_in s (t ∷ ts) = text_beq s t || is_in s ts

-- `str.endswith`
unfoldable pub ends_with : Text → Text → Bool
ends_with s [] = text_beq [] s
ends_with s (c ∷ t) = text_beq (c ∷ t) s || ends_with s t

module _ (unicode : Unicode) where
  keep_alnum : Text → Text
  keep_alnum [] = []
  keep_alnum (c ∷ s) = let rest = keep_alnum s in if unicode.isalnum c then c ∷ rest else rest

  folded : Text → Text
  folded [] = []
  folded (c ∷ s) = unicode.casefold c ++ folded s

  -- The text that `_is_sensitive` looks at.
  unfoldable pub normalized : Text → Text
  unfolding keep_alnum folded
  normalized key = keep_alnum (folded key)

-- `_is_sensitive`, of a normalized key.
unfoldable pub is_sensitive : Text → Bool
unfolding is_in ends_with
is_sensitive s =
    is_in s sensitive_keys
    || ends_with (codes "token") s
    || ends_with (codes "secret") s
    || ends_with (codes "apikey") s
    || ends_with (codes "password") s

-- What a record holds: a value that is walked no further, or a dict, a list or a tuple.
mutual
  pub data Item : Type 0 where
    atom : Text → Item
    mapping : Fields → Item
    sequence tuple : Items → Item

  pub data Items : Type 0 where
    no_items : Items
    item : Item → Items → Items

  pub data Fields : Type 0 where
    no_fields : Fields
    field : Text → Item → Fields → Fields

module _ (unicode : Unicode) where
  -- `redact_sensitive`
  unfoldable mutual
    pub redact_sensitive : Item → Item
    redact_sensitive (atom s) = atom s
    redact_sensitive (mapping fields) = mapping (redact_fields fields)
    redact_sensitive (sequence items) = sequence (redact_items items)
    redact_sensitive (tuple items) = tuple (redact_items items)

    pub redact_items : Items → Items
    redact_items no_items = no_items
    redact_items (item x xs) = item (redact_sensitive x) (redact_items xs)

    pub redact_fields : Fields → Fields
    redact_fields no_fields = no_fields
    redact_fields (field key x fields) =
        field key
          (elim (is_sensitive (normalized unicode key)) [
            | true ↦ atom redacted_text
            | false ↦ redact_sensitive x
          ])
          (redact_fields fields)

-- What `allowlisted` shows under a key: the value, the marker, or how many keys are left out.
pub data Shown (V : Type 0) : Type 0 where
  shown : V → Shown V
  hidden : Shown V
  more_keys : ℕ → Shown V

module _ {V : Type 0} (allow : Text → Bool) where
  -- The loop of `allowlisted`, of the items that are still to come and how many more it takes.
  allowlist_loop : ℕ → Dict Text V → Dict Text (Shown V) → Dict Text (Shown V)
  allowlist_loop left [] result = result
  allowlist_loop zero (kv ∷ payload) result =
      insert (codes "...") (more_keys (length (kv ∷ payload))) result
  allowlist_loop (suc left) ((key, value) ∷ payload) result =
      allowlist_loop left payload (insert key (if allow key then shown value else hidden) result)

  -- `allowlisted`
  unfoldable pub allowlisted : Option (Dict Text V) → ℕ → Dict Text (Shown V)
  unfolding allowlist_loop
  allowlisted none max_items = []
  allowlisted (some payload) max_items = allowlist_loop max_items payload []
