-- ===== src/Logging/Redacted.antt =====
-- What `redact_sensitive` of src/evenkeel/logging.py leaves in a record.
use evenkeel.Prelude.{◌≡◌, ◌⊎◌, refl, ap, inl, inr, true, false, Bool-cases}
use evenkeel.Logging.{
  Unicode, Item, atom, mapping, sequence, tuple, Items, no_items, item, Fields, no_fields, field,
  redacted_text, is_sensitive, normalized, redact_sensitive, redact_items, redact_fields,
}

module _ (unicode : Unicode) where
  -- Under a sensitive key there is the marker and nothing else, however deep.
  unfoldable mutual
    pub Clean : Item → Type 0
    Clean (atom s) = Unit {0}
    Clean (mapping fields) = CleanFields fields
    Clean (sequence items) = CleanItems items
    Clean (tuple items) = CleanItems items

    pub CleanItems : Items → Type 0
    CleanItems no_items = Unit {0}
    CleanItems (item x xs) = Clean x × CleanItems xs

    pub CleanFields : Fields → Type 0
    CleanFields no_fields = Unit {0}
    CleanFields (field key x fields) =
        (((is_sensitive (normalized unicode key) ≡ true) × (x ≡ atom redacted_text))
          ⊎ ((is_sensitive (normalized unicode key) ≡ false) × Clean x))
        × CleanFields fields

  mutual
    unfolding redact_sensitive Clean

    redact-Clean : (x : Item) → Clean (redact_sensitive unicode x)
    redact-Clean (atom s) = tt
    redact-Clean (mapping fields) = redact_fields-Clean fields
    redact-Clean (sequence items) = redact_items-Clean items
    redact-Clean (tuple items) = redact_items-Clean items

    redact_items-Clean : (xs : Items) → CleanItems (redact_items unicode xs)
    redact_items-Clean no_items = tt
    redact_items-Clean (item x xs) = (redact-Clean x, redact_items-Clean xs)

    redact_fields-Clean : (fields : Fields) → CleanFields (redact_fields unicode fields)
    redact_fields-Clean no_fields = tt
    redact_fields-Clean (field key x fields) =
        let rest = redact_fields-Clean fields in
        let below = redact-Clean x in
        elim (Bool-cases (is_sensitive (normalized unicode key))) [
          | inl sensitive ↦ rw sensitive (inl (refl, refl), rest)
          | inr plain ↦ rw plain (inr (refl, below), rest)
        ]

  -- A record that is clean is left as it is.
  mutual
    unfolding redact_sensitive Clean

    Clean-kept : (x : Item) → Clean x → redact_sensitive unicode x ≡ x
    Clean-kept (atom s) h = refl
    Clean-kept (mapping fields) h = ap mapping (fields_kept fields h)
    Clean-kept (sequence items) h = ap sequence (items_kept items h)
    Clean-kept (tuple items) h = ap tuple (items_kept items h)

    items_kept : (xs : Items) → CleanItems xs → redact_items unicode xs ≡ xs
    items_kept no_items h = refl
    items_kept (item x xs) (h, hs) =
        let first = Clean-kept x h in let rest = items_kept xs hs in cc (first, rest)

    fields_kept : (fields : Fields) → CleanFields fields → redact_fields unicode fields ≡ fields
    fields_kept no_fields h = refl
    fields_kept (field key x fields) (inl (sensitive, marked), hs) =
        let rest = fields_kept fields hs in rw sensitive (cc (marked, rest))
    fields_kept (field key x fields) (inr (plain, h), hs) =
        let first = Clean-kept x h in
        let rest = fields_kept fields hs in rw plain (cc (first, rest))

  -- However deep a record nests, redaction leaves nothing but the marker under a sensitive key, and
  -- a second redaction changes nothing more.
  pub redact_sensitive-Clean :
      (x : Item)
      → Clean (redact_sensitive unicode x)
        × (redact_sensitive unicode (redact_sensitive unicode x) ≡ redact_sensitive unicode x)
  redact_sensitive-Clean x =
      (redact-Clean x, Clean-kept (redact_sensitive unicode x) (redact-Clean x))
