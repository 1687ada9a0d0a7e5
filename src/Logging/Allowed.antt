-- ===== src/Logging/Allowed.antt =====
-- What `allowlisted` of src/evenkeel/logging.py shows of a structure of another's making.
use evenkeel.Prelude.{
  ℕ, zero, suc, ◌+◌, ◌≤◌, ◌≡◌, inl, inr, Bool, true, Bool-cases, Option, none, some, [], ◌∷◌,
  length, arith, All, if◌then◌else◌, if_holds, sym,
}
use mathlib.Core.Path.{subst}
use evenkeel.Prelude.Text.{Text, codes, text_beq, text_eq, text_beq_iff}
use evenkeel.Prelude.Dict.{Dict, insert}
use evenkeel.Logging.{Shown, shown, hidden, more_keys, allowlist_loop, allowlisted}

module _ {V : Type 0} (allow : Text → Bool) where
  -- A value stands only under a key that is allowed.
  abbrev pub Permitted : Text × Shown V → Type 0
  Permitted (key, shown v) = allow key ≡ true
  Permitted (key, hidden) = Unit {0}
  Permitted (key, more_keys n) = Unit {0}

  Permitted-value : (key : Text) (v : V) → Permitted (key, (if allow key then shown v else hidden))
  Permitted-value key v = elim (Bool-cases (allow key)) [
    | inl allowed ↦ rw allowed allowed
    | inr not_allowed ↦ rw not_allowed tt
  ]

  insert-All :
      (key : Text) (s : Shown V) (result : Dict Text (Shown V))
      → Permitted (key, s)
      → All Permitted result
      → All Permitted (insert key s result)
  unfolding insert
  insert-All key s [] h all = (h, tt)
  insert-All key s ((j, t) ∷ result) h (first, rest) =
      if_holds (All Permitted) (text_beq j key)
        (λ same. (subst (λ k. Permitted (k, s)) (sym ((text_beq_iff j key).0 same)) h, rest))
        (λ _. (first, insert-All key s result h rest))

  length-insert :
      (key : Text) (s : Shown V) (result : Dict Text (Shown V))
      → length (insert key s result) ≤ length result + 1
  unfolding insert
  length-insert key s [] = ground arith
  length-insert key s ((j, t) ∷ result) = ground (arith, length-insert key s result)

  loop-All :
      (left : ℕ) (payload : Dict Text V) (result : Dict Text (Shown V))
      → All Permitted result
      → All Permitted (allowlist_loop allow left payload result)
        × (length (allowlist_loop allow left payload result) ≤ length result + left + 1)
  unfolding allowlist_loop
  loop-All left [] result all = (all, omega arith)
  loop-All zero (kv ∷ payload) result all =
      let grown = length-insert (codes "...") (more_keys (length (kv ∷ payload))) result in
      (insert-All (codes "...") _ result tt all, omega (arith, grown))
  loop-All (suc left) ((key, value) ∷ payload) result all =
      let s : Shown V = if allow key then shown value else hidden in
      let (permitted, bounded) =
        loop-All left payload (insert key s result)
          (insert-All key s result (Permitted-value key value) all) in
      let grown = length-insert key s result in (permitted, omega (arith, grown, bounded))

  -- Of whatever is given, only the values under allowed keys are shown, and there are no more
  -- entries than the maximum and one.
  pub allowlisted-All :
      (payload : Option (Dict Text V)) (max_items : ℕ)
      → All Permitted (allowlisted allow payload max_items)
        × (length (allowlisted allow payload max_items) ≤ max_items + 1)
  unfolding allowlisted
  allowlisted-All none max_items = (tt, omega arith)
  allowlisted-All (some payload) max_items =
      let (permitted, bounded) = loop-All max_items payload [] tt in
      (permitted, omega (arith, bounded))
