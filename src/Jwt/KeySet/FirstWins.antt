-- ===== src/Jwt/KeySet/FirstWins.antt =====
-- Which key an id gets in src/evenkeel/infrastructure/adapters/jwt/keys.py.
use evenkeel.Prelude.{◌≡◌, refl, Option, none, some, List, [], ◌∷◌, ◌++◌, arith}
use evenkeel.Prelude.Text.{Text, text_beq_iff, text_eq}
use evenkeel.Prelude.Dict.{Dict, lookup, lookup-insert}
use evenkeel.Jwt.KeySet.{Built, keep_first, add_built, first_wins}

module _ {K : Type 0} where
  first_wins_two :
      (built more : List (Built K)) (keys : Dict Text K)
      → first_wins (built ++ more) keys ≡ first_wins more (first_wins built keys)
  unfolding first_wins
  first_wins_two [] more keys = refl
  first_wins_two (b ∷ built) more keys = first_wins_two built more (add_built b keys)

  keep_first_kept :
      (kid j : Text) (key k : K) (found : Option K) (keys : Dict Text K)
      → lookup j keys ≡ found
      → lookup kid keys ≡ some k
      → lookup kid (keep_first j key found keys) ≡ some k
  unfolding keep_first
  keep_first_kept kid j key k (some held) keys there has = has
  keep_first_kept kid j key k none keys missing has =
      ground (arith, lookup-insert j kid key keys, text_beq_iff j kid, missing, has)

  first_wins_kept :
      (kid : Text) (k : K) (more : List (Built K)) (keys : Dict Text K)
      → lookup kid keys ≡ some k
      → lookup kid (first_wins more keys) ≡ some k
  unfolding first_wins add_built
  first_wins_kept kid k [] keys has = has
  first_wins_kept kid k ((none, key) ∷ more) keys has = first_wins_kept kid k more keys has
  first_wins_kept kid k ((some [], key) ∷ more) keys has = first_wins_kept kid k more keys has
  first_wins_kept kid k ((some (c ∷ j), key) ∷ more) keys has =
      first_wins_kept kid k more _ (keep_first_kept kid (c ∷ j) key k _ keys refl has)

  -- Whatever keys are appended to a key set, an id that had a key keeps that key.
  pub first_wins-append :
      (kid : Text) (k : K) (built more : List (Built K))
      → lookup kid (first_wins built []) ≡ some k
      → lookup kid (first_wins (built ++ more) []) ≡ some k
  first_wins-append kid k built more has =
      rw (first_wins_two built more []) (first_wins_kept kid k more (first_wins built []) has)
