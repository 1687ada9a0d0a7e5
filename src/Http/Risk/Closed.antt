-- ===== src/Http/Risk/Closed.antt =====
-- Which answers of the provider let a movement pass:
-- src/evenkeel/infrastructure/adapters/http/risk.py
use evenkeel.Prelude.{
  ◌≤◌, ◌≡◌, refl, ap, ◌⊎◌, inl, inr, true, Bool-cases, Option, none, some, arith, length,
  length-take,
}
use evenkeel.Prelude.Text.{Text, codes, text_beq_iff, text_eq}
use evenkeel.Prelude.Dict.{lookup}
use evenkeel.Ports.{allowed, refused, unavailable}
use evenkeel.Http.Transport.{JsonResponse, is_ok}
use evenkeel.Http.Risk.{
  Json, string, other, Body, prose, says, mapped, unassessed_for, decide, assessed_body,
  assess_response,
}

says-true : (word : Text) (v : Option Json) → says word v ≡ true → v ≡ some (string word)
unfolding says
says-true word none h = cc h
says-true word (some other) h = cc h
says-true word (some (string s)) h = ap (λ (t : Text). some (string t)) ((text_beq_iff s word).0 h)

-- The words of a decision.
abbrev pub Says : Text → JsonResponse Body → Type 0
Says word r =
    (is_ok r ≡ true)
    × (body : Body) × (r.body ≡ some body)
    × (lookup (codes "decision") body ≡ some (string word))

decide_cases :
    (body : Body)
    → (((decide body).outcome ≡ allowed)
        × (lookup (codes "decision") body ≡ some (string (codes "allow"))))
      ⊎ (((decide body).outcome ≡ refused)
          × (lookup (codes "decision") body ≡ some (string (codes "refuse"))))
      ⊎ ((decide body).outcome ≡ unavailable)
unfolding decide mapped unassessed_for
decide_cases body = elim (Bool-cases (says (codes "allow") (lookup (codes "decision") body))) [
  | inl y ↦ inl (rw y refl, says-true (codes "allow") _ y)
  | inr n ↦ elim (Bool-cases (says (codes "refuse") (lookup (codes "decision") body))) [
    | inl y ↦ inr (inl (rw (n, y) refl, says-true (codes "refuse") _ y))
    | inr n' ↦ inr (inr (rw (n, n') refl))
  ]
]

-- The assessment fails closed: a movement is allowed only on the provider's own word in an answer
-- that came through, refused only on its word, and anything else is no assessment.
pub assess_response_cases :
    (r : JsonResponse Body)
    → (((assess_response r).outcome ≡ allowed) × Says (codes "allow") r)
      ⊎ (((assess_response r).outcome ≡ refused) × Says (codes "refuse") r)
      ⊎ ((assess_response r).outcome ≡ unavailable)
unfolding assess_response
assess_response_cases r = go r.body refl
  where
    go :
        (b : Option Body)
        → r.body ≡ b
        → (((assessed_body r b).outcome ≡ allowed) × Says (codes "allow") r)
          ⊎ (((assessed_body r b).outcome ≡ refused) × Says (codes "refuse") r)
          ⊎ ((assessed_body r b).outcome ≡ unavailable)
    go none e = unfold assessed_body unassessed_for in inr (inr refl)
    go (some body) e =
        unfold assessed_body unassessed_for in
        elim (Bool-cases (is_ok r)) [
          | inl y ↦ elim (decide_cases body) [
            | inl (o, word) ↦ inl (rw y o, (y, body, e, word))
            | inr (inl (o, word)) ↦ inr (inl (rw y o, (y, body, e, word)))
            | inr (inr o) ↦ inr (inr (rw y o))
          ]
          | inr n ↦ inr (inr (rw n refl))
        ]

-- What is kept of the provider's prose is bounded.
pub prose_bounded : (v : Option Json) → length (prose v) ≤ 200
unfolding prose
prose_bounded none = omega arith
prose_bounded (some other) = omega arith
prose_bounded (some (string s)) = let h = length-take 200 s in omega (arith, h)
