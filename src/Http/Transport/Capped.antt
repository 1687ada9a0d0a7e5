-- ===== src/Http/Transport/Capped.antt =====
-- `read_capped` of src/evenkeel/infrastructure/adapters/http/transport.py against the whole content.
use evenkeel.Prelude.{
  ℕ, zero, suc, ◌+◌, ◌-◌, ◌<◌, ◌≤◌, ◌≡◌, refl, ap, sym, ◌∙◌, ◌⊎◌, inl, inr, Bool-cases, [], ◌∷◌,
  ◌++◌, leb, ◌==◌, arith, length, take,
}
use evenkeel.Prelude.Text.{Text}
use evenkeel.Http.Transport.{Stream, read_left, read_capped}

take-append-short :
    (n : ℕ) (xs ys : Text) → length xs ≤ n → take n (xs ++ ys) ≡ xs ++ take (n - length xs) ys
take-append-short n [] ys h = ap (λ (k : ℕ). take k ys) (omega arith)
take-append-short zero (x ∷ xs) ys h = absurd (omega (arith, h))
take-append-short (suc n) (x ∷ xs) ys h =
    ap (λ (l : Text). x ∷ l)
      (take-append-short n xs ys (omega (arith, h)) ∙ ap (λ (k : ℕ). xs ++ take k ys) (omega arith))

take-all : (xs ys : Text) → take (length xs) (xs ++ ys) ≡ xs
take-all [] ys = refl
take-all (x ∷ xs) ys = ap (λ (l : Text). x ∷ l) (take-all xs ys)

take-nil : (n : ℕ) → take {A = ℕ} n [] ≡ []
take-nil zero = refl
take-nil (suc n) = refl

-- What is documented of a stream: a read returns a beginning of the content, of the size that was
-- asked for at most, and an empty one only for an empty size or at the end.
pub record Reads {S : Type 0} (stream : Stream S) (content : S → Text) : Type 0 where
  pub splits : (n : ℕ) (s : S) → content s ≡ (stream.read n s).0 ++ content (stream.read n s).1
  pub bounded : (n : ℕ) (s : S) → length (stream.read n s).0 ≤ n
  pub ends : (n : ℕ) (s : S) → length (stream.read n s).0 ≡ 0 → (n ≡ 0) ⊎ (content s ≡ [])

module _ {S : Type 0} (stream : Stream S) (content : S → Text) (reads : Reads stream content) where
  read_left_lem :
      (fuel left : ℕ) (s : S) → left < fuel → read_left stream fuel left s ≡ take left (content s)
  unfolding read_left
  read_left_lem zero left s h = absurd (omega (arith, h))
  read_left_lem (suc fuel) left s h =
      let chunk = (stream.read left s).0 in
      let s' = (stream.read left s).1 in
      let size = reads.bounded left s in
      elim (Bool-cases (length chunk == 0)) [
        | inl y ↦ rw y (elim (reads.ends left s (ground (arith, y))) [
          | inl done ↦ sym (ap (λ (k : ℕ). take k (content s)) done)
          | inr over ↦ sym (ap (take left) over ∙ take-nil left)
        ])
        | inr n ↦ elim (Bool-cases (leb left (length chunk))) [
          | inl full ↦
              let exact : left ≡ length chunk = ground (arith, full, size) in
              rw (n, full)
                (sym (
                  ap (take left) (reads.splits left s)
                  ∙ ap (λ (k : ℕ). take k (chunk ++ content s')) exact
                  ∙ take-all chunk (content s')))
          | inr short ↦
              let rest : read_left stream fuel (left - length chunk) s'
                  ≡ take (left - length chunk) (content s') =
                read_left_lem fuel (left - length chunk) s' (ground (arith, h, n, size)) in
              rw (n, short, rest)
                (sym (
                  ap (take left) (reads.splits left s)
                  ∙ take-append-short left chunk (content s') size))
        ]
      ]

  -- However the reads of a stream cut its content into segments, what is read is the content's
  -- beginning, up to the limit, and all of the content if that is shorter.
  pub read_capped-take : (limit : ℕ) (s : S) → read_capped stream limit s ≡ take limit (content s)
  unfolding read_capped
  read_capped-take limit s = read_left_lem (limit + 1) limit s (omega arith)
