-- ===== src/Sqla/Paging/Cut.antt =====
-- Where a page of src/evenkeel/infrastructure/adapters/sqla/ cuts rows that descend.
use evenkeel.Prelude.{
  ℕ, zero, suc, ◌<◌, ◌≤◌, ◌≡◌, refl, sym, ap, ◌∙◌, Bool, true, false, Option, none, some, List, [],
  ◌∷◌, ltb, take, drop, filter, length, All, All-map, arith, if_holds, length, ◌&&◌,
}
use evenkeel.Sqla.Paging.{last_id, is_after}
use evenkeel.Sqla.Paging.Sorted.{Desc, Unique, filter-All, filter_twice}

module _ {A : Type 0} (id_of : A → ℕ) where
  pub take-All : (P : A → Type 0) (n : ℕ) (xs : List A) → All P xs → All P (take n xs)
  take-All P zero xs h = tt
  take-All P (suc n) [] h = tt
  take-All P (suc n) (x ∷ xs) (h, hs) = (h, take-All P n xs hs)

  pub drop-All : (P : A → Type 0) (n : ℕ) (xs : List A) → All P xs → All P (drop n xs)
  drop-All P zero xs h = h
  drop-All P (suc n) [] h = tt
  drop-All P (suc n) (x ∷ xs) (h, hs) = drop-All P n xs hs

  pub take-take : (n : ℕ) (xs : List A) → take n (take (suc n) xs) ≡ take n xs
  take-take zero xs = refl
  take-take (suc n) [] = refl
  take-take (suc n) (x ∷ xs) = ap (λ ys. x ∷ ys) (take-take n xs)

  pub filter_kept : (q : A → Bool) (xs : List A) → All (λ x. q x ≡ true) xs → filter q xs ≡ xs
  filter_kept q [] h = refl
  filter_kept q (x ∷ xs) (h, hs) = rw (h, filter_kept q xs hs) refl

  filter_none : (q : A → Bool) (xs : List A) → All (λ x. q x ≡ false) xs → filter q xs ≡ []
  filter_none q [] h = refl
  filter_none q (x ∷ xs) (h, hs) = rw (h, filter_none q xs hs) refl

  -- What is below the last id of a page of descending rows is what the page leaves.
  abbrev pub Leaves : ℕ → List A → ℕ → Type 0
  Leaves limit xs x =
      (last_id id_of (take limit xs) ≡ some x)
      × (filter (λ row. ltb (id_of row) x) xs ≡ drop limit xs)

  -- An id is not above the first.
  abbrev pub Under : ℕ → List A → Type 0
  Under x [] = Unit {0}
  Under x (y ∷ ys) = x ≤ id_of y

  pub last-Leaves :
      (P : ℕ → Type 0) (k : ℕ) (xs : List A)
      → Desc id_of xs
      → All (λ row. P (id_of row)) xs
      → suc k < length xs
      → (x : ℕ) × P x × Under x xs × Leaves (suc k) xs x
  unfolding last_id
  last-Leaves P k [] d h more = absurd (omega (arith, more))
  last-Leaves P zero (y ∷ ys) (below, d) (h, hs) more =
      let itself : ltb (id_of y) (id_of y) ≡ false = ground arith in
      let kept : All (λ z. ltb (id_of z) (id_of y) ≡ true) ys =
        All-map _ _ (λ z lt. ground (arith, lt)) ys below in
      (
        id_of y,
        h,
        omega arith,
        (refl, rw itself (filter_kept (λ z. ltb (id_of z) (id_of y)) ys kept)),
      )
  last-Leaves P (suc k) (y ∷ []) d h more = absurd (omega (arith, more))
  last-Leaves P (suc k) (y ∷ z ∷ zs) ((lt, _), d) (h, hs) more =
      let (x, px, under, (last, left)) = last-Leaves P k (z ∷ zs) d hs (omega (arith, more)) in
      let above : ltb (id_of y) x ≡ false = ground (arith, lt, under) in
      (x, px, omega (arith, lt, under), (last, rw above left))

  unfoldable pub Below : ℕ → Option ℕ → Type 0
  Below x none = Unit {0}
  Below x (some after) = x < after

  both_after :
      (x : ℕ) (after : Option ℕ) (row : A)
      → Below x after
      → (is_after id_of after row && ltb (id_of row) x) ≡ ltb (id_of row) x
  unfolding Below
  both_after x none row h = refl
  both_after x (some after) row h = ground (arith, h)

  filter_cong : (p q : A → Bool) (xs : List A) → ((a : A) → p a ≡ q a) → filter p xs ≡ filter q xs
  filter_cong p q [] e = refl
  filter_cong p q (x ∷ xs) e = rw (e x, filter_cong p q xs e) refl

  -- The rows after a later cursor are those after it of the rows after an earlier one.
  pub after_again :
      (x : ℕ) (after : Option ℕ) (xs : List A)
      → Below x after
      → filter (is_after id_of (some x)) xs
        ≡ filter (λ row. ltb (id_of row) x) (filter (is_after id_of after) xs)
  after_again x after xs h =
      sym (filter_cong _ _ xs (λ row. both_after x after row h))
      ∙ filter_twice id_of (is_after id_of after) (λ row. ltb (id_of row) x) xs

  pub kept-Below :
      (after : Option ℕ) (xs : List A)
      → All (λ row. Below (id_of row) after) (filter (is_after id_of after) xs)
  unfolding Below
  kept-Below after [] = tt
  kept-Below none (x ∷ xs) = (tt, kept-Below none xs)
  kept-Below (some after) (x ∷ xs) =
      let rest = kept-Below (some after) xs in
      if_holds (All (λ row. id_of row < after)) (ltb (id_of x) after)
        (λ lt. (ground (arith, lt), rest)) (λ _. rest)

  pub filter-Unique : (q : A → Bool) (xs : List A) → Unique id_of xs → Unique id_of (filter q xs)
  filter-Unique q [] u = tt
  filter-Unique q (x ∷ xs) (apart, u) =
      let rest = filter-Unique q xs u in
      if_holds (Unique id_of) (q x) (λ _. (filter-All id_of _ q xs apart, rest)) (λ _. rest)

  pub take_whole : (n : ℕ) (xs : List A) → length xs ≤ n → take n xs ≡ xs
  take_whole zero [] h = refl
  take_whole zero (x ∷ xs) h = absurd (omega (arith, h))
  take_whole (suc n) [] h = refl
  take_whole (suc n) (x ∷ xs) h = ap (λ ys. x ∷ ys) (take_whole n xs (omega (arith, h)))

  pub All-both : (P Q : A → Type 0) (xs : List A) → All P xs → All Q xs → All (λ x. P x × Q x) xs
  All-both P Q [] h k = tt
  All-both P Q (x ∷ xs) (h, hs) (k, ks) = ((h, k), All-both P Q xs hs ks)

  pub filter_whole : (xs : List A) → filter (is_after id_of none) xs ≡ xs
  filter_whole [] = refl
  filter_whole (x ∷ xs) = ap (λ ys. x ∷ ys) (filter_whole xs)
