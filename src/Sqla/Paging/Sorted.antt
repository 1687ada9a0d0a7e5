-- ===== src/Sqla/Paging/Sorted.antt =====
-- The order of the pages of src/evenkeel/infrastructure/adapters/sqla/.
use mathlib.Core.List.{Permᴰ}
use mathlib.Core.List.Permᴰ
use evenkeel.Prelude.{
  ℕ, ◌<◌, ◌≤◌, ◌≡◌, ◌≢◌, refl, ap, ◌∙◌, inl, inr, Bool, true, ◌&&◌, Bool-cases, List, [], ◌∷◌, leb,
  filter, All, All-map, arith, if◌then◌else◌, if_holds, length, suc,
}
use evenkeel.Sqla.Paging.{insert_desc, sort_desc}

module _ {A : Type 0} (id_of : A → ℕ) where
  -- The ids of rows, each below the one before, and each different from the others.
  abbrev pub Desc : List A → Type 0
  Desc [] = Unit {0}
  Desc (x ∷ xs) = All (λ y. id_of y < id_of x) xs × Desc xs

  abbrev pub Unique : List A → Type 0
  Unique [] = Unit {0}
  Unique (x ∷ xs) = All (λ y. id_of y ≢ id_of x) xs × Unique xs

  insert_desc-All :
      (P : A → Type 0) (x : A) (xs : List A) → P x → All P xs → All P (insert_desc id_of x xs)
  unfolding insert_desc
  insert_desc-All P x [] h all = (h, tt)
  insert_desc-All P x (y ∷ ys) h (first, rest) =
      if_holds (All P) (leb (id_of y) (id_of x)) (λ _. (h, (first, rest)))
        (λ _. (first, insert_desc-All P x ys h rest))

  pub sort_desc-All : (P : A → Type 0) (xs : List A) → All P xs → All P (sort_desc id_of xs)
  unfolding sort_desc
  sort_desc-All P [] h = tt
  sort_desc-All P (x ∷ xs) (h, hs) =
      insert_desc-All P x (sort_desc id_of xs) h (sort_desc-All P xs hs)

  insert_desc-Desc :
      (x : A) (xs : List A)
      → Desc xs
      → All (λ y. id_of y ≢ id_of x) xs
      → Desc (insert_desc id_of x xs)
  unfolding insert_desc
  insert_desc-Desc x [] d h = (tt, tt)
  insert_desc-Desc x (y ∷ ys) (below, d) (apart, h) =
      if_holds Desc (leb (id_of y) (id_of x))
        (λ le.
          let less : id_of y < id_of x = ground (arith, le, apart) in
          ((less, All-map _ _ (λ z lt. omega (arith, lt, less)) ys below), (below, d)))
        (λ gt.
          let more : id_of x < id_of y = ground (arith, gt) in
          (insert_desc-All (λ z. id_of z < id_of y) x ys more below, insert_desc-Desc x ys d h))

  pub sort_desc-Desc : (xs : List A) → Unique xs → Desc (sort_desc id_of xs)
  unfolding sort_desc
  sort_desc-Desc [] u = tt
  sort_desc-Desc (x ∷ xs) (apart, u) =
      insert_desc-Desc x (sort_desc id_of xs) (sort_desc-Desc xs u)
        (sort_desc-All (λ y. id_of y ≢ id_of x) xs apart)

  insert_desc-Permᴰ : (x : A) (xs : List A) → Permᴰ (insert_desc id_of x xs) (x ∷ xs)
  unfolding insert_desc
  insert_desc-Permᴰ x [] = Permᴰ.refl (x ∷ [])
  insert_desc-Permᴰ x (y ∷ ys) =
      if_holds (λ zs. Permᴰ zs (x ∷ y ∷ ys)) (leb (id_of y) (id_of x))
        (λ _. Permᴰ.refl (x ∷ y ∷ ys))
        (λ _. Permᴰ.trans (Permᴰ.cons refl (insert_desc-Permᴰ x ys)) (Permᴰ.swap refl refl))

  pub sort_desc-Permᴰ : (xs : List A) → Permᴰ (sort_desc id_of xs) xs
  unfolding sort_desc
  sort_desc-Permᴰ [] = Permᴰ.refl []
  sort_desc-Permᴰ (x ∷ xs) =
      Permᴰ.trans (insert_desc-Permᴰ x (sort_desc id_of xs)) (Permᴰ.cons refl (sort_desc-Permᴰ xs))

  -- What a test keeps of rows that satisfy something satisfies it.
  pub filter-All : (P : A → Type 0) (q : A → Bool) (xs : List A) → All P xs → All P (filter q xs)
  filter-All P q [] h = tt
  filter-All P q (x ∷ xs) (h, hs) =
      let rest = filter-All P q xs hs in if_holds (All P) (q x) (λ _. (h, rest)) (λ _. rest)

  pub filter-Desc : (q : A → Bool) (xs : List A) → Desc xs → Desc (filter q xs)
  filter-Desc q [] d = tt
  filter-Desc q (x ∷ xs) (below, d) =
      let rest = filter-Desc q xs d in
      if_holds Desc (q x) (λ _. (filter-All _ q xs below, rest)) (λ _. rest)

  insert_top :
      (x : A) (xs : List A) → All (λ y. id_of y ≤ id_of x) xs → insert_desc id_of x xs ≡ x ∷ xs
  unfolding insert_desc
  insert_top x [] h = refl
  insert_top x (y ∷ ys) (le, h) =
      let at_most : leb (id_of y) (id_of x) ≡ true = ground (arith, le) in rw at_most refl

  kept_before :
      (q : A → Bool) (x y : A) (ys : List A)
      → y ∷ (if q x then insert_desc id_of x ys else ys)
        ≡ (if q x then y ∷ insert_desc id_of x ys else y ∷ ys)
  kept_before q x y ys = elim (Bool-cases (q x)) [ inl e ↦ rw e refl | inr e ↦ rw e refl ]

  filter-insert_desc :
      (q : A → Bool) (x : A) (xs : List A)
      → Desc xs
      → filter q (insert_desc id_of x xs)
        ≡ (if q x then insert_desc id_of x (filter q xs) else filter q xs)
  unfolding insert_desc
  filter-insert_desc q x [] d = refl
  filter-insert_desc q x (y ∷ ys) (below, d) =
      let after = filter-insert_desc q x ys d in
      elim (Bool-cases (leb (id_of y) (id_of x))) [
        | inl le ↦
            let at_most : id_of y ≤ id_of x = ground (arith, le) in
            let under : All (λ z. id_of z ≤ id_of x) (y ∷ ys) =
              (at_most, All-map _ _ (λ z lt. omega (arith, lt, at_most)) ys below) in
            let top = insert_top x (filter q (y ∷ ys)) (filter-All _ q (y ∷ ys) under) in
            rw (le, top) refl
        | inr gt ↦ elim (Bool-cases (q y)) [
          | inl kept ↦ rw (gt, kept, after, gt) (kept_before q x y (filter q ys))
          | inr dropped ↦ rw (gt, dropped) after
        ]
      ]

  pub filter-sort_desc :
      (q : A → Bool) (xs : List A)
      → Unique xs
      → filter q (sort_desc id_of xs) ≡ sort_desc id_of (filter q xs)
  unfolding sort_desc
  filter-sort_desc q [] u = refl
  filter-sort_desc q (x ∷ xs) (apart, u) =
      let rest = filter-sort_desc q xs u in
      filter-insert_desc q x (sort_desc id_of xs) (sort_desc-Desc xs u) ∙ elim (Bool-cases (q x)) [
        | inl kept ↦ rw (kept, rest) refl
        | inr dropped ↦ rw (dropped, rest) refl
      ]

  pub filter_twice :
      (p q : A → Bool) (xs : List A) → filter (λ x. p x && q x) xs ≡ filter q (filter p xs)
  filter_twice p q [] = refl
  filter_twice p q (x ∷ xs) =
      let rest = filter_twice p q xs in
      elim (Bool-cases (p x)) [
        | inl kept ↦ rw (kept, rest) refl
        | inr dropped ↦ rw (dropped, rest) refl
      ]

  length-insert_desc : (x : A) (xs : List A) → length (insert_desc id_of x xs) ≡ suc (length xs)
  unfolding insert_desc
  length-insert_desc x [] = refl
  length-insert_desc x (y ∷ ys) =
      let P : List A → Type 0 = λ zs. length zs ≡ suc (suc (length ys)) in
      if_holds P (leb (id_of y) (id_of x)) (λ _. refl) (λ _. ap suc (length-insert_desc x ys))

  pub length-sort_desc : (xs : List A) → length (sort_desc id_of xs) ≡ length xs
  unfolding sort_desc
  length-sort_desc [] = refl
  length-sort_desc (x ∷ xs) =
      length-insert_desc x (sort_desc id_of xs) ∙ ap suc (length-sort_desc xs)
