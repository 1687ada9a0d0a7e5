-- ===== src/Sqla/Paging/Followed.antt =====
-- A client that follows the cursors of src/evenkeel/infrastructure/adapters/sqla/ to the end.
use evenkeel.Prelude.{
  ℕ, zero, suc, ◌+◌, ◌^◌, ◌<◌, ◌≤◌, ◌≡◌, refl, sym, ap, ◌∙◌, inl, inr, Bool, Bool-cases, Option,
  none, some, List, [], ◌∷◌, ◌++◌, ltb, map, take, drop, filter, length, length-take, length-drop,
  All, All-map, arith, if◌then◌else◌,
}
use mathlib.Core.Path.{subst}
use mathlib.Core.List.{Permᴰ}
use evenkeel.Prelude.Text.{Text}
use evenkeel.Domain.Errors.{Result, ok, ◌>>=◌}
use evenkeel.Ports.{Page}
use evenkeel.Sqla.Cursor.{decode_cursor}
use evenkeel.Sqla.Cursor.Decoded.{decode_cursor-encode_cursor}
use evenkeel.Sqla.Paging.{
  load_all, sort_desc, is_after, last_id, encoded, paginate, selected, list_page,
}
use evenkeel.Sqla.Paging.Cut.{
  take-All, take-take, last-Leaves, Below, after_again, kept-Below, filter-Unique, take_whole,
  All-both, filter_whole,
}
use evenkeel.Sqla.Paging.Sorted.{
  Desc, Unique, sort_desc-Desc, sort_desc-All, sort_desc-Permᴰ, length-sort_desc, filter-All,
  filter-Desc, filter-sort_desc, filter_twice,
}

module _ {A B : Type 0} (id_of : A → ℕ) where
  -- The pages from a cursor on, one after the other; each is read with the cursor of the last.
  unfoldable pub follow :
      (A → Bool) → (A → Result B) → ℕ → ℕ → Option Text → List A → Result (List B)
  follow where_ load limit zero cursor rows = ok []
  follow where_ load limit (suc fuel) cursor rows = do
    page ← list_page id_of where_ load limit cursor rows
    elim page.next_cursor [
      | none ↦ ok page.items
      | some next ↦ do
        more ← follow where_ load limit fuel (some next) rows
        ok (page.items ++ more)
    ]

  module _ (load : A → Result B) (f : A → B) where
    -- A row that loads, with an id of 128 bits.
    abbrev pub Loads : A → Type 0
    Loads row = (load row ≡ ok (f row)) × (id_of row < 2 ^ 128)

    load_all-Loads : (rows : List A) → All Loads rows → load_all load rows ≡ ok (map f rows)
    unfolding load_all
    load_all-Loads [] h = refl
    load_all-Loads (row ∷ rows) ((loaded, _), h) = rw (loaded, load_all-Loads rows h) refl

  module _ (where_ : A → Bool) (load : A → Result B) (f : A → B) (rows : List A) where
    -- All that a client is to be given, in order.
    abbrev pub matching : List A
    matching = sort_desc id_of (filter where_ rows)

    selected-take :
        (limit : ℕ) (after : Option ℕ)
        → Unique id_of rows
        → selected id_of where_ limit after rows
          ≡ take (limit + 1) (filter (is_after id_of after) matching)
    unfolding selected
    selected-take limit after u =
        ap (λ xs. take (limit + 1) (sort_desc id_of xs))
          (filter_twice id_of where_ (is_after id_of after) rows)
        ∙ ap (take (limit + 1)) (
            sym (
              filter-sort_desc id_of (is_after id_of after) (filter where_ rows)
                (filter-Unique id_of where_ rows u)))

    abbrev page_at : ℕ → List A → Page B
    page_at limit xs = record {
      items = map f (take limit xs);
      next_cursor =
          if ltb limit (length xs) then encoded id_of (last_id id_of (take limit xs)) else none;
    }

    -- The page of rows of which one more than the limit is taken.
    page_of :
        (limit : ℕ) (xs : List A)
        → All (Loads load f) xs
        → paginate id_of load limit (take (limit + 1) xs) ≡ ok (page_at limit xs)
    unfolding paginate
    page_of limit xs h =
        let more : suc limit ≡ limit + 1 = omega arith in
        let cut : take limit (take (limit + 1) xs) ≡ take limit xs =
          subst (λ n. take limit (take n xs) ≡ take limit xs) more (take-take id_of limit xs) in
        let long : ltb limit (length (take (limit + 1) xs)) ≡ ltb limit (length xs) =
          ground (arith, length-take (limit + 1) xs) in
        let loaded =
          load_all-Loads load f (take limit xs) (take-All id_of (Loads load f) limit xs h) in
        rw (long, cut, loaded) refl

    list_page_of :
        (limit : ℕ) (after : Option ℕ)
        → Unique id_of rows
        → All (Loads load f) matching
        → decode_cursor (encoded id_of after) ≡ ok after
        → list_page id_of where_ load limit (encoded id_of after) rows
          ≡ ok (page_at limit (filter (is_after id_of after) matching))
    unfolding list_page
    list_page_of limit after u h decoded =
        let loads = filter-All id_of (Loads load f) (is_after id_of after) matching h in
        rw (decoded, selected-take limit after u)
          (page_of limit (filter (is_after id_of after) matching) loads)

    map_cut : (n : ℕ) (xs : List A) → map f (take n xs) ++ map f (drop n xs) ≡ map f xs
    map_cut zero xs = refl
    map_cut (suc n) [] = refl
    map_cut (suc n) (x ∷ xs) = ap (λ ys. f x ∷ ys) (map_cut n xs)

    -- What a page that is not the last has at its end, and what is left after that.
    cut_after :
        (k : ℕ) (after : Option ℕ)
        → Unique id_of rows
        → All (Loads load f) matching
        → suc k < length (filter (is_after id_of after) matching)
        → (x : ℕ) × (x < 2 ^ 128)
          × (last_id id_of (take (suc k) (filter (is_after id_of after) matching)) ≡ some x)
          × (filter (is_after id_of (some x)) matching
              ≡ drop (suc k) (filter (is_after id_of after) matching))
    cut_after k after u h more =
        let xs = filter (is_after id_of after) matching in
        let loads = filter-All id_of (Loads load f) (is_after id_of after) matching h in
        let sorted =
          sort_desc-Desc id_of (filter where_ rows) (filter-Unique id_of where_ rows u) in
        let bounds =
          All-both id_of (λ row. Below id_of (id_of row) after) (λ row. id_of row < 2 ^ 128) xs
            (kept-Below id_of after matching) (All-map _ _ (λ row l. l.1) xs loads) in
        let (x, (below, small), _, (last, left)) =
          last-Leaves id_of (λ i. Below id_of i after × (i < 2 ^ 128)) k xs
            (filter-Desc id_of (is_after id_of after) matching sorted) bounds more in
        (x, small, last, after_again id_of x after matching below ∙ left)

    follow_from :
        (k fuel : ℕ) (after : Option ℕ)
        → Unique id_of rows
        → All (Loads load f) matching
        → length (filter (is_after id_of after) matching) < fuel
        → decode_cursor (encoded id_of after) ≡ ok after
        → follow where_ load (suc k) fuel (encoded id_of after) rows
          ≡ ok (map f (filter (is_after id_of after) matching))
    unfolding follow
    follow_from k zero after u h enough decoded = absurd (omega (arith, enough))
    follow_from k (suc fuel) after u h enough decoded =
        let xs = filter (is_after id_of after) matching in
        let page = list_page_of (suc k) after u h decoded in
        elim (Bool-cases (ltb (suc k) (length xs))) [
          | inr whole ↦
              rw (page, whole)
                (ap (λ ys. ok (map f ys)) (take_whole id_of (suc k) xs (ground (arith, whole))))
          | inl more ↦
              let (x, small, last, again) = cut_after k after u h (ground (arith, more)) in
              let shorter : length (filter (is_after id_of (some x)) matching) < fuel =
                rw again (ground (arith, length-drop (suc k) xs, enough, more)) in
              let rest =
                follow_from k fuel (some x) u h shorter (decode_cursor-encode_cursor x small) in
              rw (page, more, last, rest, again) (ap ok (map_cut (suc k) xs))
        ]

  -- A client that follows the cursors of pages of one row at least, with as many reads as there are
  -- matching rows and one, is given every matching row once, the highest id first, whatever the size
  -- of the pages: where ids are of 128 bits and unique, and each row loads.
  pub follow-All :
      (where_ : A → Bool) (load : A → Result B) (f : A → B) (rows : List A) (limit fuel : ℕ)
      → Unique id_of rows
      → All (Loads load f) (filter where_ rows)
      → 1 ≤ limit
      → length (filter where_ rows) < fuel
      → (follow where_ load limit fuel none rows
          ≡ ok (map f (sort_desc id_of (filter where_ rows))))
        × Desc id_of (sort_desc id_of (filter where_ rows))
        × Permᴰ (sort_desc id_of (filter where_ rows)) (filter where_ rows)
  unfolding decode_cursor
  follow-All where_ load f rows zero fuel u h one enough = absurd (omega (arith, one))
  follow-All where_ load f rows (suc k) fuel u h one enough =
      let sorted = sort_desc id_of (filter where_ rows) in
      let all_of : filter (is_after id_of none) sorted ≡ sorted = filter_whole id_of sorted in
      let perm = sort_desc-Permᴰ id_of (filter where_ rows) in
      let short : length (filter (is_after id_of none) sorted) < fuel =
        rw all_of (ground (arith, length-sort_desc id_of (filter where_ rows), enough)) in
      (
        follow_from where_ load f rows k fuel none u
              (sort_desc-All id_of (Loads load f) (filter where_ rows) h) short refl
            ∙ ap (λ ys. ok (map f ys)) all_of,
        sort_desc-Desc id_of (filter where_ rows) (filter-Unique id_of where_ rows u),
        perm,
      )
