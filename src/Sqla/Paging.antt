-- ===== src/Sqla/Paging.antt =====
-- The pages of the repositories: what src/evenkeel/infrastructure/adapters/sqla/wallet_repository.py
-- and ledger_repository.py do alike, over the rows of a table. A `SELECT` with `ORDER BY id DESC` is
-- the sorted rows that its `WHERE` keeps.
pub mod Sorted
pub mod Cut
pub mod Followed
use evenkeel.Prelude.{
  ℕ, zero, suc, ◌+◌, Bool, true, false, ◌&&◌, Option, none, some, List, [], ◌∷◌, leb, ltb, take,
  filter, length, if◌then◌else◌,
}
use evenkeel.Prelude.Text.{Text}
use evenkeel.Domain.Errors.{Result, ok, err, ◌>>=◌}
use evenkeel.Ports.{Page}
use evenkeel.Sqla.Cursor.{encode_cursor, decode_cursor}

-- The loads of rows, in order: the first that raises ends them.
unfoldable pub load_all : {A B : Type 0} → (A → Result B) → List A → Result (List B)
load_all load [] = ok []
load_all load (row ∷ rows) = do item ← load row; items ← load_all load rows; ok (item ∷ items)

module _ {A : Type 0} (id_of : A → ℕ) where
  unfoldable pub insert_desc : A → List A → List A
  insert_desc x [] = x ∷ []
  insert_desc x (y ∷ ys) = if leb (id_of y) (id_of x) then x ∷ y ∷ ys else y ∷ insert_desc x ys

  -- `ORDER BY id DESC`
  unfoldable pub sort_desc : List A → List A
  unfolding insert_desc
  sort_desc [] = []
  sort_desc (x ∷ xs) = insert_desc x (sort_desc xs)

  -- `WHERE id < after`, where there is a cursor.
  abbrev pub is_after : Option ℕ → A → Bool
  is_after none row = true
  is_after (some after) row = ltb (id_of row) after

  -- `visible[-1]["id"]`, where there is one.
  unfoldable pub last_id : List A → Option ℕ
  last_id [] = none
  last_id (x ∷ []) = some (id_of x)
  last_id (x ∷ y ∷ ys) = last_id (y ∷ ys)

  abbrev pub encoded : Option ℕ → Option Text
  encoded none = none
  encoded (some id) = some (encode_cursor id)

  -- `_paginate`, of the rows that were selected.
  unfoldable pub paginate : {B : Type 0} → (A → Result B) → ℕ → List A → Result (Page B)
  unfolding load_all last_id
  paginate load limit rows = do
    items ← load_all load (take limit rows)
    ok (record {
      items = items;
      next_cursor = if ltb limit (length rows) then encoded (last_id (take limit rows)) else none;
    })

  -- The statement's rows: one more than the limit at most.
  unfoldable pub selected : (A → Bool) → ℕ → Option ℕ → List A → List A
  unfolding sort_desc
  selected where_ limit after rows =
      take (limit + 1) (sort_desc (filter (λ row. where_ row && is_after after row) rows))

  -- `list_by_owner` and `list_by_wallet`, by what their `WHERE` keeps.
  unfoldable pub list_page :
      {B : Type 0} → (A → Bool) → (A → Result B) → ℕ → Option Text → List A → Result (Page B)
  unfolding paginate selected
  list_page where_ load limit cursor rows = do
    after ← decode_cursor cursor
    paginate load limit (selected where_ limit after rows)
