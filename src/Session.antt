-- ===== src/Session.antt =====
-- core/src/session.rs: the calls that change a session's list of cells. The id of a new cell is an
-- argument, since the code draws it at random.
pub mod Places
mod Tests
use jupynvim.Prelude.{
  ℕ, zero, suc, ◌+◌, ◌-◌, ◌^◌, ltb, min, Bool, true, false, Option, none, some, List, [], ◌∷◌, map,
  if◌then◌else◌, ◌==◌, length, get_elem?,
}
use jupynvim.Notebook.{Text, text_eq, Json, Cell, CellType, code, markdown, raw, key_type}

abbrev key_execution : Text
key_execution = b'e' ∷ b'x' ∷ b'e' ∷ b'c' ∷ b'u' ∷ b't' ∷ b'i' ∷ b'o' ∷ b'n' ∷ []

-- The distance of a move: `pos n` is `n`, `negsuc n` is `-(n + 1)`.
pub data ℤ : Type 0 where
  pos : ℕ → ℤ
  negsuc : ℕ → ℤ

-- `(idx as i64 + delta).max(0)` as the release profile computes it: a sum above an `i64` wraps, to a
-- negative one. The dev profile panics there.
unfoldable pub moved_by : ℕ → ℤ → ℕ
moved_by idx (pos n) = if ltb (idx + n) (2 ^ 63) then idx + n else 0
moved_by idx (negsuc n) = idx - suc n

-- `Vec::insert` and `Vec::remove`, in range.
unfoldable pub insert_at {ℓ} : {A : Type ℓ} → ℕ → A → List A → List A
insert_at zero a xs = a ∷ xs
insert_at (suc i) a [] = a ∷ []
insert_at (suc i) a (y ∷ xs) = y ∷ insert_at i a xs

unfoldable pub remove_at {ℓ} : {A : Type ℓ} → ℕ → List A → List A
remove_at i [] = []
remove_at zero (y ∷ xs) = xs
remove_at (suc i) (y ∷ xs) = y ∷ remove_at i xs

module _ (j : Json) where
  unfoldable pub next_place : Option ℕ → Option ℕ
  next_place none = none
  next_place (some i) = some (suc i)

  -- `cell_index`.
  unfoldable pub cell_index : Text → List (Cell j) → Option ℕ
  unfolding text_eq next_place
  cell_index id [] = none
  cell_index id (c ∷ cells) =
      let later = next_place (cell_index id cells) in if text_eq c.id id then some 0 else later

  with_first : Cell j → Option (List (Cell j)) → Option (List (Cell j))
  with_first c none = none
  with_first c (some cells) = some (c ∷ cells)

  -- The first cell with an id, changed; `none` where there is none.
  unfoldable pub change_cell : (Cell j → Cell j) → Text → List (Cell j) → Option (List (Cell j))
  unfolding text_eq with_first
  change_cell f id [] = none
  change_cell f id (c ∷ cells) =
      let later = with_first c (change_cell f id cells) in
      if text_eq c.id id then some (f c ∷ cells) else later

  -- `update_cell_source`.
  unfoldable pub update_cell_source : Text → Text → List (Cell j) → Option (List (Cell j))
  unfolding change_cell
  update_cell_source id source cells = change_cell (λ c. record c { source = source }) id cells

  retyped : CellType → Cell j → Cell j
  retyped code c = record c { cell_type = code }
  retyped markdown c = record c { cell_type = markdown; execution_count = none; outputs = [] }
  retyped raw c = record c { cell_type = raw; execution_count = none; outputs = [] }

  -- `set_cell_type`.
  unfoldable pub set_cell_type : Text → CellType → List (Cell j) → Option (List (Cell j))
  unfolding change_cell retyped
  set_cell_type id t cells = change_cell (retyped t) id cells

  -- A new cell: `Cell::new_code`, `Cell::new_markdown("")`, or the first of these made raw.
  unfoldable pub new_cell : Text → CellType → Cell j
  new_cell fresh t = record {
    id = fresh;
    cell_type = t;
    source = [];
    execution_count = none;
    outputs = [];
    metadata = j.object j.empty;
    extra = j.empty;
  }

  unfoldable pub insert_place : Option ℕ → List (Cell j) → ℕ
  insert_place none cells = 0
  insert_place (some i) cells = min (i + 1) (length cells)

  -- `insert_cell`; the new id is the one given.
  unfoldable pub insert_cell : Text → Option ℕ → CellType → List (Cell j) → List (Cell j)
  unfolding insert_at insert_place new_cell
  insert_cell fresh after t cells = insert_at (insert_place after cells) (new_cell fresh t) cells

  -- A list of cells is never left empty.
  unfoldable pub or_one_cell : Text → List (Cell j) → List (Cell j)
  unfolding new_cell
  or_one_cell fresh [] = new_cell fresh code ∷ []
  or_one_cell fresh (c ∷ cells) = c ∷ cells

  unfoldable pub delete_at : Text → List (Cell j) → Option ℕ → Option (List (Cell j))
  unfolding or_one_cell remove_at
  delete_at fresh cells none = none
  delete_at fresh cells (some i) = some (or_one_cell fresh (remove_at i cells))

  -- `delete_cell`; `none` is the error.
  unfoldable pub delete_cell : Text → Text → List (Cell j) → Option (List (Cell j))
  unfolding cell_index delete_at
  delete_cell fresh id cells = delete_at fresh cells (cell_index id cells)

  unfoldable pub move_to : ℕ → ℕ → List (Cell j) → Option (Cell j) → ℕ × List (Cell j)
  unfolding remove_at insert_at
  move_to idx place cells none = (idx, cells)
  move_to idx place cells (some c) = (place, insert_at place c (remove_at idx cells))

  unfoldable pub move_at : ℤ → List (Cell j) → Option ℕ → Option (ℕ × List (Cell j))
  unfolding moved_by move_to
  move_at delta cells none = none
  move_at delta cells (some idx) =
      let place = min (moved_by idx delta) (length cells - 1) in
      if place == idx
      then some (idx, cells)
      else some (move_to idx place cells (get_elem? cells idx))

  -- `move_cell`: the cell's new place, and the cells; `none` is the error.
  unfoldable pub move_cell : Text → ℤ → List (Cell j) → Option (ℕ × List (Cell j))
  unfolding cell_index move_at
  move_cell id delta cells = move_at delta cells (cell_index id cells)

  untimed : j.Value → Option j.Fields → j.Value
  untimed v none = v
  untimed v (some m) = j.object (j.remove key_execution m)

  unfoldable pub cleared : Cell j → Cell j
  unfolding untimed
  cleared c = record c {
    outputs = [];
    execution_count = none;
    metadata = untimed c.metadata (j.as_object c.metadata);
  }

  -- `clear_outputs`.
  unfoldable pub clear_outputs : List (Cell j) → List (Cell j)
  unfolding cleared
  clear_outputs cells = map cleared cells

  kept_or : List (Cell j) → Option (List (Cell j)) → List (Cell j)
  kept_or cells none = cells
  kept_or cells (some changed) = changed

  -- `clear_cell_output`.
  unfoldable pub clear_cell_output : Text → List (Cell j) → List (Cell j)
  unfolding cleared change_cell kept_or
  clear_cell_output id cells = kept_or cells (change_cell cleared id cells)
