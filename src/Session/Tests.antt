-- ===== src/Session/Tests.antt =====
-- Calls on two cells, and the theorems at them.
use jupynvim.Prelude.{
  ℕ, ◌+◌, ◌≤◌, arith, ◌≡◌, refl, true, some, List, [], ◌∷◌, length, if◌then◌else◌, ◌==◌,
}
use jupynvim.Prelude.Threads.{total}
use jupynvim.Notebook.{Text, text_eq, Cell, code, markdown}
use jupynvim.Notebook.Sample.{small_json}
use jupynvim.Session.{pos, new_cell, insert_at, remove_at, delete_cell, move_cell, cell_index}
use jupynvim.Session.Places.{Moved, move_cell-Moved, delete_cell-totals}

abbrev first_id : Text
first_id = b'a' ∷ []

abbrev second_id : Text
second_id = b'b' ∷ []

abbrev two_cells : List (Cell small_json)
two_cells = new_cell small_json first_id code ∷ new_cell small_json second_id markdown ∷ []

abbrev swapped : List (Cell small_json)
swapped = new_cell small_json second_id markdown ∷ new_cell small_json first_id code ∷ []

abbrev one : Cell small_json → ℕ
one c = 1

moves : move_cell small_json first_id (pos 5) two_cells ≡ some (1, swapped)
unfolding move_cell cell_index text_eq insert_at remove_at new_cell
moves = refl

deletes :
    delete_cell small_json [] second_id two_cells ≡ some (new_cell small_json first_id code ∷ [])
unfolding delete_cell cell_index text_eq remove_at new_cell
deletes = refl

move_cell-Moved_example : Moved small_json first_id (pos 5) two_cells 1 swapped
move_cell-Moved_example =
    move_cell-Moved small_json first_id (pos 5) two_cells swapped 1 (omega arith) moves

delete_cell-totals_example :
    (1 ≤ 1)
    × (c : Cell small_json) × (text_eq c.id second_id ≡ true)
    × (total one (new_cell small_json first_id code ∷ []) + one c
        ≡ total one two_cells
          + (if length two_cells == 1 then one (new_cell small_json [] code) else 0))
delete_cell-totals_example =
    delete_cell-totals small_json one [] second_id two_cells
      (new_cell small_json first_id code ∷ []) deletes
