-- ===== src/Notebook/Tests.antt =====
-- The theorems about cells at a small JSON.
use jupynvim.Prelude.{
  ◌≡◌, refl, true, none, some, [], ◌∷◌, map, arith, Bool-cases, inl, inr, subst, sym, ap,
  if◌then◌else◌,
}
use jupynvim.Notebook.{
  Text, text_eq, Cell, code, key_id, key_transient, split_inclusive, saved_output, from_json,
  to_json, is_known, read_cell, cell_of,
}
use jupynvim.Notebook.Maps.{lookup, text_eq→≡}
use jupynvim.Notebook.Cells.{if_code, IsClean}
use jupynvim.Notebook.RoundTrip.{from_json-to_json, from_json-extra, IsField}
use jupynvim.Notebook.Sample.{
  Val, v_null, v_string, v_number, v_object, e_nil, e_cons, small_json, small_laws, listed,
  val_object, drop_key,
}

abbrev two_lines : Text
two_lines = b'a' ∷ b'\n' ∷ b'b' ∷ []

abbrev color : Text
color = b'c' ∷ b'o' ∷ b'l' ∷ []

-- A code cell with an output that has a `transient` field, and a field that the code does not know.
abbrev a_cell : Cell small_json
a_cell = record {
  id = b'x' ∷ [];
  cell_type = code;
  source = two_lines;
  execution_count = some 3;
  outputs = v_object (e_cons key_transient v_null e_nil) ∷ [];
  metadata = v_object e_nil;
  extra = e_cons color (v_number 7) e_nil;
}

splits : split_inclusive two_lines ≡ (b'a' ∷ b'\n' ∷ []) ∷ (b'b' ∷ []) ∷ []
unfolding split_inclusive
splits = refl

-- An object with an id and a field that is not known.
abbrev an_object : Val
an_object = v_object (e_cons key_id (v_string (b'x' ∷ [])) (e_cons color (v_number 7) e_nil))

abbrev its_cell : Cell small_json
its_cell =
    read_cell small_json [] (e_cons key_id (v_string (b'x' ∷ [])) (e_cons color (v_number 7) e_nil))

from_json-extra_example :
    (obj : small_json.Fields) × (small_json.as_object an_object ≡ some obj)
    × (IsField color → small_json.get color its_cell.extra ≡ none)
    × (¬ IsField color → small_json.get color its_cell.extra ≡ small_json.get color obj)
unfolding from_json cell_of val_object
from_json-extra_example = from_json-extra small_json small_laws [] color an_object its_cell refl

color_unknown : ¬ (is_known color ≡ true)
unfolding is_known text_eq
color_unknown h = absurd (ground arith)

a_cell-IsClean : IsClean small_json small_laws a_cell
unfolding listed lookup drop_key
a_cell-IsClean k known = elim (Bool-cases (text_eq color k)) [
  | inl e ↦
      absurd (color_unknown (subst (λ x. is_known x ≡ true) (sym (text_eq→≡ color k e)) known))
  | inr e ↦ ap (λ b. if b then some (v_number 7) else none) e
]

from_json-to_json_example :
    (c' : Cell small_json) × (from_json small_json [] (to_json small_json a_cell) ≡ some c')
    × (c'.id ≡ b'x' ∷ [])
    × (c'.cell_type ≡ code)
    × (c'.source ≡ two_lines)
    × (c'.metadata ≡ v_object e_nil)
    × (c'.execution_count ≡ if_code code (some 3) none)
    × (c'.outputs ≡ if_code code (map (saved_output small_json) a_cell.outputs) [])
    × (small_json.get color c'.extra ≡ small_json.get color a_cell.extra)
from_json-to_json_example =
    from_json-to_json small_json small_laws a_cell [] color a_cell-IsClean (omega arith)
