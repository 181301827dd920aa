-- ===== src/Notebook.antt =====
-- core/src/notebook.rs: the cells of a notebook as JSON. A text is the list of its code points.
-- serde_json's values and maps, and the random cell id, are arguments.
pub mod Source
pub mod Maps
pub mod Cells
pub mod RoundTrip
pub mod Sample
mod Tests
use jupynvim.Prelude.{
  ℕ, Bool, true, false, ◌&&◌, ◌||◌, Option, none, some, List, [], ◌∷◌, ◌++◌, map, if◌then◌else◌,
  ◌==◌,
}

abbrev pub Text : Type 0
Text = List ℕ

unfoldable pub text_eq : Text → Text → Bool
text_eq [] [] = true
text_eq [] (d ∷ t) = false
text_eq (c ∷ s) [] = false
text_eq (c ∷ s) (d ∷ t) = c == d && text_eq s t

-- What the code uses of `serde_json::Value` and `serde_json::Map`.
pub record Json : Type 1 where
  pub Value : Type 0
  pub Fields : Type 0
  pub null : Value
  pub string : Text → Value
  pub number : ℕ → Value
  pub array : List Value → Value
  pub object : Fields → Value
  pub as_str : Value → Option Text
  pub as_u64 : Value → Option ℕ
  pub as_array : Value → Option (List Value)
  pub as_object : Value → Option Fields
  pub empty : Fields
  pub insert : Text → Value → Fields → Fields
  pub remove : Text → Fields → Fields
  pub get : Text → Fields → Option Value
  pub entries : Fields → List (Text × Value)

pub data CellType : Type 0 where
  code : CellType
  markdown : CellType
  raw : CellType

abbrev pub code_text : Text
code_text = b'c' ∷ b'o' ∷ b'd' ∷ b'e' ∷ []

abbrev pub markdown_text : Text
markdown_text = b'm' ∷ b'a' ∷ b'r' ∷ b'k' ∷ b'd' ∷ b'o' ∷ b'w' ∷ b'n' ∷ []

abbrev pub raw_text : Text
raw_text = b'r' ∷ b'a' ∷ b'w' ∷ []

-- `CellType::as_str`.
unfoldable pub type_text : CellType → Text
type_text code = code_text
type_text markdown = markdown_text
type_text raw = raw_text

-- `CellType::from_str`.
unfoldable pub type_of : Text → CellType
unfolding text_eq
type_of s = if text_eq s markdown_text then markdown else if text_eq s raw_text then raw else code

-- The keys of a cell's fields.
abbrev pub key_type : Text
key_type = b'c' ∷ b'e' ∷ b'l' ∷ b'l' ∷ b'_' ∷ b't' ∷ b'y' ∷ b'p' ∷ b'e' ∷ []

abbrev pub key_id : Text
key_id = b'i' ∷ b'd' ∷ []

abbrev pub key_source : Text
key_source = b's' ∷ b'o' ∷ b'u' ∷ b'r' ∷ b'c' ∷ b'e' ∷ []

abbrev pub key_count : Text
key_count =
    b'e' ∷ b'x' ∷ b'e' ∷ b'c' ∷ b'u' ∷ b't' ∷ b'i' ∷ b'o' ∷ b'n' ∷ b'_' ∷ b'c' ∷ b'o' ∷ b'u' ∷ b'n'
    ∷ b't' ∷ []

abbrev pub key_outputs : Text
key_outputs = b'o' ∷ b'u' ∷ b't' ∷ b'p' ∷ b'u' ∷ b't' ∷ b's' ∷ []

abbrev pub key_metadata : Text
key_metadata = b'm' ∷ b'e' ∷ b't' ∷ b'a' ∷ b'd' ∷ b'a' ∷ b't' ∷ b'a' ∷ []

abbrev pub key_transient : Text
key_transient = b't' ∷ b'r' ∷ b'a' ∷ b'n' ∷ b's' ∷ b'i' ∷ b'e' ∷ b'n' ∷ b't' ∷ []

-- The keys that `Cell::from_json` does not keep in `extra`.
unfoldable pub is_known : Text → Bool
unfolding text_eq
is_known k =
    text_eq key_type k
    || text_eq key_id k
    || text_eq key_source k
    || text_eq key_count k
    || text_eq key_outputs k
    || text_eq key_metadata k

prepend : ℕ → List Text → List Text
prepend c [] = (c ∷ []) ∷ []
prepend c (line ∷ lines) = (c ∷ line) ∷ lines

-- `split_inclusive('\n')`: every line but the last ends with its newline.
unfoldable pub split_inclusive : Text → List Text
unfolding prepend
split_inclusive [] = []
split_inclusive (c ∷ s) =
    let lines = split_inclusive s in if c == b'\n' then (c ∷ []) ∷ lines else prepend c lines

-- `join("")`.
unfoldable pub join : List Text → Text
join [] = []
join (line ∷ lines) = line ++ join lines

module _ (j : Json) where
  pub record Cell : Type 0 where
    pub id : Text
    pub cell_type : CellType
    pub source : Text
    pub execution_count : Option ℕ
    pub outputs : List j.Value
    pub metadata : j.Value
    pub extra : j.Fields

  -- `source_to_array`. (A text that is not empty has a line.)
  unfoldable pub source_to_array : Text → j.Value
  unfolding split_inclusive
  source_to_array src = j.array (map j.string (split_inclusive src))

  unfoldable pub push_text : Option Text → List Text → List Text
  push_text none rest = rest
  push_text (some s) rest = s ∷ rest

  -- `filter_map(|v| v.as_str())`.
  unfoldable pub texts : List j.Value → List Text
  unfolding push_text
  texts [] = []
  texts (v ∷ vs) = push_text (j.as_str v) (texts vs)

  unfoldable pub and_then {ℓ} : {A : Type ℓ} → (j.Value → Option A) → Option j.Value → Option A
  and_then f none = none
  and_then f (some v) = f v

  unfoldable pub unwrap_or {ℓ} : {A : Type ℓ} → A → Option A → A
  unwrap_or d none = d
  unwrap_or d (some a) = a

  unfoldable pub joined : Option (List j.Value) → Text
  unfolding texts join
  joined none = []
  joined (some vs) = join (texts vs)

  unfoldable pub one_text : Option (List j.Value) → Option Text → Text
  unfolding joined
  one_text vs (some s) = s
  one_text vs none = joined vs

  -- The `match` on the `source` field.
  unfoldable pub source_of : Option j.Value → Text
  unfolding one_text
  source_of none = []
  source_of (some v) = one_text (j.as_array v) (j.as_str v)

  -- The loop that keeps any other field.
  unfoldable pub keep_unknown : List (Text × j.Value) → j.Fields → j.Fields
  unfolding is_known
  keep_unknown [] m = m
  keep_unknown ((k, v) ∷ rest) m =
      if is_known k then keep_unknown rest m else keep_unknown rest (j.insert k v m)

  unfoldable pub type_field : Option Text → CellType
  unfolding type_of
  type_field none = code
  type_field (some s) = type_of s

  -- `Cell::from_json` on an object.
  unfoldable pub read_cell : Text → j.Fields → Cell
  unfolding type_field and_then unwrap_or source_of keep_unknown
  read_cell fresh obj = record {
    id = unwrap_or fresh (and_then j.as_str (j.get key_id obj));
    cell_type = type_field (and_then j.as_str (j.get key_type obj));
    source = source_of (j.get key_source obj);
    execution_count = and_then j.as_u64 (j.get key_count obj);
    outputs = unwrap_or [] (and_then j.as_array (j.get key_outputs obj));
    metadata = unwrap_or (j.object j.empty) (j.get key_metadata obj);
    extra = keep_unknown (j.entries obj) j.empty;
  }

  unfoldable pub cell_of : Text → Option j.Fields → Option Cell
  unfolding read_cell
  cell_of fresh none = none
  cell_of fresh (some obj) = some (read_cell fresh obj)

  -- `Cell::from_json`; `none` is the error. `fresh` is what `new_cell_id` gives.
  unfoldable pub from_json : Text → j.Value → Option Cell
  unfolding cell_of
  from_json fresh v = cell_of fresh (j.as_object v)

  unfoldable pub stripped : j.Value → Option j.Fields → j.Value
  stripped o none = o
  stripped o (some m) = j.object (j.remove key_transient m)

  -- An output as it is saved.
  unfoldable pub saved_output : j.Value → j.Value
  unfolding stripped
  saved_output o = stripped o (j.as_object o)

  unfoldable pub count_value : Option ℕ → j.Value
  count_value none = j.null
  count_value (some n) = j.number n

  unfoldable pub code_fields : Cell → CellType → j.Fields → j.Fields
  unfolding count_value saved_output
  code_fields c code m =
      j.insert key_outputs (j.array (map saved_output c.outputs))
        (j.insert key_count (count_value c.execution_count) m)
  code_fields c markdown m = m
  code_fields c raw m = m

  unfoldable pub insert_all : List (Text × j.Value) → j.Fields → j.Fields
  insert_all [] m = m
  insert_all ((k, v) ∷ rest) m = insert_all rest (j.insert k v m)

  -- `Cell::to_json`.
  unfoldable pub to_json : Cell → j.Value
  unfolding type_text source_to_array code_fields insert_all
  to_json c =
      let head = j.insert key_source (source_to_array c.source) (
        j.insert key_metadata c.metadata (
          j.insert key_id (j.string c.id)
            (j.insert key_type (j.string (type_text c.cell_type)) j.empty))) in
      j.object (insert_all (j.entries c.extra) (code_fields c c.cell_type head))
