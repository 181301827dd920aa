-- ===== src/Notebook/RoundTrip.antt =====
-- core/src/notebook.rs: what is read of a saved cell, and which fields of any cell are kept.
use jupynvim.Prelude.{
  ℕ, ◌^◌, ◌<◌, ◌≡◌, refl, sym, ap, ◌∙◌, ◌⊎◌, inl, inr, Bool-cases, Bool, true, false, Option, none,
  some, List, [], map, arith, if◌then◌else◌,
}
use jupynvim.Notebook.{
  Text, text_eq, Json, CellType, code, markdown, raw, type_text, key_type, key_id, key_source,
  key_count, key_outputs, key_metadata, is_known, Cell, and_then, unwrap_or, source_of,
  keep_unknown, type_field, cell_of, read_cell, from_json, saved_output, count_value, to_json,
}
use jupynvim.Notebook.Maps.{lookup, or_else, Laws, get-keep_unknown, text_eq→≡}
use jupynvim.Notebook.Cells.{
  if_code, type_of-text, or_else-none, source_of-array, own_fields, saved_fields, IsClean,
  own_field, code_fields-count, code_fields-outputs, head_fields, head_fields-Basics,
  head_fields-none, saved_own, saved_extra,
}

-- An execution count is a `u64`.
abbrev pub CountFits : Option ℕ → Type 0
CountFits none = Unit
CountFits (some n) = n < 2 ^ 64

-- The key of a field that a cell has of its own.
abbrev pub IsField : Text → Type 0
IsField k =
    (k ≡ key_type)
    ⊎ (k ≡ key_id)
    ⊎ (k ≡ key_source)
    ⊎ (k ≡ key_count)
    ⊎ (k ≡ key_outputs)
    ⊎ (k ≡ key_metadata)

known_key : (k f : Text) → is_known f ≡ true → k ≡ f → is_known k ≡ true
known_key k f known e = ap is_known e ∙ known

is_known-IsField : (k : Text) → IsField k → is_known k ≡ true
unfolding is_known text_eq
is_known-IsField k (inl e) = known_key k key_type refl e
is_known-IsField k (inr (inl e)) = known_key k key_id refl e
is_known-IsField k (inr (inr (inl e))) = known_key k key_source refl e
is_known-IsField k (inr (inr (inr (inl e)))) = known_key k key_count refl e
is_known-IsField k (inr (inr (inr (inr (inl e))))) = known_key k key_outputs refl e
is_known-IsField k (inr (inr (inr (inr (inr e))))) = known_key k key_metadata refl e

differs : (k f : Text) → ¬ (k ≡ f) → text_eq f k ≡ false
differs k f unlike = elim (Bool-cases (text_eq f k)) [
  | inl e ↦ absurd (unlike (sym (text_eq→≡ f k e)))
  | inr e ↦ e
]

is_known-other : (k : Text) → ¬ IsField k → is_known k ≡ false
unfolding is_known
is_known-other k other = ground (
  arith,
  differs k key_type (λ e. other (inl e)),
  differs k key_id (λ e. other (inr (inl e))),
  differs k key_source (λ e. other (inr (inr (inl e)))),
  differs k key_count (λ e. other (inr (inr (inr (inl e))))),
  differs k key_outputs (λ e. other (inr (inr (inr (inr (inl e)))))),
  differs k key_metadata (λ e. other (inr (inr (inr (inr (inr e)))))),
)

module _ (j : Json) (laws : Laws j) where
  count-read : (o : Option ℕ) → CountFits o → j.as_u64 (count_value j o) ≡ o
  unfolding count_value
  count-read none h = laws.as_u64-null
  count-read (some n) h = laws.as_u64-number n h

  read_count :
      (o : Option ℕ) (t : CellType)
      → CountFits o
      → and_then j j.as_u64 (if_code t (some (count_value j o)) none) ≡ if_code t o none
  unfolding and_then if_code
  read_count o code h = count-read o h
  read_count o markdown h = refl
  read_count o raw h = refl

  read_outputs :
      (vs : List j.Value) (t : CellType)
      → unwrap_or j [] (and_then j j.as_array (if_code t (some (j.array vs)) none))
        ≡ if_code t vs []
  unfolding and_then if_code unwrap_or
  read_outputs vs code = ap (unwrap_or j []) (laws.as_array-array vs)
  read_outputs vs markdown = refl
  read_outputs vs raw = refl

  count_field :
      (c : Cell j)
      → IsClean j laws c
      → j.get key_count (saved_fields j laws c)
        ≡ if_code c.cell_type (some (count_value j c.execution_count)) none
  unfolding own_fields head_fields is_known text_eq
  count_field c clean =
      own_field j laws c key_count clean refl
      ∙ code_fields-count j laws c c.cell_type (head_fields j laws c)
      ∙ ap (if_code c.cell_type (some (count_value j c.execution_count)))
          (head_fields-none j laws c key_count refl refl refl refl)

  outputs_field :
      (c : Cell j)
      → IsClean j laws c
      → j.get key_outputs (saved_fields j laws c)
        ≡ if_code c.cell_type (some (j.array (map (saved_output j) c.outputs))) none
  unfolding own_fields head_fields is_known text_eq
  outputs_field c clean =
      own_field j laws c key_outputs clean refl
      ∙ code_fields-outputs j laws c c.cell_type (head_fields j laws c)
      ∙ ap (if_code c.cell_type (some (j.array (map (saved_output j) c.outputs))))
          (head_fields-none j laws c key_outputs refl refl refl refl)

  kept :
      (c : Cell j) (k : Text)
      → IsClean j laws c
      → j.get k (keep_unknown j (j.entries (saved_fields j laws c)) j.empty) ≡ j.get k c.extra
  kept c k clean =
      let obj = saved_fields j laws c in
      get-keep_unknown j laws k (j.entries obj) j.empty (laws.entries_distinct obj)
      ∙ ap (or_else (if is_known k then none else lookup k (j.entries obj))) (laws.get-empty k)
      ∙ or_else-none (if is_known k then none else lookup k (j.entries obj))
      ∙ go (is_known k) refl
    where
      go :
          (b : Bool)
          → is_known k ≡ b
          → (if b then none else lookup k (j.entries (saved_fields j laws c))) ≡ j.get k c.extra
      go true e = sym (clean k e)
      go false e = sym (laws.get-entries k (saved_fields j laws c)) ∙ saved_extra j laws c k e

  -- A cell whose extra fields have none of the six known keys and whose count is a `u64`, saved and
  -- read again, has its id, type, source and metadata, and each of its extra fields; a code cell
  -- has its execution count, and its outputs as they are saved; other cells have neither.
  pub from_json-to_json :
      (c : Cell j) (fresh k : Text)
      → IsClean j laws c
      → CountFits c.execution_count
      → (c' : Cell j) × (from_json j fresh (to_json j c) ≡ some c')
        × (c'.id ≡ c.id)
        × (c'.cell_type ≡ c.cell_type)
        × (c'.source ≡ c.source)
        × (c'.metadata ≡ c.metadata)
        × (c'.execution_count ≡ if_code c.cell_type c.execution_count none)
        × (c'.outputs ≡ if_code c.cell_type (map (saved_output j) c.outputs) [])
        × (j.get k c'.extra ≡ j.get k c.extra)
  unfolding from_json cell_of read_cell to_json own_fields saved_fields head_fields and_then
      unwrap_or type_field is_known text_eq
  from_json-to_json c fresh k clean fits =
      let (h_source, h_metadata, h_id, h_type) = head_fields-Basics j laws c in
      let own = saved_own j laws c in
      (
        read_cell j fresh (saved_fields j laws c),
        ap (cell_of j fresh) (laws.as_object-object (saved_fields j laws c)),
        ap (λ o. unwrap_or j fresh (and_then j j.as_str o)) (own key_id clean refl refl refl ∙ h_id)
            ∙ ap (unwrap_or j fresh) (laws.as_str-string c.id),
        ap (λ o. type_field j (and_then j j.as_str o)) (own key_type clean refl refl refl ∙ h_type)
            ∙ ap (type_field j) (laws.as_str-string (type_text c.cell_type))
            ∙ type_of-text c.cell_type,
        ap (source_of j) (own key_source clean refl refl refl ∙ h_source)
            ∙ source_of-array j laws c.source,
        ap (unwrap_or j (j.object j.empty)) (own key_metadata clean refl refl refl ∙ h_metadata),
        ap (and_then j j.as_u64) (count_field c clean)
            ∙ read_count c.execution_count c.cell_type fits,
        ap (λ o. unwrap_or j [] (and_then j j.as_array o)) (outputs_field c clean)
            ∙ read_outputs (map (saved_output j) c.outputs) c.cell_type,
        kept c k clean,
      )

  or_else-empty : (k : Text) (o : Option j.Value) → or_else o (j.get k j.empty) ≡ o
  or_else-empty k o = ap (or_else o) (laws.get-empty k) ∙ or_else-none o

  read_extra :
      (fresh k : Text) (obj : j.Fields)
      → j.get k (read_cell j fresh obj).extra ≡ (if is_known k then none else j.get k obj)
  unfolding read_cell
  read_extra fresh k obj =
      get-keep_unknown j laws k (j.entries obj) j.empty (laws.entries_distinct obj)
      ∙ or_else-empty k (if is_known k then none else lookup k (j.entries obj))
      ∙ ap (λ o. if is_known k then none else o) (sym (laws.get-entries k obj))

  cell_of-extra :
      (fresh k : Text) (o : Option j.Fields) (c : Cell j)
      → cell_of j fresh o ≡ some c
      → (obj : j.Fields) × (o ≡ some obj)
        × (IsField k → j.get k c.extra ≡ none)
        × (¬ IsField k → j.get k c.extra ≡ j.get k obj)
  unfolding cell_of
  cell_of-extra fresh k none c e = absurd (ground arith)
  cell_of-extra fresh k (some obj) c e =
      let same : read_cell j fresh obj ≡ c = ground arith in
      let extra = ap (λ x. j.get k x.extra) (sym same) ∙ read_extra fresh k obj in
      (
        obj,
        refl,
        λ field. extra ∙ ap (λ b. if b then none else j.get k obj) (is_known-IsField k field),
        λ other. extra ∙ ap (λ b. if b then none else j.get k obj) (is_known-other k other),
      )

  -- A cell is read from an object only, and of its fields it keeps those as extra ones, each with
  -- its value, whose key is not cell_type, id, source, execution_count, outputs or metadata.
  pub from_json-extra :
      (fresh k : Text) (v : j.Value) (c : Cell j)
      → from_json j fresh v ≡ some c
      → (obj : j.Fields) × (j.as_object v ≡ some obj)
        × (IsField k → j.get k c.extra ≡ none)
        × (¬ IsField k → j.get k c.extra ≡ j.get k obj)
  unfolding from_json
  from_json-extra fresh k v c e = cell_of-extra fresh k (j.as_object v) c e
