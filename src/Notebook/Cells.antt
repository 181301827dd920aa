-- ===== src/Notebook/Cells.antt =====
-- core/src/notebook.rs: a cell that is saved and read again.
use jupynvim.Prelude.{
  ◌≡◌, refl, sym, ap, ◌∙◌, Bool, true, false, ◌||◌, Option, none, some, List, [], ◌∷◌, map, arith,
  if◌then◌else◌,
}
use jupynvim.Notebook.{
  Text, text_eq, Json, CellType, code, markdown, raw, type_text, type_of, key_type, key_id,
  key_source, key_count, key_outputs, key_metadata, is_known, Cell, source_to_array,
  split_inclusive, join, texts, push_text, joined, one_text, source_of, saved_output, count_value,
  code_fields, insert_all,
}
use jupynvim.Notebook.Source.{join-split_inclusive}
use jupynvim.Notebook.Maps.{lookup, or_else, Laws, get-insert_all}

-- What a save leaves of a type's own fields.
unfoldable pub if_code {ℓ} : {A : Type ℓ} → CellType → A → A → A
if_code code a b = a
if_code markdown a b = b
if_code raw a b = b

pub type_of-text : (t : CellType) → type_of (type_text t) ≡ t
unfolding type_of type_text text_eq
type_of-text code = refl
type_of-text markdown = refl
type_of-text raw = refl

all_false :
    (a b c d e f : Bool)
    → (a || b || c || d || e || f) ≡ false
    → (a ≡ false) × (b ≡ false) × (c ≡ false) × (d ≡ false) × (e ≡ false) × (f ≡ false)
all_false a b c d e f h = ground arith

pub or_else-none {ℓ} : {A : Type ℓ} (o : Option A) → or_else o none ≡ o
unfolding or_else
or_else-none none = refl
or_else-none (some a) = refl

module _ (j : Json) (laws : Laws j) where
  texts-strings : (lines : List Text) → texts j (map j.string lines) ≡ lines
  unfolding texts push_text
  texts-strings [] = refl
  texts-strings (s ∷ lines) =
      ap (λ o. push_text j o (texts j (map j.string lines))) (laws.as_str-string s)
      ∙ ap (λ rest. s ∷ rest) (texts-strings lines)

  -- A source is read back from its array of lines.
  pub source_of-array : (s : Text) → source_of j (some (source_to_array j s)) ≡ s
  unfolding source_of one_text joined source_to_array
  source_of-array s =
      let vs = map j.string (split_inclusive s) in
      ap (one_text j (j.as_array (j.array vs))) (laws.as_str-array vs)
      ∙ ap (joined j) (laws.as_array-array vs)
      ∙ ap join (texts-strings (split_inclusive s))
      ∙ join-split_inclusive s

  -- The fields that `to_json` sets itself.
  unfoldable pub own_fields : Cell j → j.Fields
  own_fields c = code_fields j c c.cell_type (
      j.insert key_source (source_to_array j c.source) (
        j.insert key_metadata c.metadata (
          j.insert key_id (j.string c.id)
            (j.insert key_type (j.string (type_text c.cell_type)) j.empty))))

  unfoldable pub saved_fields : Cell j → j.Fields
  saved_fields c = insert_all j (j.entries c.extra) (own_fields c)

  -- A cell as `from_json` makes it: no field with a key of its own among the extra ones.
  abbrev pub IsClean : Cell j → Type 0
  IsClean c = (k : Text) → is_known k ≡ true → j.get k c.extra ≡ none

  pub own_field :
      (c : Cell j) (k : Text)
      → IsClean c
      → is_known k ≡ true
      → j.get k (saved_fields c) ≡ j.get k (own_fields c)
  unfolding or_else saved_fields
  own_field c k clean known =
      get-insert_all j laws k (j.entries c.extra) (own_fields c) (laws.entries_distinct c.extra)
      ∙ ap (λ o. or_else o (j.get k (own_fields c)))
          (sym (laws.get-entries k c.extra) ∙ clean k known)

  here :
      (k k' : Text) (v : j.Value) (m : j.Fields)
      → text_eq k' k ≡ true
      → j.get k (j.insert k' v m) ≡ some v
  here k k' v m h = laws.get-insert k k' v m ∙ ap (λ b. if b then some v else j.get k m) h

  other :
      (k k' : Text) (v : j.Value) (m : j.Fields)
      → text_eq k' k ≡ false
      → j.get k (j.insert k' v m) ≡ j.get k m
  other k k' v m h = laws.get-insert k k' v m ∙ ap (λ b. if b then some v else j.get k m) h

  code_fields-other :
      (c : Cell j) (t : CellType) (m : j.Fields) (k : Text)
      → text_eq key_outputs k ≡ false
      → text_eq key_count k ≡ false
      → j.get k (code_fields j c t m) ≡ j.get k m
  unfolding code_fields
  code_fields-other c code m k h h' =
      other k key_outputs (j.array (map (saved_output j) c.outputs))
        (j.insert key_count (count_value j c.execution_count) m) h
      ∙ other k key_count (count_value j c.execution_count) m h'
  code_fields-other c markdown m k h h' = refl
  code_fields-other c raw m k h h' = refl

  pub code_fields-count :
      (c : Cell j) (t : CellType) (m : j.Fields)
      → j.get key_count (code_fields j c t m)
        ≡ if_code t (some (count_value j c.execution_count)) (j.get key_count m)
  unfolding code_fields if_code text_eq
  code_fields-count c code m =
      other key_count key_outputs (j.array (map (saved_output j) c.outputs))
        (j.insert key_count (count_value j c.execution_count) m) refl
      ∙ here key_count key_count (count_value j c.execution_count) m refl
  code_fields-count c markdown m = refl
  code_fields-count c raw m = refl

  pub code_fields-outputs :
      (c : Cell j) (t : CellType) (m : j.Fields)
      → j.get key_outputs (code_fields j c t m)
        ≡ if_code t (some (j.array (map (saved_output j) c.outputs))) (j.get key_outputs m)
  unfolding code_fields if_code text_eq
  code_fields-outputs c code m =
      here key_outputs key_outputs (j.array (map (saved_output j) c.outputs))
        (j.insert key_count (count_value j c.execution_count) m) refl
  code_fields-outputs c markdown m = refl
  code_fields-outputs c raw m = refl

  -- The four fields that every type has.
  unfoldable pub head_fields : Cell j → j.Fields
  head_fields c = j.insert key_source (source_to_array j c.source) (
      j.insert key_metadata c.metadata (
        j.insert key_id (j.string c.id)
          (j.insert key_type (j.string (type_text c.cell_type)) j.empty)))

  abbrev pub Basics : Cell j → Type 0
  Basics c =
      (j.get key_source (head_fields c) ≡ some (source_to_array j c.source))
      × (j.get key_metadata (head_fields c) ≡ some c.metadata)
      × (j.get key_id (head_fields c) ≡ some (j.string c.id))
      × (j.get key_type (head_fields c) ≡ some (j.string (type_text c.cell_type)))

  under :
      (c : Cell j) (k : Text)
      → text_eq key_source k ≡ false
      → text_eq key_metadata k ≡ false
      → j.get k (head_fields c)
        ≡ j.get k (
            j.insert key_id
              (j.string c.id)
              (j.insert key_type (j.string (type_text c.cell_type)) j.empty))
  unfolding head_fields
  under c k h h' = other k key_source _ _ h ∙ other k key_metadata _ _ h'

  pub head_fields-Basics : (c : Cell j) → Basics c
  unfolding head_fields text_eq
  head_fields-Basics c = (
    here key_source key_source _ _ refl,
    other key_metadata key_source _ _ refl ∙ here key_metadata key_metadata _ _ refl,
    under c key_id refl refl ∙ here key_id key_id _ _ refl,
    under c key_type refl refl ∙ other key_type key_id _ _ refl ∙ here key_type key_type _ _ refl,
  )

  pub head_fields-none :
      (c : Cell j) (k : Text)
      → text_eq key_source k ≡ false
      → text_eq key_metadata k ≡ false
      → text_eq key_id k ≡ false
      → text_eq key_type k ≡ false
      → j.get k (head_fields c) ≡ none
  head_fields-none c k a b d e =
      under c k a b ∙ other k key_id _ _ d ∙ other k key_type _ _ e ∙ laws.get-empty k

  -- A field of the saved object that `to_json` sets itself.
  pub saved_own :
      (c : Cell j) (k : Text)
      → IsClean c
      → is_known k ≡ true
      → text_eq key_outputs k ≡ false
      → text_eq key_count k ≡ false
      → j.get k (saved_fields c) ≡ j.get k (head_fields c)
  unfolding own_fields head_fields
  saved_own c k clean known h h' =
      own_field c k clean known ∙ code_fields-other c c.cell_type (head_fields c) k h h'

  -- A field that a reader does not know is that of the extra ones.
  pub saved_extra :
      (c : Cell j) (k : Text) → is_known k ≡ false → j.get k (saved_fields c) ≡ j.get k c.extra
  unfolding is_known own_fields saved_fields head_fields
  saved_extra c k h =
      let (t, i, s, n, o, m) = all_false _ _ _ _ _ _ h in
      let own : j.get k (own_fields c) ≡ none =
        code_fields-other c c.cell_type (head_fields c) k o n ∙ head_fields-none c k s m i t in
      get-insert_all j laws k (j.entries c.extra) (own_fields c) (laws.entries_distinct c.extra)
      ∙ ap (or_else (lookup k (j.entries c.extra))) own
      ∙ or_else-none (lookup k (j.entries c.extra))
      ∙ sym (laws.get-entries k c.extra)
