-- ===== src/Notebook/Maps.antt =====
-- What core/src/notebook.rs relies on of serde_json, and the two loops over a map's entries.
use jupynvim.Prelude.{
  ℕ, ◌^◌, ◌<◌, ◌≡◌, refl, sym, ap, ◌∙◌, subst, Bool, true, false, Option, none, some, List, [], ◌∷◌,
  arith, if◌then◌else◌, if_elim,
}
use jupynvim.Notebook.{Text, text_eq, is_known, Json, keep_unknown, insert_all}

pub text_eq→≡ : (s t : Text) → text_eq s t ≡ true → s ≡ t
unfolding text_eq
text_eq→≡ [] [] h = refl
text_eq→≡ [] (d ∷ t) h = absurd (ground arith)
text_eq→≡ (c ∷ s) [] h = absurd (ground arith)
text_eq→≡ (c ∷ s) (d ∷ t) h = ground (arith, text_eq→≡ s t)

unfoldable pub lookup {ℓ} : {A : Type ℓ} → Text → List (Text × A) → Option A
lookup k [] = none
lookup k ((k', v) ∷ rest) = let later = lookup k rest in if text_eq k' k then some v else later

-- Entries of a map: no key twice.
abbrev pub Distinct {ℓ} : {A : Type ℓ} → List (Text × A) → Type ℓ
Distinct [] = Unit
Distinct ((k, v) ∷ rest) = (lookup k rest ≡ none) × Distinct rest

unfoldable pub or_else {ℓ} : {A : Type ℓ} → Option A → Option A → Option A
or_else none o = o
or_else (some a) o = some a

same_known : (s t : Text) → text_eq s t ≡ true → is_known s ≡ is_known t
same_known s t h = ap is_known (text_eq→≡ s t h)

if_same {ℓ} : {A : Type ℓ} (b : Bool) → ◌≡◌ {A = Option A} (if b then none else none) none
if_same true = refl
if_same false = refl

module _ (j : Json) where
  -- The documented behaviour of the values and the maps.
  pub record Laws : Type 0 where
    pub get-empty : (k : Text) → j.get k j.empty ≡ none
    pub get-insert :
        (k k' : Text) (v : j.Value) (m : j.Fields)
        → j.get k (j.insert k' v m) ≡ (if text_eq k' k then some v else j.get k m)
    pub get-entries : (k : Text) (m : j.Fields) → j.get k m ≡ lookup k (j.entries m)
    pub entries_distinct : (m : j.Fields) → Distinct (j.entries m)
    pub as_str-string : (s : Text) → j.as_str (j.string s) ≡ some s
    pub as_str-array : (vs : List j.Value) → j.as_str (j.array vs) ≡ none
    pub as_array-array : (vs : List j.Value) → j.as_array (j.array vs) ≡ some vs
    pub as_u64-number : (n : ℕ) → n < 2 ^ 64 → j.as_u64 (j.number n) ≡ some n
    pub as_u64-null : j.as_u64 j.null ≡ none
    pub as_object-object : (m : j.Fields) → j.as_object (j.object m) ≡ some m

  module _ (laws : Laws) where
    get_insert_or :
        (k k' : Text) (v : j.Value) (m : j.Fields) (later : Option j.Value)
        → (text_eq k' k ≡ true → later ≡ none)
        → or_else later (j.get k (j.insert k' v m))
          ≡ or_else (if text_eq k' k then some v else later) (j.get k m)
    unfolding or_else
    get_insert_or k k' v m later h = go (text_eq k' k) refl
      where
        got :
            (b : Bool)
            → text_eq k' k ≡ b
            → j.get k (j.insert k' v m) ≡ (if b then some v else j.get k m)
        got b e = laws.get-insert k k' v m ∙ ap (λ c. if c then some v else j.get k m) e

        go :
            (b : Bool)
            → text_eq k' k ≡ b
            → or_else later (j.get k (j.insert k' v m))
              ≡ or_else (if b then some v else later) (j.get k m)
        go true e = ap (λ l. or_else l (j.get k (j.insert k' v m))) (h e) ∙ got true e
        go false e = ap (or_else later) (got false e)

    absent_later :
        (k k' : Text) (rest : List (Text × j.Value))
        → lookup k' rest ≡ none
        → text_eq k' k ≡ true
        → lookup k rest ≡ none
    absent_later k k' rest h e = subst (λ x. lookup x rest ≡ none) (text_eq→≡ k' k e) h

    -- All entries inserted: those of the list, then what was there.
    pub get-insert_all :
        (k : Text) (es : List (Text × j.Value)) (m : j.Fields)
        → Distinct es
        → j.get k (insert_all j es m) ≡ or_else (lookup k es) (j.get k m)
    unfolding insert_all lookup or_else
    get-insert_all k [] m d = refl
    get-insert_all k ((k', v) ∷ rest) m d =
        get-insert_all k rest (j.insert k' v m) d.1
        ∙ get_insert_or k k' v m (lookup k rest) (absent_later k k' rest d.0)

    pub get-keep_unknown :
        (k : Text) (es : List (Text × j.Value)) (m : j.Fields)
        → Distinct es
        → j.get k (keep_unknown j es m)
          ≡ or_else (if is_known k then none else lookup k es) (j.get k m)
    unfolding keep_unknown lookup or_else
    get-keep_unknown k [] m d = ap (λ o. or_else o (j.get k m)) (sym (if_same (is_known k)))
    get-keep_unknown k ((k', v) ∷ rest) m d =
        let same = same_known k' k in
        if_elim (λ n. j.get k n ≡ or_else goal (j.get k m)) (is_known k') (keep_unknown j rest m)
          (keep_unknown j rest (j.insert k' v m))
          (λ known. get-keep_unknown k rest m d.1 ∙ ap (λ o. or_else o (j.get k m)) (ground arith))
          (λ unknown.
            get-keep_unknown k rest (j.insert k' v m) d.1
            ∙ get_insert_or k k' v m kept (λ e.
              ap (λ o. if is_known k then none else o) (absent_later k k' rest d.0 e)
              ∙ if_same (is_known k))
            ∙ ap (λ o. or_else o (j.get k m)) (ground arith))
      where
        kept : Option j.Value
        kept = if is_known k then none else lookup k rest

        goal : Option j.Value
        goal = if is_known k then none else (if text_eq k' k then some v else lookup k rest)
