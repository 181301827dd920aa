-- ===== src/Notebook/Sample.antt =====
-- A small JSON, with the laws that core/src/notebook.rs relies on.
use jupynvim.Prelude.{
  ℕ, ◌≡◌, refl, sym, ap, ◌∙◌, subst, Bool, true, false, Option, none, some, List, [], ◌∷◌,
  if◌then◌else◌, if_elim, Bool-cases, inl, inr,
}
use jupynvim.Notebook.{Text, text_eq, Json}
use jupynvim.Notebook.Maps.{lookup, Distinct, Laws, text_eq→≡}

mutual
  pub data Val : Type 0 where
    v_null : Val
    v_string : Text → Val
    v_number : ℕ → Val
    v_array : Vals → Val
    v_object : Ents → Val

  pub data Vals : Type 0 where
    v_nil : Vals
    v_cons : Val → Vals → Vals

  pub data Ents : Type 0 where
    e_nil : Ents
    e_cons : Text → Val → Ents → Ents

unfoldable pub to_vals : List Val → Vals
to_vals [] = v_nil
to_vals (v ∷ vs) = v_cons v (to_vals vs)

unfoldable pub from_vals : Vals → List Val
from_vals v_nil = []
from_vals (v_cons v vs) = v ∷ from_vals vs

from_vals-to_vals : (vs : List Val) → from_vals (to_vals vs) ≡ vs
unfolding from_vals to_vals
from_vals-to_vals [] = refl
from_vals-to_vals (v ∷ vs) = ap (λ t. v ∷ t) (from_vals-to_vals vs)

unfoldable pub drop_key : Text → List (Text × Val) → List (Text × Val)
drop_key k [] = []
drop_key k ((k', v) ∷ rest) =
    let after = drop_key k rest in if text_eq k' k then after else (k', v) ∷ after

-- An entry hides later ones with its key.
unfoldable pub listed : Ents → List (Text × Val)
unfolding drop_key
listed e_nil = []
listed (e_cons k v rest) = (k, v) ∷ drop_key k (listed rest)

unfoldable pub to_ents : List (Text × Val) → Ents
to_ents [] = e_nil
to_ents ((k, v) ∷ rest) = e_cons k v (to_ents rest)

unfoldable pub val_str : Val → Option Text
val_str v_null = none
val_str (v_string s) = some s
val_str (v_number n) = none
val_str (v_array vs) = none
val_str (v_object m) = none

unfoldable pub val_u64 : Val → Option ℕ
val_u64 v_null = none
val_u64 (v_string s) = none
val_u64 (v_number n) = some n
val_u64 (v_array vs) = none
val_u64 (v_object m) = none

unfoldable pub val_array : Val → Option (List Val)
unfolding from_vals
val_array v_null = none
val_array (v_string s) = none
val_array (v_number n) = none
val_array (v_array vs) = some (from_vals vs)
val_array (v_object m) = none

unfoldable pub val_object : Val → Option Ents
val_object v_null = none
val_object (v_string s) = none
val_object (v_number n) = none
val_object (v_array vs) = none
val_object (v_object m) = some m

abbrev pub small_json : Json
small_json = record {
  Value = Val;
  Fields = Ents;
  null = v_null;
  string = v_string;
  number = v_number;
  array = λ vs. v_array (to_vals vs);
  object = v_object;
  as_str = val_str;
  as_u64 = val_u64;
  as_array = val_array;
  as_object = val_object;
  empty = e_nil;
  insert = e_cons;
  remove = λ k m. to_ents (drop_key k (listed m));
  get = λ k m. lookup k (listed m);
  entries = listed;
}

lookup-drop_self : (k : Text) (es : List (Text × Val)) → lookup k (drop_key k es) ≡ none
unfolding lookup drop_key
lookup-drop_self k [] = refl
lookup-drop_self k ((k', v) ∷ rest) =
    if_elim (λ es. lookup k es ≡ none) (text_eq k' k) (drop_key k rest) ((k', v) ∷ drop_key k rest)
      (λ _. lookup-drop_self k rest)
      (λ e. ap (λ b. if b then some v else lookup k (drop_key k rest)) e ∙ lookup-drop_self k rest)

lookup-drop_other :
    (k k' : Text) (es : List (Text × Val))
    → text_eq k k' ≡ false
    → lookup k' (drop_key k es) ≡ lookup k' es
unfolding lookup drop_key
lookup-drop_other k k' [] h = refl
lookup-drop_other k k' ((l, v) ∷ rest) h =
    if_elim (λ es. lookup k' es ≡ lookup k' ((l, v) ∷ rest)) (text_eq l k) (drop_key k rest)
      ((l, v) ∷ drop_key k rest)
      (λ e.
        let skip : text_eq l k' ≡ false =
          subst (λ x. text_eq x k' ≡ false) (sym (text_eq→≡ l k e)) h in
        lookup-drop_other k k' rest h ∙ sym (ap (λ b. if b then some v else lookup k' rest) skip))
      (λ _. ap (λ o. if text_eq l k' then some v else o) (lookup-drop_other k k' rest h))

lookup-drop_none :
    (k k' : Text) (es : List (Text × Val)) → lookup k' es ≡ none → lookup k' (drop_key k es) ≡ none
lookup-drop_none k k' es h = elim (Bool-cases (text_eq k k')) [
  | inl e ↦ subst (λ x. lookup x (drop_key k es) ≡ none) (text_eq→≡ k k' e) (lookup-drop_self k es)
  | inr e ↦ lookup-drop_other k k' es e ∙ h
]

drop_key-Distinct : (k : Text) (es : List (Text × Val)) → Distinct es → Distinct (drop_key k es)
unfolding drop_key
drop_key-Distinct k [] d = tt
drop_key-Distinct k ((k', v) ∷ rest) d =
    if_elim Distinct (text_eq k' k) (drop_key k rest) ((k', v) ∷ drop_key k rest)
      (λ _. drop_key-Distinct k rest d.1)
      (λ _. (lookup-drop_none k k' rest d.0, drop_key-Distinct k rest d.1))

listed-Distinct : (m : Ents) → Distinct (listed m)
unfolding listed
listed-Distinct e_nil = tt
listed-Distinct (e_cons k v rest) =
    (lookup-drop_self k (listed rest), drop_key-Distinct k (listed rest) (listed-Distinct rest))

get-e_cons :
    (k k' : Text) (v : Val) (m : Ents)
    → lookup k (listed (e_cons k' v m)) ≡ (if text_eq k' k then some v else lookup k (listed m))
unfolding listed lookup
get-e_cons k k' v m = go (text_eq k' k) refl
  where
    go :
        (b : Bool)
        → text_eq k' k ≡ b
        → (if b then some v else lookup k (drop_key k' (listed m)))
          ≡ (if b then some v else lookup k (listed m))
    go true e = refl
    go false e = lookup-drop_other k' k (listed m) e

pub small_laws : Laws small_json
unfolding val_str val_u64 val_array val_object listed lookup
small_laws = record {
  get-empty = λ k. refl;
  get-insert = get-e_cons;
  get-entries = λ k m. refl;
  entries_distinct = listed-Distinct;
  as_str-string = λ s. refl;
  as_str-array = λ vs. refl;
  as_array-array = λ vs. ap some (from_vals-to_vals vs);
  as_u64-number = λ n h. refl;
  as_u64-null = refl;
  as_object-object = λ m. refl;
}
