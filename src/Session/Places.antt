-- ===== src/Session/Places.antt =====
-- core/src/session.rs: which cells are where after a cell was inserted, deleted or moved.
use jupynvim.Prelude.{
  ℕ, zero, suc, ◌+◌, ◌-◌, ◌≤◌, ◌<◌, min, ◌≡◌, refl, sym, ap, ◌∙◌, subst, true, Option, none, some,
  List, [], ◌∷◌, arith, ◌⊎◌, false, ltb, ltb→lt, lt→ltb, ◌^◌, if◌then◌else◌, if_elim, ◌==◌, length,
  get_elem?, Bool-cases, inl, inr,
}
use jupynvim.Prelude.Threads.{total, total-cons, total-nil}
use mathlib.Core.Option.{some-injective}
use jupynvim.Notebook.{Text, text_eq, Json, Cell, CellType, code}
use jupynvim.Session.{
  ℤ, pos, negsuc, insert_at, remove_at, next_place, cell_index, new_cell, or_one_cell, delete_at,
  delete_cell, moved_by, move_to, move_at, move_cell,
}

module _ {ℓ} {A : Type ℓ} where
  total-insert_at :
      (w : A → ℕ) (i : ℕ) (a : A) (xs : List A) → total w (insert_at i a xs) ≡ w a + total w xs
  unfolding insert_at
  total-insert_at w zero a xs = total-cons w a xs
  total-insert_at w (suc i) a [] = total-cons w a []
  total-insert_at w (suc i) a (y ∷ xs) =
      omega (arith, total-cons w y (insert_at i a xs), total-cons w y xs, total-insert_at w i a xs)

  total-remove_at :
      (w : A → ℕ) (i : ℕ) (a : A) (xs : List A)
      → get_elem? xs i ≡ some a
      → total w (remove_at i xs) + w a ≡ total w xs
  unfolding remove_at
  total-remove_at w i a [] h = absurd (ground arith)
  total-remove_at w zero a (y ∷ xs) h = ground (arith, total-cons w y xs)
  total-remove_at w (suc i) a (y ∷ xs) h =
      omega (arith, total-cons w y (remove_at i xs), total-cons w y xs, total-remove_at w i a xs h)

  length-remove_at : (i : ℕ) (xs : List A) → i < length xs → length (remove_at i xs) + 1 ≡ length xs
  unfolding remove_at
  length-remove_at i [] h = absurd (omega arith)
  length-remove_at zero (y ∷ xs) h = omega arith
  length-remove_at (suc i) (y ∷ xs) h = omega (arith, length-remove_at i xs)

  get_elem?-insert_at :
      (i : ℕ) (a : A) (xs : List A) → i ≤ length xs → get_elem? (insert_at i a xs) i ≡ some a
  unfolding insert_at
  get_elem?-insert_at zero a xs h = refl
  get_elem?-insert_at (suc i) a [] h = absurd (omega arith)
  get_elem?-insert_at (suc i) a (y ∷ xs) h = get_elem?-insert_at i a xs (omega arith)

  remove_at-insert_at :
      (i : ℕ) (a : A) (xs : List A) → i ≤ length xs → remove_at i (insert_at i a xs) ≡ xs
  unfolding insert_at remove_at
  remove_at-insert_at zero a xs h = refl
  remove_at-insert_at (suc i) a [] h = absurd (omega arith)
  remove_at-insert_at (suc i) a (y ∷ xs) h =
      ap (λ t. y ∷ t) (remove_at-insert_at i a xs (omega arith))

  get_elem?-bound : (i : ℕ) (a : A) (xs : List A) → get_elem? xs i ≡ some a → i < length xs
  get_elem?-bound i a [] h = absurd (ground arith)
  get_elem?-bound zero a (y ∷ xs) h = omega arith
  get_elem?-bound (suc i) a (y ∷ xs) h = omega (arith, get_elem?-bound i a xs h)

module _ (j : Json) where
  next_place-some :
      (o : Option ℕ) (i : ℕ) → next_place j o ≡ some i → (k : ℕ) × (o ≡ some k) × (i ≡ suc k)
  unfolding next_place
  next_place-some none i h = absurd (ground arith)
  next_place-some (some k) i h = (k, refl, ground arith)

  -- The cell with an id, at a place.
  abbrev pub CellAt : Text → List (Cell j) → ℕ → Type 0
  CellAt id cells i = (c : Cell j) × (get_elem? cells i ≡ some c) × (text_eq c.id id ≡ true)

  later_place :
      (id : Text) (c : Cell j) (cells : List (Cell j)) (i : ℕ)
      → text_eq c.id id ≡ false
      → cell_index j id (c ∷ cells) ≡ some i
      → next_place j (cell_index j id cells) ≡ some i
  unfolding cell_index
  later_place id c cells i e h =
      sym (ap (λ b. if b then some 0 else next_place j (cell_index j id cells)) e) ∙ h

  cell_index-some :
      (id : Text) (cells : List (Cell j)) (i : ℕ)
      → cell_index j id cells ≡ some i
      → CellAt id cells i
  unfolding cell_index
  cell_index-some id [] i h = absurd (ground arith)
  cell_index-some id (c ∷ cells) i h = elim (Bool-cases (text_eq c.id id)) [
    | inl e ↦ let zeroth : i ≡ 0 = ground arith in (c, ap (get_elem? (c ∷ cells)) zeroth, e)
    | inr e ↦
        let (k, found, next) = next_place-some _ i (later_place id c cells i e h) in
        let (d, at, same) = cell_index-some id cells k found in
        (d, ap (get_elem? (c ∷ cells)) next ∙ at, same)
  ]

  -- The first cell with an id, at a place.
  abbrev FirstAt : Text → List (Cell j) → ℕ → Type 0
  FirstAt id cells i =
      CellAt id cells i
      × ((k : ℕ) → k < i → (d : Cell j) → get_elem? cells k ≡ some d → text_eq d.id id ≡ false)

  none_earlier :
      (id : Text) (cells : List (Cell j)) (i : ℕ)
      → cell_index j id cells ≡ some i
      → (k : ℕ) → k < i
      → (d : Cell j) → get_elem? cells k ≡ some d
      → text_eq d.id id ≡ false
  unfolding cell_index
  none_earlier id [] i h k lt d at = absurd (ground arith)
  none_earlier id (c ∷ cells) i h zero lt d at = elim (Bool-cases (text_eq c.id id)) [
    | inl e ↦ let zeroth : i ≡ 0 = ground arith in absurd (omega (arith, lt, zeroth))
    | inr e ↦ let same : c ≡ d = some-injective c d at in ap (λ x. text_eq x.id id) (sym same) ∙ e
  ]
  none_earlier id (c ∷ cells) i h (suc k) lt d at = elim (Bool-cases (text_eq c.id id)) [
    | inl e ↦ let zeroth : i ≡ 0 = ground arith in absurd (omega (arith, lt, zeroth))
    | inr e ↦
        let (m, found, next) = next_place-some _ i (later_place id c cells i e h) in
        none_earlier id cells m found k (omega (arith, next, lt)) d at
  ]

  cell_index-FirstAt :
      (id : Text) (cells : List (Cell j)) (i : ℕ)
      → cell_index j id cells ≡ some i
      → FirstAt id cells i
  cell_index-FirstAt id cells i h = (cell_index-some id cells i h, none_earlier id cells i h)

  -- Where a cell is to be inserted: in front, or after a place, or at the end where that is not in
  -- the list.
  abbrev pub PlaceAfter : Option ℕ → List (Cell j) → ℕ → Type 0
  PlaceAfter none cells place = place ≡ 0
  PlaceAfter (some i) cells place =
      ((i < length cells) × (place ≡ suc i)) ⊎ ((length cells ≤ i) × (place ≡ length cells))

  -- A new cell: no text, no output and no count.
  abbrev pub IsNew : Text → CellType → Cell j → Type 0
  IsNew fresh t c =
      (c.id ≡ fresh)
      × (c.cell_type ≡ t)
      × (c.source ≡ [])
      × (c.outputs ≡ [])
      × (c.execution_count ≡ none)

  -- A distance whose sum with any place of the list is an `i64`.
  abbrev pub SumFits : ℤ → List (Cell j) → Type 0
  SumFits (pos n) cells = length cells + n ≤ 2 ^ 63
  SumFits (negsuc n) cells = Unit

  -- The place at a distance from another one, or the last or first one where that is past the end.
  abbrev pub PlaceAt : ℤ → List (Cell j) → ℕ → ℕ → Type 0
  PlaceAt (pos n) cells idx place =
      ((idx + n < length cells) × (place ≡ idx + n))
      ⊎ ((length cells ≤ idx + n) × (suc place ≡ length cells))
  PlaceAt (negsuc n) cells idx place = (place + suc n ≡ idx) ⊎ ((idx < suc n) × (place ≡ 0))

  -- A cell was moved: the first one with an id, by a distance, among the others as they were, so
  -- that any count of the cells is unchanged.
  abbrev pub Moved : Text → ℤ → List (Cell j) → ℕ → List (Cell j) → Type 0
  Moved id delta cells place cells' =
      (idx : ℕ) × (c : Cell j) × (get_elem? cells idx ≡ some c)
      × (text_eq c.id id ≡ true)
      × ((k : ℕ) → k < idx → (d : Cell j) → get_elem? cells k ≡ some d → text_eq d.id id ≡ false)
      × PlaceAt delta cells idx place
      × (get_elem? cells' place ≡ some c)
      × (remove_at place cells' ≡ remove_at idx cells)
      × ((w : Cell j → ℕ) → total w cells' ≡ total w cells)

  place_of-PlaceAt :
      (delta : ℤ) (cells : List (Cell j)) (idx : ℕ)
      → SumFits delta cells
      → idx < length cells
      → PlaceAt delta cells idx (min (moved_by idx delta) (length cells - 1))
  unfolding moved_by
  place_of-PlaceAt (pos n) cells idx fits inside =
      let sum : ltb (idx + n) (2 ^ 63) ≡ true = lt→ltb _ _ (omega (arith, fits, inside)) in
      let by : moved_by idx (pos n) ≡ idx + n = rw (moved_by, sum) refl in
      elim (Bool-cases (ltb (idx + n) (length cells))) [
        | inl e ↦ let lt = ltb→lt _ _ e in inl (lt, omega (arith, by, lt))
        | inr e ↦
            let le : length cells ≤ idx + n = ground arith in
            inr (le, omega (arith, by, le, inside))
      ]
  place_of-PlaceAt (negsuc n) cells idx fits inside = elim (Bool-cases (ltb idx (suc n))) [
    | inl e ↦ let lt = ltb→lt _ _ e in inr (lt, omega (arith, lt))
    | inr e ↦ let le : suc n ≤ idx = ground arith in inl (omega (arith, le, inside))
  ]

  move_at-Moved :
      (id : Text) (delta : ℤ) (cells : List (Cell j)) (idx : ℕ)
      → SumFits delta cells
      → FirstAt id cells idx
      → (r : ℕ × List (Cell j)) × (move_at j delta cells (some idx) ≡ some r)
        × Moved id delta cells r.0 r.1
  unfolding move_at move_to
  move_at-Moved id delta cells idx fits ((c, at, same), first) =
      if_elim (λ o. (r : ℕ × List (Cell j)) × (o ≡ some r) × Moved id delta cells r.0 r.1)
        (place == idx) (some (idx, cells)) (some (move_to j idx place cells (get_elem? cells idx)))
        (λ h. (
          (idx, cells),
          refl,
          (
            idx,
            c,
            at,
            same,
            first,
            subst (PlaceAt delta cells idx) (let same : place ≡ idx = ground arith in same) there,
            at,
            refl,
            λ w. refl,
          ),
        ))
        (λ _. (
          (place, insert_at place c (remove_at idx cells)),
          ap (λ o. some (move_to j idx place cells o)) at,
          (
            idx,
            c,
            at,
            same,
            first,
            there,
            get_elem?-insert_at place c (remove_at idx cells) inside,
            remove_at-insert_at place c (remove_at idx cells) inside,
            λ w. omega (
              arith,
              total-insert_at w place c (remove_at idx cells),
              total-remove_at w idx c cells at,
            ),
          ),
        ))
    where
      place : ℕ
      place = min (moved_by idx delta) (length cells - 1)

      there : PlaceAt delta cells idx place
      there = place_of-PlaceAt delta cells idx fits (get_elem?-bound idx c cells at)

      inside : place ≤ length (remove_at idx cells)
      inside =
          let bound = get_elem?-bound idx c cells at in
          omega (arith, bound, length-remove_at idx cells bound)

  some-same :
      (o : Option (ℕ × List (Cell j))) (r s : ℕ × List (Cell j)) → o ≡ some r → o ≡ some s → r ≡ s
  some-same o r s e f = some-injective r s (sym e ∙ f)

  move_index-Moved :
      (id : Text) (delta : ℤ) (cells : List (Cell j)) (o : Option ℕ) (r : ℕ × List (Cell j))
      → SumFits delta cells
      → cell_index j id cells ≡ o
      → move_at j delta cells o ≡ some r
      → Moved id delta cells r.0 r.1
  unfolding move_at
  move_index-Moved id delta cells none r fits e h = absurd (ground arith)
  move_index-Moved id delta cells (some idx) r fits e h =
      let first = cell_index-FirstAt id cells idx e in
      let (s, f, moved) = move_at-Moved id delta cells idx fits first in
      subst (λ x. Moved id delta cells x.0 x.1)
        (some-same (move_at j delta cells (some idx)) s r f h) moved

  -- Where the sum is an `i64`: of a call that moves a cell, the cell is the first one with the id,
  -- the place that the call returns is at the distance from where it was, or the last or first one
  -- where that is past the end; the cell stands there, the others are as before, and any count of
  -- the cells is unchanged.
  pub move_cell-Moved :
      (id : Text) (delta : ℤ) (cells cells' : List (Cell j)) (place : ℕ)
      → SumFits delta cells
      → move_cell j id delta cells ≡ some (place, cells')
      → Moved id delta cells place cells'
  unfolding move_cell
  move_cell-Moved id delta cells cells' place fits h =
      move_index-Moved id delta cells (cell_index j id cells) (place, cells') fits refl h

  or_one_cell-length :
      (fresh : Text) (cells : List (Cell j)) → 1 ≤ length (or_one_cell j fresh cells)
  unfolding or_one_cell
  or_one_cell-length fresh [] = omega arith
  or_one_cell-length fresh (c ∷ cells) = omega arith

  total-or_one_cell :
      (w : Cell j → ℕ) (fresh : Text) (cells : List (Cell j))
      → total w (or_one_cell j fresh cells)
        ≡ total w cells + (if length cells == 0 then w (new_cell j fresh code) else 0)
  unfolding or_one_cell
  total-or_one_cell w fresh [] = omega (arith, total-cons w (new_cell j fresh code) [], total-nil w)
  total-or_one_cell w fresh (c ∷ cells) = ground arith

  delete_at-totals :
      (w : Cell j → ℕ) (fresh id : Text) (cells cells' : List (Cell j)) (o : Option ℕ)
      → cell_index j id cells ≡ o
      → delete_at j fresh cells o ≡ some cells'
      → (1 ≤ length cells')
        × (c : Cell j) × (text_eq c.id id ≡ true)
        × (total w cells' + w c
            ≡ total w cells + (if length cells == 1 then w (new_cell j fresh code) else 0))
  unfolding delete_at
  delete_at-totals w fresh id cells cells' none e h = absurd (ground arith)
  delete_at-totals w fresh id cells cells' (some i) e h =
      let (c, at, same) = cell_index-some id cells i e in
      let left = remove_at i cells in
      let is : or_one_cell j fresh left ≡ cells' =
        some-injective (or_one_cell j fresh left) cells' h in
      let sizes = length-remove_at i cells (get_elem?-bound i c cells at) in
      let totals = total-or_one_cell w fresh left in
      let took = total-remove_at w i c cells at in
      let goal : total w (or_one_cell j fresh left) + w c
          ≡ total w cells + (if length cells == 1 then w (new_cell j fresh code) else 0) =
        ground (arith, totals, took, sizes) in
      (
        subst (λ x. 1 ≤ length x) is (or_one_cell-length fresh left),
        c,
        same,
        subst
            (λ x.
              total w x + w c
              ≡ total w cells + (if length cells == 1 then w (new_cell j fresh code) else 0))
            is goal,
      )

  -- A cell that is deleted, and only it, is gone, by any count of the cells, and where it was the
  -- only one a new code cell is there, so that the list is never left empty.
  pub delete_cell-totals :
      (w : Cell j → ℕ) (fresh id : Text) (cells cells' : List (Cell j))
      → delete_cell j fresh id cells ≡ some cells'
      → (1 ≤ length cells')
        × (c : Cell j) × (text_eq c.id id ≡ true)
        × (total w cells' + w c
            ≡ total w cells + (if length cells == 1 then w (new_cell j fresh code) else 0))
  unfolding delete_cell
  delete_cell-totals w fresh id cells cells' h =
      delete_at-totals w fresh id cells cells' (cell_index j id cells) refl h
