-- ===== src/Guard/Told.antt =====
-- Sets of ids in order, and what a guard makes of the lines that tell it of them.
use jupynvim.Prelude.{
  ℕ, ◌≤◌, ◌<◌, ◌≡◌, refl, sym, ap, ◌∙◌, subst, Bool, true, false, Option, none, some, List, [], ◌∷◌,
  ◌++◌, append_assoc, append-nil, arith, if◌then◌else◌,
}
use jupynvim.Guard.{i32_max, insert, remove, contains, Reader, new_reader, read_byte, read_all}
use jupynvim.Guard.Line.{format_line, read_all-format_line}
use jupynvim.Guard.Backend.{lines}

-- Ids in order, each above `lo` and an `i32`.
abbrev pub Ascends : ℕ → List ℕ → Type 0
Ascends lo [] = Unit
Ascends lo (g ∷ rest) = (lo < g) × (g ≤ i32_max) × Ascends g rest

pub insert-Ascends :
    (lo g : ℕ) (gs : List ℕ) → lo < g → g ≤ i32_max → Ascends lo gs → Ascends lo (insert g gs)
unfolding insert
insert-Ascends lo g [] h fits a = (h, fits, tt)
insert-Ascends lo g (k ∷ gs) h fits a = ground (arith, insert-Ascends k g gs)

Ascends-weaken : (lo lo' : ℕ) (gs : List ℕ) → lo' ≤ lo → Ascends lo gs → Ascends lo' gs
Ascends-weaken lo lo' [] h a = tt
Ascends-weaken lo lo' (g ∷ gs) h a = (omega arith, a.1, a.2)

pub remove-Ascends : (lo g : ℕ) (gs : List ℕ) → Ascends lo gs → Ascends lo (remove g gs)
unfolding remove
remove-Ascends lo g [] a = tt
remove-Ascends lo g (k ∷ gs) a = ground (arith, remove-Ascends k g gs, Ascends-weaken k lo gs)

-- An id behind others is above the bound.
above : (lo g : ℕ) (gs rest : List ℕ) → Ascends lo (gs ++ g ∷ rest) → (lo < g) × (g ≤ i32_max)
above lo g [] rest a = (a.0, a.1)
above lo g (k ∷ gs) rest a = let (lt, fits) = above k g gs rest a.2 in (omega (arith, a.0), fits)

-- An id above all others goes to the end.
insert-last :
    (lo g : ℕ) (gs rest : List ℕ) → Ascends lo (gs ++ g ∷ rest) → insert g gs ≡ gs ++ g ∷ []
unfolding insert
insert-last lo g [] rest a = refl
insert-last lo g (k ∷ gs) rest a =
    ground (arith, insert-last k g gs rest a.2, above k g gs rest a.2)

abbrev pub at_boundary : List ℕ → Reader
at_boundary gs = record { groups = gs; line = [] }

-- A new guard is given every group.
pub read_all-lines :
    (gs more : List ℕ)
    → Ascends 1 (gs ++ more)
    → read_all (at_boundary gs) (lines true more) ≡ at_boundary (gs ++ more)
unfolding lines read_all
read_all-lines gs [] a = ap at_boundary (sym (append-nil gs))
read_all-lines gs (g ∷ more) a =
    let (big, fits) = above 1 g gs more a in
    let regroup = append_assoc gs (g ∷ []) more in
    read_all-format_line true g gs (lines true more) big fits
    ∙ ap (λ hs. read_all (at_boundary hs) (lines true more)) (insert-last 1 g gs more a)
    ∙ read_all-lines (gs ++ g ∷ []) more (subst (Ascends 1) (sym regroup) a)
    ∙ ap at_boundary regroup

pub read_all-append :
    (r : Reader) (xs ys : List ℕ) → read_all r (xs ++ ys) ≡ read_all (read_all r xs) ys
unfolding read_all
read_all-append r [] ys = refl
read_all-append r (x ∷ xs) ys = read_all-append (read_byte r x) xs ys

-- The guard that reads this pipe, if there is one, holds these groups and no part of a line.
abbrev pub Reads : Option (List ℕ) → List ℕ → Type 0
Reads none gs = Unit
Reads (some w) gs = read_all new_reader w ≡ at_boundary gs

-- One whole line, at a boundary.
pub read_all-one :
    (add : Bool) (g : ℕ) (gs : List ℕ)
    → 1 < g
    → g ≤ i32_max
    → read_all (at_boundary gs) (format_line add g)
      ≡ at_boundary (if add then insert g gs else remove g gs)
unfolding read_all
read_all-one add g gs big fits =
    ap (read_all (at_boundary gs)) (sym (append-nil (format_line add g)))
    ∙ read_all-format_line add g gs [] big fits

pub contains-bounds :
    (lo g : ℕ) (gs : List ℕ) → Ascends lo gs → contains g gs ≡ true → (lo < g) × (g ≤ i32_max)
unfolding contains
contains-bounds lo g [] a h = absurd (ground arith)
contains-bounds lo g (k ∷ gs) a h = ground (arith, contains-bounds k g gs a.2)

-- Every group taken off again, from the first on.
pub read_all-farewell :
    (lo : ℕ) (gs : List ℕ)
    → 1 ≤ lo
    → Ascends lo gs
    → read_all (at_boundary gs) (lines false gs) ≡ at_boundary []
unfolding lines read_all remove
read_all-farewell lo [] h a = refl
read_all-farewell lo (g ∷ gs) h a =
    read_all-format_line false g (g ∷ gs) (lines false gs) (omega (arith, a.0)) a.1
    ∙ ap (λ hs. read_all (at_boundary hs) (lines false gs)) (ground arith)
    ∙ read_all-farewell g gs (omega (arith, a.0)) a.2
