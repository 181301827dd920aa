-- ===== src/Math/Blocks/Cover.antt =====
-- The segments of core/native/src/mathgrammar/blocks.rs lie side by side and cover the source.
use jupynvim.Prelude.{
  ℕ, zero, suc, ◌+◌, ◌-◌, ◌≤◌, ◌<◌, ◌≡◌, refl, sym, ap, subst, ◌∙◌, inl, inr, Bool, true, false,
  Option, none, some, List, [], ◌∷◌, if◌then◌else◌, ltb, length, arith, if_elim, Bool-cases,
  Option-cases, ltb→lt,
}
use jupynvim.Math.{Bytes, sub}
use jupynvim.Math.Bytes.{sub-length, quote_prefix_len-bound}
use jupynvim.Math.Fences.{FenceOpen, fence_open}
use jupynvim.Math.Blocks.{
  SegKind, text, code, math_fence, Segment, Blocks, line_table, start_of, end_of, line_at,
  find_close, code_end, drop_blank, take_fence, take_code, take_text, take_line, add_after,
  add_text, blocks_loop, rev_onto, segments,
}
use jupynvim.Math.Blocks.Lines.{
  LineEnd, Table, next_line, line_table-Table, next_line-length, Table-start, Table-order,
  end_of-LineEnd,
}

-- What a fence's segment keeps: a prefix that ends inside it, and its text.
unfoldable pub KeepsText : Bytes → ℕ → ℕ → SegKind → Type 0
KeepsText b start end text = Unit
KeepsText b start end code = Unit
KeepsText b start end (math_fence prefix_end tex raw) =
    (start ≤ prefix_end) × (prefix_end ≤ end) × (raw ≡ sub b start end)

-- From a place on, segments that follow one another with one newline between, up to the end.
unfoldable pub Chain : Bytes → ℕ → List Segment → Type 0
Chain b from [] = from ≡ suc (length b)
Chain b from (s ∷ segs) =
    (s.start ≡ from)
    × (s.start ≤ s.end)
    × LineEnd b s.end
    × KeepsText b s.start s.end s.kind
    × Chain b (suc s.end) segs

-- The same of the segments found so far, newest first, that end before a place.
Upto : Bytes → List Segment → ℕ → Type 0
Upto b [] next = next ≡ 0
Upto b (s ∷ older) next =
    (next ≡ suc s.end)
    × (s.start ≤ s.end)
    × LineEnd b s.end
    × KeepsText b s.start s.end s.kind
    × Upto b older s.start

fence_open-bound :
    (line : Bytes) (f : FenceOpen) → fence_open line ≡ some f → f.prefix ≤ length line
unfolding fence_open
fence_open-bound line f h = ground (arith, quote_prefix_len-bound line)

find_close-bounds :
    (b : Bytes) (lines : List (ℕ × ℕ)) (f : FenceOpen) (left j : ℕ)
    → (j ≤ (find_close b lines f left j).0)
      × ((find_close b lines f left j).0 ≤ j + left)
      × ((find_close b lines f left j).1 ≡ true → (find_close b lines f left j).0 < j + left)
unfolding find_close
find_close-bounds b lines f zero j = (omega arith, omega arith, λ h. ground arith)
find_close-bounds b lines f (suc left) j =
    let (low, high, found) = find_close-bounds b lines f left (suc j) in
    (ground arith, ground arith, λ h. ground (arith, found))

code_end-bound :
    (b : Bytes) (lines : List (ℕ × ℕ)) (left j : ℕ) → code_end b lines left j ≤ j + left
unfolding code_end
code_end-bound b lines zero j = omega arith
code_end-bound b lines (suc left) j = ground (arith, code_end-bound b lines left (suc j))

drop_blank-bounds :
    (b : Bytes) (lines : List (ℕ × ℕ)) (i n : ℕ)
    → (i < drop_blank b lines i n) × (drop_blank b lines i n ≤ suc i + n)
unfolding drop_blank
drop_blank-bounds b lines i zero = (omega arith, omega arith)
drop_blank-bounds b lines i (suc n) = ground (arith, drop_blank-bounds b lines i n)

line_at-length :
    (b : Bytes) (lines : List (ℕ × ℕ)) (i : ℕ)
    → length (line_at b lines i) ≤ end_of (length b) lines i - start_of lines i
unfolding line_at start_of end_of
line_at-length b [] i = omega arith
line_at-length b ((s, e) ∷ lines) zero = sub-length b s e
line_at-length b ((s, e) ∷ lines) (suc i) = line_at-length b lines i

next_line-order :
    (b : Bytes) (lines : List (ℕ × ℕ)) (i m : ℕ)
    → Table b 0 lines
    → i ≤ m
    → m < length lines
    → next_line (length b) 0 lines i ≤ end_of (length b) lines m
unfolding next_line
next_line-order b lines i zero t le lt = ground (arith, Table-order b 0 lines i t)
next_line-order b lines i (suc m) t le lt =
    ground (arith, Table-order b 0 lines (suc m) t, next_line-order b lines i m t)

-- One more segment, from line `i` up to line `n`.
push-Upto :
    (b : Bytes) (lines : List (ℕ × ℕ)) (segs : List Segment) (i n e : ℕ) (kind : SegKind)
    → Table b 0 lines
    → i < n
    → n ≤ length lines
    → e ≡ end_of (length b) lines (n - 1)
    → KeepsText b (start_of lines i) e kind
    → Upto b segs (next_line (length b) 0 lines i)
    → Upto b
        (record { start = start_of lines i; end = e; kind = kind } ∷ segs)
        (next_line (length b) 0 lines n)
unfolding Upto next_line
push-Upto b lines segs i zero e kind t lt le same fits up = ground arith
push-Upto b lines segs i (suc m) e kind t lt le same fits up =
    let begins = Table-start b 0 lines i t (omega (arith, lt, le)) in
    let here : e ≡ end_of (length b) lines m = same ∙ ap (end_of (length b) lines) (omega arith) in
    (
      ap suc (sym here),
      ground (arith, begins, next_line-order b lines i m t),
      subst (LineEnd b) (sym here) (end_of-LineEnd b 0 lines m t),
      fits,
      subst (Upto b segs) (sym begins) up,
    )

add_after-Upto :
    (b : Bytes) (ls le : ℕ) (s : Segment) (older : List Segment) (kind : SegKind)
    → ls ≤ le
    → LineEnd b le
    → Upto b (s ∷ older) ls
    → Upto b (add_after ls le s older kind) (suc le)
unfolding Upto add_after KeepsText
add_after-Upto b ls le s older text h e (n, o, _, _, up) = (refl, omega (arith, n, o, h), e, tt, up)
add_after-Upto b ls le s older code h e up = (refl, h, e, tt, up)
add_after-Upto b ls le s older (math_fence p t r) h e up = (refl, h, e, tt, up)

add_text-Upto :
    (b : Bytes) (ls le : ℕ) (segs : List Segment)
    → ls ≤ le
    → LineEnd b le
    → Upto b segs ls
    → Upto b (add_text ls le segs) (suc le)
unfolding Upto add_text KeepsText
add_text-Upto b ls le [] h e up = (refl, h, e, tt, up)
add_text-Upto b ls le (s ∷ older) h e up = add_after-Upto b ls le s older s.kind h e up

KeepsText-if :
    (b : Bytes) (c : Bool) (start end p : ℕ) (tex : Bytes)
    → p ≤ end
    → start ≤ p
    → KeepsText b start end (if c then math_fence p tex (sub b start end) else code)
unfolding KeepsText
KeepsText-if b true start end p tex h k = (k, h, refl)
KeepsText-if b false start end p tex h k = tt

-- What the loop keeps: the segments reach up to line `i`.
Found : Bytes → List (ℕ × ℕ) → Blocks → Type 0
Found b lines st = (st.i ≤ length lines) × Upto b st.segs (next_line (length b) 0 lines st.i)

end_of-order :
    (b : Bytes) (lines : List (ℕ × ℕ)) (i m : ℕ)
    → Table b 0 lines
    → i ≤ m
    → m < length lines
    → end_of (length b) lines i ≤ end_of (length b) lines m
unfolding next_line
end_of-order b lines i m t le lt = elim (Bool-cases (ltb i m)) [
  | inl h ↦ ground (arith, next_line-order b lines (suc i) m t)
  | inr h ↦
      let same : i ≡ m = ground (arith, le) in ground (arith, ap (end_of (length b) lines) same)
]

prefix_bound :
    (b : Bytes) (lines : List (ℕ × ℕ)) (p i m : ℕ)
    → Table b 0 lines
    → i ≤ m
    → m < length lines
    → p ≤ length (line_at b lines i)
    → start_of lines i + p ≤ end_of (length b) lines m
prefix_bound b lines p i m t le lt h =
    let inside : i < length lines = omega (arith, le, lt) in
    omega (
      arith,
      h,
      line_at-length b lines i,
      Table-start b 0 lines i t inside,
      end_of-order b lines i m t le lt,
      Table-order b 0 lines i t inside,
    )

take_fence-Found :
    (b : Bytes) (lines : List (ℕ × ℕ)) (f : FenceOpen) (r : ℕ × Bool) (st : Blocks)
    → Table b 0 lines
    → f.prefix ≤ length (line_at b lines st.i)
    → st.i < r.0
    → r.0 + (if r.1 then 1 else 0) ≤ length lines
    → Found b lines st
    → Found b lines (take_fence b lines f r st) × (st.i < (take_fence b lines f r st).i)
unfolding take_fence Found
take_fence-Found b lines f (j, true) st t pre lt le (_, up) = (
  (
    omega (arith, le),
    push-Upto b lines st.segs st.i (suc j) _ _ t (omega (arith, lt)) (omega (arith, le))
        (ap (end_of (length b) lines) (omega arith))
        (KeepsText-if b _ _ _ _ _
          (prefix_bound b lines f.prefix st.i j t (omega (arith, lt)) (omega (arith, le)) pre)
          (omega arith))
        up,
  ),
  omega (arith, lt),
)
take_fence-Found b lines f (j, false) st t pre lt le (_, up) = (
  (
    omega (arith, le),
    push-Upto b lines st.segs st.i j _ _ t lt (omega (arith, le)) refl
        (KeepsText-if b _ _ _ _ _
          (prefix_bound b lines f.prefix st.i (j - 1) t (omega (arith, lt)) (omega (arith, lt, le))
            pre)
          (omega arith))
        up,
  ),
  omega (arith, lt),
)

take_code-Found :
    (b : Bytes) (lines : List (ℕ × ℕ)) (st : Blocks)
    → Table b 0 lines
    → st.i < length lines
    → Found b lines st
    → Found b lines (take_code b lines st) × (st.i < (take_code b lines st).i)
unfolding take_code Found KeepsText
take_code-Found b lines st t lt (le, up) =
    let j = code_end b lines (length lines - st.i) st.i in
    let stop : j ≤ st.i + (length lines - st.i) =
      code_end-bound b lines (length lines - st.i) st.i in
    let (low, high) = drop_blank-bounds b lines st.i (j - suc st.i) in
    let inside : drop_blank b lines st.i (j - suc st.i) ≤ length lines =
      ground (arith, lt, stop, high) in
    ((inside, push-Upto b lines st.segs st.i _ _ code t low inside refl tt up), low)

take_text-Found :
    (b : Bytes) (lines : List (ℕ × ℕ)) (st : Blocks)
    → Table b 0 lines
    → st.i < length lines
    → Found b lines st
    → Found b lines (take_text b lines st)
unfolding take_text Found next_line
take_text-Found b lines st t lt (le, up) =
    let begins = Table-start b 0 lines st.i t lt in
    (
      omega (arith, lt),
      add_text-Upto b (start_of lines st.i) (end_of (length b) lines st.i) st.segs
          (omega (arith, begins, Table-order b 0 lines st.i t lt)) (end_of-LineEnd b 0 lines st.i t)
          (subst (Upto b st.segs) (sym begins) up),
    )

-- The opening line that a round sees is the round's line.
Opens : Bytes → Option FenceOpen → Type 0
Opens line none = Unit
Opens line (some f) = f.prefix ≤ length line

fence_open-Opens : (line : Bytes) → Opens line (fence_open line)
unfolding fence_open Opens
fence_open-Opens line = elim (Option-cases (fence_open line)) [
  | inl e ↦ subst (Opens line) (sym e) tt
  | inr (f, e) ↦ subst (Opens line) (sym e) (fence_open-bound line f e)
]

take_line-Found :
    (b : Bytes) (lines : List (ℕ × ℕ)) (o : Option FenceOpen) (st : Blocks)
    → Table b 0 lines
    → st.i < length lines
    → Opens (line_at b lines st.i) o
    → Found b lines st
    → Found b lines (take_line b lines o st) × (st.i < (take_line b lines o st).i)
unfolding take_line take_text Opens
take_line-Found b lines (some f) st t lt pre found =
    let (low, high, closed) = find_close-bounds b lines f (length lines - suc st.i) (suc st.i) in
    take_fence-Found b lines f (find_close b lines f (length lines - suc st.i) (suc st.i)) st t pre
      (omega (arith, low)) (ground (arith, high, lt, closed)) found
take_line-Found b lines none st t lt pre found =
    if_elim (λ next. Found b lines next × (st.i < next.i)) _ (take_code b lines st)
      (take_text b lines st) (λ _. take_code-Found b lines st t lt found)
      (λ _. (take_text-Found b lines st t lt found, omega arith))

blocks_loop-Found :
    (b : Bytes) (lines : List (ℕ × ℕ)) (rounds : ℕ) (st : Blocks)
    → Table b 0 lines
    → length lines ≤ st.i + rounds
    → Found b lines st
    → Found b lines (blocks_loop b lines rounds st)
      × ((blocks_loop b lines rounds st).i ≡ length lines)
unfolding blocks_loop Found
blocks_loop-Found b lines zero st t h found = (found, omega (arith, h, found.0))
blocks_loop-Found b lines (suc f) st t h found =
    let line = line_at b lines st.i in
    elim (Bool-cases (ltb st.i (length lines))) [
      | inl lt ↦
          let (next, further) =
            take_line-Found b lines (fence_open line) st t (ltb→lt _ _ lt) (fence_open-Opens line)
              found in
          rw (blocks_loop, lt)
            (blocks_loop-Found b lines f (take_line b lines (fence_open line) st) t
              (omega (arith, h, further)) next)
      | inr ge ↦ rw (blocks_loop, ge) (found, ground (arith, found.0))
    ]

rev_onto-Chain :
    (b : Bytes) (segs out : List Segment) (next : ℕ)
    → Upto b segs next
    → Chain b next out
    → Chain b 0 (rev_onto segs out)
unfolding rev_onto Upto Chain
rev_onto-Chain b [] out next up chain = subst (λ k. Chain b k out) up chain
rev_onto-Chain b (s ∷ older) out next (n, o, e, f, up) chain =
    rev_onto-Chain b older (s ∷ out) s.start up (refl, o, e, f, subst (λ k. Chain b k out) n chain)

-- The segments of a source cover it: the first one starts at its start, each other one a byte after
-- the end of the one before, with a newline in between, the last one ends at its end, and a math
-- fence's prefix lies inside its segment, whose text it keeps.
pub segments-Chain : (b : Bytes) → Chain b 0 (segments b)
unfolding segments Found Upto next_line Chain
segments-Chain b =
    let lines = line_table b in
    let t = line_table-Table b in
    let first : Blocks = record { i = 0; in_list_recently = false; prev_blank = true; segs = [] } in
    let ((_, up), done) =
      blocks_loop-Found b lines (length lines) first t (omega arith) (omega arith, refl) in
    rev_onto-Chain b _ [] _ up
      (ap (next_line (length b) 0 lines) done ∙ next_line-length b 0 lines t)
