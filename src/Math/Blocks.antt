-- ===== src/Math/Blocks.antt =====
-- core/native/src/mathgrammar/blocks.rs: the block pass, which splits a source into code, math fences
-- and text. The segments found so far are kept newest first.
pub mod Lines
pub mod Cover
use jupynvim.Prelude.{
  ℕ, zero, suc, ◌+◌, ◌-◌, Bool, true, false, ◌&&◌, ◌||◌, not, Option, none, some, List, [], ◌∷◌,
  ◌++◌, if◌then◌else◌, ltb, leb, ◌==◌, length, get_elem?, drop, map,
}
use jupynvim.Math.{Bytes, at, sub, is_blank, js_trim, quote_prefix_len}
use jupynvim.Math.Fences.{
  is_blank_line, is_indented, FenceOpen, fence_open, fence_close, is_list_item, is_math,
}

-- `SegKind`, whose math fence keeps its prefix's end, its TeX and its raw text.
pub data SegKind : Type 0 where
  text : SegKind
  code : SegKind
  math_fence : ℕ → Bytes → Bytes → SegKind

pub record Segment : Type 0 where
  pub start : ℕ
  pub end : ℕ
  pub kind : SegKind

unfoldable pub lines_from : ℕ → ℕ → Bytes → List (ℕ × ℕ)
lines_from start i [] = (start, i) ∷ []
lines_from start i (b ∷ s) =
    if b == b'\n' then (start, i) ∷ lines_from (suc i) (suc i) s else lines_from start (suc i) s

-- `line_table`.
unfoldable pub line_table : Bytes → List (ℕ × ℕ)
unfolding lines_from
line_table b = lines_from 0 0 b

-- Where line `i` starts and ends: `lines.get(i)` with the defaults of the code.
unfoldable pub start_of : List (ℕ × ℕ) → ℕ → ℕ
start_of [] i = 0
start_of ((s, e) ∷ lines) zero = s
start_of ((s, e) ∷ lines) (suc i) = start_of lines i

unfoldable pub end_of : ℕ → List (ℕ × ℕ) → ℕ → ℕ
end_of size [] i = size
end_of size ((s, e) ∷ lines) zero = e
end_of size ((s, e) ∷ lines) (suc i) = end_of size lines i

line_of : Bytes → Option (ℕ × ℕ) → Bytes
unfolding sub
line_of b none = []
line_of b (some (s, e)) = sub b s e

-- `line_at`.
unfoldable pub line_at : Bytes → List (ℕ × ℕ) → ℕ → Bytes
unfolding line_of
line_at b lines i = line_of b (get_elem? lines i)

-- The line that closes a fence, from line `j` on: its number and whether it was found; else the
-- number of lines. The rounds are the lines from `j` on.
unfoldable pub find_close : Bytes → List (ℕ × ℕ) → FenceOpen → ℕ → ℕ → ℕ × Bool
unfolding fence_close line_at
find_close b lines f zero j = (j, false)
find_close b lines f (suc left) j = elim (fence_close (line_at b lines j) f.ch f.run) [
  | true ↦ (j, true)
  | false ↦ find_close b lines f left (suc j)
]

-- The first line from `j` on that is neither indented nor blank.
unfoldable pub code_end : Bytes → List (ℕ × ℕ) → ℕ → ℕ → ℕ
unfolding is_indented is_blank_line line_at
code_end b lines zero j = j
code_end b lines (suc left) j =
    elim (is_indented (line_at b lines j) || is_blank_line (line_at b lines j)) [
      | true ↦ code_end b lines left (suc j)
      | false ↦ j
    ]

-- The blank lines at the end are left out, down to line `i + 1`: `n` lines after that one are kept
-- so far.
unfoldable pub drop_blank : Bytes → List (ℕ × ℕ) → ℕ → ℕ → ℕ
unfolding is_blank_line line_at
drop_blank b lines i zero = suc i
drop_blank b lines i (suc n) = elim (is_blank_line (line_at b lines (suc i + n))) [
  | true ↦ drop_blank b lines i n
  | false ↦ suc i + suc n
]

-- The TeX of a fence: lines without their quote prefix, joined.
unfoldable pub fence_body : Bytes → List (ℕ × ℕ) → ℕ → ℕ → Bytes
unfolding line_at sub quote_prefix_len
fence_body b lines i zero = []
fence_body b lines i (suc left) =
    let line = line_at b lines i in
    let l = sub line (quote_prefix_len line) (length line) in
    let more = fence_body b lines (suc i) left in if left == 0 then l else l ++ (b'\n' ∷ more)

-- The variables of the loop of `segments`.
pub record Blocks : Type 0 where
  pub i : ℕ
  pub in_list_recently : Bool
  pub prev_blank : Bool
  pub segs : List Segment

-- The branch of a fence, whose closing line, if any, is `j`.
unfoldable pub take_fence : Bytes → List (ℕ × ℕ) → FenceOpen → ℕ × Bool → Blocks → Blocks
unfolding start_of end_of js_trim is_math fence_body sub
take_fence b lines f (j, closed) st =
    let ls = start_of lines st.i in
    let le = end_of (length b) lines (if closed then j else j - 1) in
    let kind =
      if is_math (js_trim f.rest)
      then math_fence (ls + f.prefix) (js_trim (fence_body b lines (suc st.i) (j - suc st.i)))
          (sub b ls le)
      else code in
    record st {
      i = if closed then suc j else j;
      prev_blank = false;
      segs = record { start = ls; end = le; kind = kind } ∷ st.segs;
    }

-- The branch of indented code.
unfoldable pub take_code : Bytes → List (ℕ × ℕ) → Blocks → Blocks
unfolding start_of end_of code_end drop_blank
take_code b lines st =
    let j = code_end b lines (length lines - st.i) st.i in
    let k = drop_blank b lines st.i (j - suc st.i) in
    record st {
      i = k;
      prev_blank = false;
      segs =
          record { start = start_of lines st.i; end = end_of (length b) lines (k - 1); kind = code }
          ∷ st.segs;
    }

-- A line of text joins the text before it.
unfoldable pub add_after : ℕ → ℕ → Segment → List Segment → SegKind → List Segment
add_after ls le s older text = record { start = s.start; end = le; kind = text } ∷ older
add_after ls le s older code = record { start = ls; end = le; kind = text } ∷ s ∷ older
add_after ls le s older (math_fence p t r) =
    record { start = ls; end = le; kind = text } ∷ s ∷ older

unfoldable pub add_text : ℕ → ℕ → List Segment → List Segment
unfolding add_after
add_text ls le [] = record { start = ls; end = le; kind = text } ∷ []
add_text ls le (s ∷ older) = add_after ls le s older s.kind

-- The last branch.
unfoldable pub take_text : Bytes → List (ℕ × ℕ) → Blocks → Blocks
unfolding start_of end_of line_at is_blank_line is_list_item at is_blank add_text
take_text b lines st =
    let line = line_at b lines st.i in
    let blank = is_blank_line line in
    record {
      i = suc st.i;
      in_list_recently =
          if blank
          then st.in_list_recently
          else if is_list_item line
          then true
          else if not (is_blank (at line 0)) && st.prev_blank
          then false
          else st.in_list_recently;
      prev_blank = blank;
      segs = add_text (start_of lines st.i) (end_of (length b) lines st.i) st.segs;
    }

unfoldable pub take_line : Bytes → List (ℕ × ℕ) → Option FenceOpen → Blocks → Blocks
unfolding take_fence find_close take_code take_text is_indented is_blank_line line_at
take_line b lines (some f) st =
    take_fence b lines f (find_close b lines f (length lines - suc st.i) (suc st.i)) st
take_line b lines none st =
    let line = line_at b lines st.i in
    if is_indented line && not (is_blank_line line) && st.prev_blank && not st.in_list_recently
    then take_code b lines st
    else take_text b lines st

-- The loop of `segments`, in as many rounds as there are lines.
unfoldable pub blocks_loop : Bytes → List (ℕ × ℕ) → ℕ → Blocks → Blocks
unfolding take_line fence_open line_at
blocks_loop b lines zero st = st
blocks_loop b lines (suc f) st = elim (ltb st.i (length lines)) [
  | true ↦ blocks_loop b lines f (take_line b lines (fence_open (line_at b lines st.i)) st)
  | false ↦ st
]

-- Reversed in front of a list.
unfoldable pub rev_onto : List Segment → List Segment → List Segment
rev_onto [] out = out
rev_onto (s ∷ segs) out = rev_onto segs (s ∷ out)

-- `segments`.
unfoldable pub segments : Bytes → List Segment
unfolding line_table blocks_loop rev_onto
segments b =
    let lines = line_table b in
    let st =
      blocks_loop b lines (length lines)
        (record { i = 0; in_list_recently = false; prev_blank = true; segs = [] }) in
    rev_onto st.segs []
