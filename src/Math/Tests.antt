-- ===== src/Math/Tests.antt =====
-- Runs of the math pass of core/native/src/mathgrammar on small sources.
use jupynvim.Prelude.{
  ℕ, suc, ◌+◌, ◌≤◌, ◌<◌, ◌≡◌, refl, inl, inr, true, false, Option, none, some, List, [], ◌∷◌, ◌++◌,
  ◌||◌, if◌then◌else◌, ltb, ◌==◌, length, drop, length-drop, arith,
}
use jupynvim.Math.{Bytes, at}
use jupynvim.Math.Blocks.{segments}
use jupynvim.Math.Blocks.Cover.{Chain, segments-Chain}
use jupynvim.Math.Lookahead.{walk_direct, search_doubled, build_b1}
use jupynvim.Math.Index.Blanks.{any_inside, has_b1-any_inside}
use jupynvim.Math.Index.{EnvIndex, new_index, has_b1, closing, find_doubled_close, walk_paren}
use jupynvim.Math.Index.Right.{
  IndexRight, walk_answer, new_index-IndexRight, find_doubled_close-Right, walk_paren-Right,
}
use jupynvim.Math.Scan.{scan_loop}
use jupynvim.Math.Scan.Refines.{scan_loop-length}
use jupynvim.Math.Document.{normalize_newlines, extract_math, text_to_src, src_to_text, no_output}
use jupynvim.Math.Document.Refines.{no_output-Pieced}
use jupynvim.Math.Document.Shown.{Shown, extract_math-Shown}
use jupynvim.Math.Pieces.{Piece, source, Kept}
use jupynvim.Math.Document.Restore.{restore, restore-extract_math}
use jupynvim.Math.Document.Order.{EditsInOrder, extract_math-EditsInOrder}
use jupynvim.Math.Document.Offsets.{Outside, text_to_src-src_to_text}

abbrev sample : Bytes
sample =
    b'>' ∷ b' ' ∷ b'q' ∷ b'\n' ∷ b'\n' ∷ b'a' ∷ b' ' ∷ b'$' ∷ b'x' ∷ b'$' ∷ b' ' ∷ b'\\' ∷ b'('
    ∷ b'y' ∷ b'\\' ∷ b')' ∷ b' ' ∷ b'$' ∷ b'1' ∷ b' ' ∷ b'\\' ∷ b'b' ∷ b'e' ∷ b'g' ∷ b'i' ∷ b'n'
    ∷ b'{' ∷ b'a' ∷ b'}' ∷ b'z' ∷ b'\\' ∷ b'e' ∷ b'n' ∷ b'd' ∷ b'{' ∷ b'a' ∷ b'}' ∷ b'\n' ∷ b'`'
    ∷ b'`' ∷ b'`' ∷ b'm' ∷ b'a' ∷ b't' ∷ b'h' ∷ b'\n' ∷ b'w' ∷ b'\n' ∷ b'`' ∷ b'`' ∷ b'`' ∷ []

-- A text that starts with another, and where that one ends.
prefix_end : Bytes → ℕ → Bytes → Option ℕ
prefix_end [] i t = some i
prefix_end (p ∷ q) i [] = none
prefix_end (p ∷ q) i (b ∷ t) = elim (p == b) [ true ↦ prefix_end q (suc i) t | false ↦ none ]

first_end : Option ℕ → Option ℕ → Option ℕ
first_end none later = later
first_end (some e) later = some e

-- Where the first place ends that a text starts at.
find_end : Bytes → ℕ → Bytes → Option ℕ
unfolding prefix_end first_end
find_end p i [] = none
find_end p i (b ∷ t) = first_end (prefix_end p i (b ∷ t)) (find_end p (suc i) t)

prefix_end-bounds :
    (p : Bytes) (i : ℕ) (t : Bytes) (e : ℕ)
    → prefix_end p i t ≡ some e
    → (i ≤ e) × (e ≤ i + length t)
unfolding prefix_end
prefix_end-bounds [] i t e h = ground arith
prefix_end-bounds (p ∷ q) i [] e h = ground arith
prefix_end-bounds (p ∷ q) i (b ∷ t) e h = ground (arith, prefix_end-bounds q (suc i) t e)

first_end-cases :
    (a b : Option ℕ) (e : ℕ) (P : Type 0)
    → (a ≡ some e → P)
    → (b ≡ some e → P)
    → first_end a b ≡ some e
    → P
unfolding first_end
first_end-cases none b e P f g h = g h
first_end-cases (some x) b e P f g h = f h

find_end-bounds :
    (p : Bytes) (i : ℕ) (t : Bytes) (e : ℕ) → find_end p i t ≡ some e → (i ≤ e) × (e ≤ i + length t)
unfolding find_end
find_end-bounds p i [] e h = ground arith
find_end-bounds p i (b ∷ t) e h =
    first_end-cases (prefix_end p i (b ∷ t)) (find_end p (suc i) t) e _
      (prefix_end-bounds p i (b ∷ t) e)
      (λ later.
        let (low, high) = find_end-bounds p (suc i) t e later in
        (omega (arith, low), omega (arith, high)))
      h

abbrev end_mark : Bytes → Bytes
end_mark name = (b'\\' ∷ b'e' ∷ b'n' ∷ b'd' ∷ b'{' ∷ []) ++ name ++ b'}' ∷ []

environment_end : Bytes → ℕ → Bytes → Option ℕ
unfolding find_end
environment_end s k name =
    if ltb k (length s) then find_end (end_mark name) (k + 1) (drop (k + 1) s) else none

environment_end-bounds :
    (s : Bytes) (k : ℕ) (name : Bytes) (e : ℕ)
    → environment_end s k name ≡ some e
    → (k < e) × (e ≤ length s)
unfolding environment_end
environment_end-bounds s k name e h =
    ground
      (arith, find_end-bounds (end_mark name) (k + 1) (drop (k + 1) s) e, length-drop (k + 1) s)

-- An index without nesting: an environment ends at the first `\end` with its name.
first_ends : EnvIndex
unfolding environment_end
first_ends = record {
  Envs = Unit;
  fresh = tt;
  env_end = λ m s k name. (m, environment_end s k name);
  env_end_inside = λ m s k name e found. environment_end-bounds s k name e found;
}

abbrev sample_text : Bytes
sample_text =
    b'>' ∷ b' ' ∷ b'q' ∷ b'\n' ∷ b'\n' ∷ b'a' ∷ b' ' ∷ b'Z' ∷ b'Z' ∷ b'M' ∷ b'T' ∷ b'H' ∷ b'0'
    ∷ b'0' ∷ b'0' ∷ b'1' ∷ b'Z' ∷ b'Z' ∷ b' ' ∷ b'Z' ∷ b'Z' ∷ b'M' ∷ b'T' ∷ b'H' ∷ b'0' ∷ b'0'
    ∷ b'0' ∷ b'2' ∷ b'Z' ∷ b'Z' ∷ b' ' ∷ b'\\' ∷ b'$' ∷ b'1' ∷ b' ' ∷ b'Z' ∷ b'Z' ∷ b'D' ∷ b'M'
    ∷ b'T' ∷ b'H' ∷ b'0' ∷ b'0' ∷ b'0' ∷ b'3' ∷ b'Z' ∷ b'Z' ∷ b'\n' ∷ b'Z' ∷ b'Z' ∷ b'D' ∷ b'M'
    ∷ b'T' ∷ b'H' ∷ b'0' ∷ b'0' ∷ b'0' ∷ b'4' ∷ b'Z' ∷ b'Z' ∷ []

extracted : (extract_math first_ends sample).buf ≡ sample_text
unfolding extract_math first_ends
extracted = refl

-- Four maths and a `$`.
edits_found : length (extract_math first_ends sample).edits ≡ 5
unfolding extract_math first_ends
edits_found = refl

segments-Chain_example : Chain sample 0 (segments sample)
segments-Chain_example = segments-Chain sample

abbrev doubled_text : Bytes
doubled_text = b'(' ∷ b'\\' ∷ b'\\' ∷ b')' ∷ []

find_doubled_close-Right_example :
    IndexRight doubled_text
      (find_doubled_close doubled_text (new_index first_ends) 1 (closing true)).0
    × ((find_doubled_close doubled_text (new_index first_ends) 1 (closing true)).1
        ≡ search_doubled doubled_text 1 (closing true))
find_doubled_close-Right_example =
    find_doubled_close-Right doubled_text (new_index first_ends) 1 true
      (new_index-IndexRight first_ends doubled_text)

abbrev paren_text : Bytes
paren_text = b'\\' ∷ b'(' ∷ b'x' ∷ b'\\' ∷ b')' ∷ []

opens_there : (at paren_text 1 == b'(' || at paren_text 1 == b'[') ≡ true
unfolding at
opens_there = refl

walk_paren-Right_example :
    IndexRight paren_text (walk_paren paren_text (new_index first_ends) 0 (closing true)).0
    × ((walk_paren paren_text (new_index first_ends) 0 (closing true)).1
        ≡ walk_answer (walk_direct paren_text 2 (closing true)))
walk_paren-Right_example =
    walk_paren-Right paren_text (new_index first_ends) 0 true opens_there
      (new_index-IndexRight first_ends paren_text)

-- `a`, a newline, `> `, a newline, `b`.
abbrev blank_text : Bytes
blank_text = b'a' ∷ b'\n' ∷ b'>' ∷ b' ' ∷ b'\n' ∷ b'b' ∷ []

blank_line_found : build_b1 blank_text ≡ (1, 4) ∷ []
unfolding build_b1
blank_line_found = refl

has_b1-any_inside_example :
    (has_b1 blank_text (new_index first_ends) 1 5).1 ≡ any_inside 1 5 (build_b1 blank_text)
has_b1-any_inside_example = has_b1-any_inside blank_text (new_index first_ends) 1 5

scan_loop-length_example :
    (scan_loop first_ends sample 0
      (length sample)
      (record { out = no_output; run = 0; ix = new_index first_ends }, 0)).1
    ≡ length sample
scan_loop-length_example = scan_loop-length first_ends sample [] no_output no_output-Pieced

extract_math-Shown_example :
    (ps : List Piece) × (source ps ≡ normalize_newlines sample)
    × Kept ps
    × Shown 0 0 0 ps
        (extract_math first_ends sample).buf
        (extract_math first_ends sample).maths
        (extract_math first_ends sample).edits
extract_math-Shown_example = extract_math-Shown first_ends sample

restore-extract_math_example :
    restore
      (extract_math first_ends sample).buf
      (extract_math first_ends sample).maths
      0
      (extract_math first_ends sample).edits
    ≡ normalize_newlines sample
restore-extract_math_example = restore-extract_math first_ends sample

extract_math-EditsInOrder_example :
    EditsInOrder
      (length (normalize_newlines sample))
      (length (extract_math first_ends sample).buf)
      0
      0
      (extract_math first_ends sample).edits
extract_math-EditsInOrder_example = extract_math-EditsInOrder first_ends sample

-- Byte 10 of the sample is the blank after its first math.
blank_free : Outside 10 (extract_math first_ends sample).edits
unfolding Outside extract_math first_ends
blank_free = (
  inr (omega arith),
  (inl (omega arith), (inl (omega arith), (inl (omega arith), (inl (omega arith), tt)))),
)

text_to_src-src_to_text_example :
    text_to_src
      (extract_math first_ends sample).edits
      (src_to_text (extract_math first_ends sample).edits 10)
    ≡ 10
text_to_src-src_to_text_example = text_to_src-src_to_text first_ends sample 10 blank_free
