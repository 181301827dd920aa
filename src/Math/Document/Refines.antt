-- ===== src/Math/Document/Refines.antt =====
-- core/native/src/mathgrammar/mod.rs: the output for a source is made of pieces that the source is
-- cut into.
use jupynvim.Prelude.{
  ℕ, suc, ◌+◌, ◌≤◌, ◌≡◌, refl, sym, ap, subst, ◌∙◌, inl, inr, List, [], ◌∷◌, ◌++◌, length,
  length-take, take, arith,
}
use jupynvim.Math.{Bytes, at, sub}
use jupynvim.Math.Bytes.{at-inside, sub-split, take-sub, sub-length_inside, sub-one, take-length}
use jupynvim.Math.Blocks.{SegKind, text, code, math_fence, Segment, segments}
use jupynvim.Math.Blocks.Lines.{LineEnd}
use jupynvim.Math.Blocks.Cover.{Chain, KeepsText, segments-Chain}
use jupynvim.Math.Output.{Out}
use jupynvim.Math.Pieces.{
  copied, emit, piece_source, Kept, Pieced, emit_all, source, Pieced-emit, push_found-Pieced,
}
use jupynvim.Math.Index.{EnvIndex}
use jupynvim.Math.Scan.Refines.{scan_text-Pieced}
use jupynvim.Math.Document.{
  normalize_newlines, append_bytes, push_fence, take_segment, take_segments, no_output,
  extract_math,
}

append_bytes-Pieced : (o : Out) (xs c : Bytes) → Pieced o xs → Pieced (append_bytes o c) (xs ++ c)
unfolding append_bytes emit piece_source Kept
append_bytes-Pieced o xs c pieced = Pieced-emit o xs (copied c) tt pieced

-- From what stands before `a` to what stands before `e`.
extend :
    (b : Bytes) (o : Out) (a e : ℕ)
    → a ≤ e
    → e ≤ length b
    → Pieced o (take a b ++ sub b a e)
    → Pieced o (take e b)
extend b o a e le inside pieced = subst (Pieced o) (take-sub b a e le inside) pieced

take_segment-Pieced :
    (E : EnvIndex) (b : Bytes) (start end : ℕ) (kind : SegKind) (o : Out)
    → start ≤ end
    → end ≤ length b
    → KeepsText b start end kind
    → Pieced o (take start b)
    → Pieced (take_segment E b start end kind o) (take end b)
unfolding take_segment push_fence KeepsText
take_segment-Pieced E b start end text o le inside fits pieced = extend b _ start end le inside (
    scan_text-Pieced E (sub b start end) (take start b) start o
      (omega (arith, length-take start b, le, inside)) pieced)
take_segment-Pieced E b start end code o le inside fits pieced =
    extend b _ start end le inside (append_bytes-Pieced o (take start b) (sub b start end) pieced)
take_segment-Pieced E b start end (math_fence p tex raw) o le inside (low, high, same) pieced =
    let before =
      extend b (append_bytes o (sub b start p)) start p low (omega (arith, high, inside))
        (append_bytes-Pieced o (take start b) (sub b start p) pieced) in
    let place : p ≡ length (take p b) = omega (arith, length-take p b, high, inside) in
    extend b _ p end high inside (
      push_found-Pieced (append_bytes o (sub b start p)) (take p b) (sub b p end) _ p end place
        (omega (arith, place, sub-length_inside b p end high inside, high))
        (sub b start p, same ∙ sym (sub-split b start p end low high inside)) before)

LineEnd-inside : (b : Bytes) (e : ℕ) → LineEnd b e → e ≤ length b
unfolding LineEnd
LineEnd-inside b e (inl end) = omega (arith, end)
LineEnd-inside b e (inr newline) = ground (arith, at-inside b e)

newline_before : (b : Bytes) (e : ℕ) → LineEnd b e → suc e ≤ length b → at b e ≡ b'\n'
unfolding LineEnd
newline_before b e (inl end) h = ground arith
newline_before b e (inr newline) h = newline

pub no_output-Pieced : Pieced no_output []
unfolding append_bytes no_output Pieced emit_all source Kept
no_output-Pieced = ([], refl, refl, tt)

-- After a segment that ends at `e`, the others and the newlines before them.
take_segments-Pieced :
    (E : EnvIndex) (b : Bytes) (segs : List Segment) (e : ℕ) (o : Out)
    → LineEnd b e
    → Chain b (suc e) segs
    → Pieced o (take e b)
    → Pieced (take_segments E b (b'\n' ∷ []) segs o) b
unfolding take_segments Chain
take_segments-Pieced E b [] e o line chain pieced =
    let whole : e ≡ length b = omega (arith, chain) in
    subst (Pieced o) (ap (λ n. take n b) whole ∙ take-length b) pieced
take_segments-Pieced E b (s ∷ segs) e o line (begins, le, ends, fits, chain) pieced =
    let inside = LineEnd-inside b s.end ends in
    let newline = newline_before b e line (omega (arith, begins, le, inside)) in
    let one : take e b ++ b'\n' ∷ [] ≡ take s.start b =
      ap (λ x. take e b ++ x ∷ []) (sym newline)
      ∙ ap (λ xs. take e b ++ xs) (sym (sub-one b e (omega (arith, begins, le, inside))))
      ∙ take-sub b e (e + 1) (omega arith) (omega (arith, begins, le, inside))
      ∙ ap (λ n. take n b) (omega (arith, begins)) in
    take_segments-Pieced E b segs s.end _ ends chain (
      take_segment-Pieced E b s.start s.end s.kind (append_bytes o (b'\n' ∷ [])) le inside fits (
        subst (Pieced (append_bytes o (b'\n' ∷ []))) one
          (append_bytes-Pieced o (take e b) (b'\n' ∷ []) pieced)))

first_segment-Pieced :
    (E : EnvIndex) (b : Bytes) (segs : List Segment)
    → Chain b 0 segs
    → Pieced (take_segments E b [] segs no_output) b
unfolding take_segments Chain
first_segment-Pieced E b [] chain = ground arith
first_segment-Pieced E b (s ∷ segs) (begins, le, ends, fits, chain) =
    take_segments-Pieced E b segs s.end _ ends chain (
      take_segment-Pieced E b s.start s.end s.kind (append_bytes no_output []) le
        (LineEnd-inside b s.end ends) fits
        (subst (λ n. Pieced (append_bytes no_output []) (take n b)) (sym begins)
          (append_bytes-Pieced no_output [] [] no_output-Pieced)))

-- The text, the maths and the edits of a source are those of pieces that its text, with its line
-- breaks normalized, is cut into: each is copied, or a `$` that is escaped, or ends the raw text of a
-- math, whose placeholder, numbered in order, stands for it.
pub extract_math-Pieced :
    (E : EnvIndex) (src : Bytes) → Pieced (extract_math E src) (normalize_newlines src)
unfolding extract_math
extract_math-Pieced E src =
    first_segment-Pieced E (normalize_newlines src) (segments (normalize_newlines src))
      (segments-Chain (normalize_newlines src))
