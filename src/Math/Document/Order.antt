-- ===== src/Math/Document/Order.antt =====
-- core/native/src/mathgrammar/mod.rs: the edits lie in order.
use jupynvim.Prelude.{
  ℕ, ◌+◌, ◌-◌, ◌≤◌, ◌<◌, ◌≡◌, refl, sym, ap, subst, ◌∙◌, Bool, true, false, List, [], ◌∷◌, ◌++◌,
  length, length-append, append_assoc, append-nil, arith,
}
use jupynvim.Math.{Bytes}
use jupynvim.Math.Output.{
  Edit, Out, placeholder, push_found, push_escaped, found_edit, escaped_edit, escaped_dollar,
}
use jupynvim.Math.Pieces.{
  Piece, copied, escaped, found, piece_source, source, emit, emit_all, Pieced,
}
use jupynvim.Math.Index.{EnvIndex}
use jupynvim.Math.Document.{normalize_newlines, extract_math}
use jupynvim.Math.Document.Refines.{extract_math-Pieced}

-- Edits between two texts of `n` and `m` bytes, from their places `i` and `j` on: in order and
-- disjoint, with as many bytes between two of them in the one text as in the other.
unfoldable pub EditsInOrder : ℕ → ℕ → ℕ → ℕ → List Edit → Type 0
EditsInOrder n m i j [] = (i ≤ n) × (j ≤ m) × (n - i ≡ m - j)
EditsInOrder n m i j (e ∷ edits) =
    (i ≤ e.src_start)
    × (j ≤ e.text_start)
    × (e.src_start - i ≡ e.text_start - j)
    × (e.src_start ≤ e.src_end)
    × (e.text_start < e.text_end)
    × EditsInOrder n m e.src_end e.text_end edits

placeholder-positive : (i : ℕ) (display : Bool) → 0 < length (placeholder i display)
unfolding placeholder
placeholder-positive i true = omega arith
placeholder-positive i false = omega arith

-- More pieces, where the last edit ended at `i` and `j`.
emit_all-EditsInOrder :
    (o : Out) (p i j : ℕ) (ps : List Piece)
    → i ≤ p
    → j ≤ length o.buf
    → p - i ≡ length o.buf - j
    → (edits : List Edit) × ((emit_all o p ps).edits ≡ o.edits ++ edits)
      × EditsInOrder (p + length (source ps)) (length (emit_all o p ps).buf) i j edits
unfolding EditsInOrder emit_all emit source piece_source push_found push_escaped found_edit
    escaped_edit
emit_all-EditsInOrder o p i j [] le lt gap =
    ([], sym (append-nil _), (omega (arith, le), lt, omega (arith, gap)))
emit_all-EditsInOrder o p i j (copied c ∷ ps) le lt gap =
    let size = length-append o.buf c in
    let (edits, e, order) =
      emit_all-EditsInOrder (emit o p (copied c)) (p + length c) i j ps (omega (arith, le))
        (omega (arith, lt, size)) (omega (arith, gap, size, le, lt)) in
    (
      edits,
      e,
      subst (λ n. EditsInOrder n (length (emit_all o p (copied c ∷ ps)).buf) i j edits)
          (omega (arith, length-append c (source ps))) order,
    )
emit_all-EditsInOrder o p i j (escaped ∷ ps) le lt gap =
    let size = length-append o.buf escaped_dollar in
    let (edits, e, order) =
      emit_all-EditsInOrder (emit o p escaped) (p + 1) (p + 1) (length o.buf + 2) ps (omega arith)
        (omega (arith, size)) (omega (arith, size)) in
    let edit = escaped_edit o p in
    (
      edit ∷ edits,
      e ∙ append_assoc o.edits (edit ∷ []) edits,
      (
        le,
        lt,
        gap,
        omega arith,
        omega arith,
        subst
            (λ n.
              EditsInOrder n (length (emit_all o p (escaped ∷ ps)).buf) (p + 1) (length o.buf + 2)
                edits)
            (omega arith) order,
      ),
    )
emit_all-EditsInOrder o p i j (found src f ∷ ps) le lt gap =
    let ph = placeholder (length o.maths + 1) f.display in
    let size = length-append o.buf ph in
    let (edits, e, order) =
      emit_all-EditsInOrder (emit o p (found src f)) (p + length src) (p + length src)
        (length (o.buf ++ ph)) ps (omega arith) (omega arith) (omega arith) in
    let edit = found_edit o f p (p + length src) in
    (
      edit ∷ edits,
      e ∙ append_assoc o.edits (edit ∷ []) edits,
      (
        le,
        lt,
        gap,
        omega arith,
        omega (arith, size, placeholder-positive (length o.maths + 1) f.display),
        subst
            (λ n.
              EditsInOrder n (length (emit_all o p (found src f ∷ ps)).buf) (p + length src)
                (length (o.buf ++ ph)) edits)
            (omega (arith, length-append src (source ps))) order,
      ),
    )

-- The edits of a source are in order and disjoint, in the source with its line breaks normalized and
-- in the text; as many bytes stand between two of them in the one as in the other, before the first
-- and after the last one too.
pub extract_math-EditsInOrder :
    (E : EnvIndex) (src : Bytes)
    → EditsInOrder
        (length (normalize_newlines src))
        (length (extract_math E src).buf)
        0
        0
        (extract_math E src).edits
unfolding Pieced
extract_math-EditsInOrder E src =
    let (ps, same, cut, kept) = extract_math-Pieced E src in
    let (edits, e, order) =
      emit_all-EditsInOrder (record { buf = []; maths = []; edits = [] }) 0 0 0 ps (omega arith)
        (omega arith) refl in
    let all = extract_math E src in
    subst (λ es. EditsInOrder (length (normalize_newlines src)) (length all.buf) 0 0 es)
      (sym e ∙ ap (λ r. r.edits) same)
      (subst (λ n. EditsInOrder n (length all.buf) 0 0 edits) (omega (arith, ap length cut))
        (subst (λ r. EditsInOrder (0 + length (source ps)) (length r.buf) 0 0 edits) same order))
