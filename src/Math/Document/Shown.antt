-- ===== src/Math/Document/Shown.antt =====
-- core/native/src/mathgrammar/mod.rs: what the text, the maths and the edits of a source hold, piece
-- by piece.
use jupynvim.Prelude.{
  ℕ, zero, suc, ◌+◌, ◌-◌, ◌≤◌, ◌≡◌, refl, sym, ap, subst, ◌∙◌, Bool, true, none, some, List, [],
  ◌∷◌, ◌++◌, if◌then◌else◌, length, length-append, replicate, append_assoc, append-nil, arith,
}
use jupynvim.Guard.{all_digits, decimal_value}
use jupynvim.Guard.Decimal.{print, all_digits-print, decimal_value-print}
use jupynvim.Math.{Bytes}
use jupynvim.Math.Output.{
  Formula, Edit, Out, push_found, push_escaped, found_edit, escaped_edit, placeholder, padded,
  escaped_dollar,
}
use jupynvim.Math.Pieces.{Piece, copied, escaped, found, source, emit, emit_all, Kept, Pieced}
use jupynvim.Math.Index.{EnvIndex}
use jupynvim.Math.Document.{normalize_newlines, extract_math}
use jupynvim.Math.Document.Refines.{extract_math-Pieced}

-- What stands for math number `n`, from one on: `ZZDMTH` for a display one and `ZZMTH` for another
-- one, the number in four digits or more, and `ZZ`.
unfoldable pub IsMark : ℕ → Bool → Bytes → Type 0
IsMark n display bs =
    (ds : Bytes) × (bs
      ≡ (if display
          then b'Z' ∷ b'Z' ∷ b'D' ∷ b'M' ∷ b'T' ∷ b'H' ∷ []
          else b'Z' ∷ b'Z' ∷ b'M' ∷ b'T' ∷ b'H' ∷ [])
        ++ ds
        ++ b'Z' ∷ b'Z' ∷ [])
    × (4 ≤ length ds)
    × (all_digits ds ≡ true)
    × (decimal_value 0 ds ≡ n)

-- The text, the maths and the edits that pieces give, after `n` maths, from place `i` of the source
-- and place `j` of the text on.
unfoldable pub Shown : ℕ → ℕ → ℕ → List Piece → Bytes → List Formula → List Edit → Type 0
unfolding IsMark
Shown n i j [] text maths edits = (text ≡ []) × (maths ≡ []) × (edits ≡ [])
Shown n i j (copied c ∷ ps) text maths edits =
    (t : Bytes) × (text ≡ c ++ t) × Shown n (i + length c) (j + length c) ps t maths edits
Shown n i j (escaped ∷ ps) text maths edits =
    (t : Bytes) × (es : List Edit) × (text ≡ b'\\' ∷ b'$' ∷ t)
    × (edits
        ≡ record { src_start = i; src_end = i + 1; text_start = j; text_end = j + 2; math = none }
          ∷ es)
    × Shown n (i + 1) (j + 2) ps t maths es
Shown n i j (found src m ∷ ps) text maths edits =
    (mark : Bytes) × (t : Bytes) × (ms : List Formula) × (es : List Edit) × IsMark (n + 1) m.display
      mark
    × (text ≡ mark ++ t)
    × (maths ≡ m ∷ ms)
    × (edits
        ≡ record {
          src_start = i;
          src_end = i + length src;
          text_start = j;
          text_end = j + length mark;
          math = some n;
        }
          ∷ es)
    × Shown (n + 1) (i + length src) (j + length mark) ps t ms es

all_digits-zeros :
    (k : ℕ) (ds : Bytes) → all_digits ds ≡ true → all_digits (replicate k b'0' ++ ds) ≡ true
unfolding all_digits
all_digits-zeros zero ds h = h
all_digits-zeros (suc k) ds h = ground (arith, all_digits-zeros k ds h)

decimal_value-zeros :
    (k : ℕ) (ds : Bytes) → decimal_value 0 (replicate k b'0' ++ ds) ≡ decimal_value 0 ds
unfolding decimal_value
decimal_value-zeros zero ds = refl
decimal_value-zeros (suc k) ds = decimal_value-zeros k ds

length-zeros : (k : ℕ) (ds : Bytes) → length (replicate k b'0' ++ ds) ≡ k + length ds
length-zeros zero ds = omega arith
length-zeros (suc k) ds = omega (arith, length-zeros k ds)

placeholder-IsMark : (n : ℕ) (display : Bool) → IsMark n display (placeholder n display)
unfolding IsMark placeholder padded
placeholder-IsMark n display =
    let zeros = 4 - length (print n) in
    (
      padded n,
      refl,
      omega (arith, length-zeros zeros (print n)),
      all_digits-zeros zeros (print n) (all_digits-print n),
      decimal_value-zeros zeros (print n) ∙ decimal_value-print n,
    )

-- What more pieces add to an output is what they show.
Adds : Out → ℕ → List Piece → Out → Type 0
Adds o i ps all =
    (t : Bytes) × (ms : List Formula) × (es : List Edit) × (all.buf ≡ o.buf ++ t)
    × (all.maths ≡ o.maths ++ ms)
    × (all.edits ≡ o.edits ++ es)
    × Shown (length o.maths) i (length o.buf) ps t ms es

emit_all-Adds : (o : Out) (i : ℕ) (ps : List Piece) → Adds o i ps (emit_all o i ps)
unfolding Adds Shown emit_all emit push_found push_escaped found_edit escaped_edit
emit_all-Adds o i [] =
    ([], [], [], sym (append-nil _), sym (append-nil _), sym (append-nil _), (refl, refl, refl))
emit_all-Adds o i (copied c ∷ ps) =
    let (t, ms, es, b, m, e, shown) = emit_all-Adds (emit o i (copied c)) (i + length c) ps in
    (
      c ++ t,
      ms,
      es,
      b ∙ append_assoc o.buf c t,
      m,
      e,
      (
        t,
        refl,
        subst (λ j. Shown (length o.maths) (i + length c) j ps t ms es) (length-append o.buf c)
            shown,
      ),
    )
emit_all-Adds o i (escaped ∷ ps) =
    let (t, ms, es, b, m, e, shown) = emit_all-Adds (emit o i escaped) (i + 1) ps in
    (
      escaped_dollar ++ t,
      ms,
      escaped_edit o i ∷ es,
      b ∙ append_assoc o.buf escaped_dollar t,
      m,
      e ∙ append_assoc o.edits (escaped_edit o i ∷ []) es,
      (
        t,
        es,
        refl,
        refl,
        subst (λ j. Shown (length o.maths) (i + 1) j ps t ms es)
            (length-append o.buf escaped_dollar) shown,
      ),
    )
emit_all-Adds o i (found src f ∷ ps) =
    let mark = placeholder (length o.maths + 1) f.display in
    let (t, ms, es, b, m, e, shown) = emit_all-Adds (emit o i (found src f)) (i + length src) ps in
    let edit = found_edit o f i (i + length src) in
    let size = length-append o.buf mark in
    (
      mark ++ t,
      f ∷ ms,
      edit ∷ es,
      b ∙ append_assoc o.buf mark t,
      m ∙ append_assoc o.maths (f ∷ []) ms,
      e ∙ append_assoc o.edits (edit ∷ []) es,
      (
        mark,
        t,
        ms,
        es,
        placeholder-IsMark (length o.maths + 1) f.display,
        refl,
        refl,
        ap
            (λ n.
              record {
                src_start = i;
                src_end = i + length src;
                text_start = length o.buf;
                text_end = n;
                math = some (length o.maths);
              }
              ∷ es)
            size,
        subst (λ n. Shown n (i + length src) (length o.buf + length mark) ps t ms es)
            (length-append o.maths (f ∷ []))
            (subst (λ j. Shown (length (o.maths ++ f ∷ [])) (i + length src) j ps t ms es) size
              shown),
      ),
    )

-- An output to which nothing was written before.
abbrev empty : Out
empty = record { buf = []; maths = []; edits = [] }

Adds-Shown :
    (ps : List Piece) (all : Out) → Adds empty 0 ps all → Shown 0 0 0 ps all.buf all.maths all.edits
unfolding Adds
Adds-Shown ps all (t, ms, es, b, m, e, shown) =
    subst (λ x. Shown 0 0 0 ps x all.maths all.edits) (sym b)
      (subst (λ x. Shown 0 0 0 ps t x all.edits) (sym m)
        (subst (λ x. Shown 0 0 0 ps t ms x) (sym e) shown))

-- A source, with its line breaks normalized, is cut into pieces, of which each is copied, or a `$`,
-- or ends the raw text of a math; its text has, in their order, each copied piece, a backslash before
-- each of these `$`, and for a math a placeholder with its kind and its number; the maths are those
-- of the pieces; and there is an edit for each `$` and each math, with where it stands in the source,
-- where what replaces it stands in the text, and the math's place in the list.
pub extract_math-Shown :
    (E : EnvIndex) (src : Bytes)
    → (ps : List Piece) × (source ps ≡ normalize_newlines src)
      × Kept ps
      × Shown 0 0 0 ps
          (extract_math E src).buf
          (extract_math E src).maths
          (extract_math E src).edits
unfolding Pieced
extract_math-Shown E src =
    let (ps, same, cut, kept) = extract_math-Pieced E src in
    let adds = subst (Adds empty 0 ps) same (emit_all-Adds empty 0 ps) in
    (ps, cut, kept, Adds-Shown ps (extract_math E src) adds)
