-- ===== src/Math/Document/Restore.antt =====
-- core/native/src/mathgrammar/mod.rs: the source can be read back from the text, the maths and the
-- edits.
use jupynvim.Prelude.{
  ℕ, ◌+◌, ◌-◌, ◌≤◌, ◌≡◌, refl, sym, ap, ◌∙◌, Option, none, some, List, [], ◌∷◌, ◌++◌, length,
  length-append, get_elem?, take, drop, append_assoc, append-nil, arith,
}
use jupynvim.Math.{Bytes, sub}
use jupynvim.Math.Bytes.{sub-inside, sub-split}
use jupynvim.Math.Output.{
  Formula, Edit, Out, push_found, push_escaped, found_edit, escaped_edit, placeholder,
  escaped_dollar,
}
use jupynvim.Math.Pieces.{
  Piece, copied, escaped, found, piece_source, source, emit, emit_all, Kept, Pieced,
}
use jupynvim.Math.Index.{EnvIndex}
use jupynvim.Math.Document.{normalize_newlines, extract_math}
use jupynvim.Math.Document.Refines.{extract_math-Pieced}

-- The last `n` bytes of a math's raw text.
raw_end : ℕ → Option Formula → Bytes
raw_end n none = []
raw_end n (some m) = drop (length m.raw - n) m.raw

replaced : List Formula → ℕ → Option ℕ → Bytes
unfolding raw_end
replaced maths n none = b'$' ∷ []
replaced maths n (some i) = raw_end n (get_elem? maths i)

-- What an edit replaced: a `$`, or as much of the end of a math's raw text as its range is long.
unfoldable pub original : List Formula → Edit → Bytes
unfolding replaced
original maths e = replaced maths (e.src_end - e.src_start) e.math

-- The text from place `j` on, with what the edits replaced put back.
unfoldable pub restore : Bytes → List Formula → ℕ → List Edit → Bytes
unfolding original
restore text maths j [] = sub text j (length text)
restore text maths j (e ∷ edits) =
    sub text j e.text_start ++ original maths e ++ restore text maths e.text_end edits

drop-append : (xs ys : Bytes) → drop (length xs) (xs ++ ys) ≡ ys
drop-append [] ys = refl
drop-append (x ∷ xs) ys = drop-append xs ys

take-append : (xs ys : Bytes) → take (length xs) (xs ++ ys) ≡ xs
take-append [] ys = refl
take-append (x ∷ xs) ys = ap (λ r. x ∷ r) (take-append xs ys)

get_elem?-append :
    (xs : List Formula) (m : Formula) (ys : List Formula)
    → get_elem? ((xs ++ m ∷ []) ++ ys) (length xs) ≡ some m
get_elem?-append [] m ys = refl
get_elem?-append (x ∷ xs) m ys = get_elem?-append xs m ys

raw_end-append :
    (n : ℕ) (m : Formula) (before src : Bytes)
    → m.raw ≡ before ++ src
    → n ≡ length src
    → raw_end n (some m) ≡ src
unfolding raw_end
raw_end-append n m before src same size =
    let skipped : length m.raw - n ≡ length before =
      omega (arith, ap length same, length-append before src, size) in
    ap (λ k. drop k m.raw) skipped ∙ ap (drop (length before)) same ∙ drop-append before src

-- The range of the middle part.
sub-middle : (a c t : Bytes) → sub ((a ++ c) ++ t) (length a) (length (a ++ c)) ≡ c
sub-middle a c t =
    let size = length-append a c in
    let all = length-append (a ++ c) t in
    let n : length (a ++ c) - length a ≡ length c = omega (arith, size) in
    sub-inside ((a ++ c) ++ t) (length a) (length (a ++ c)) (omega (arith, size))
      (omega (arith, all))
    ∙ ap (λ k. take k (drop (length a) ((a ++ c) ++ t))) n
    ∙ ap (λ xs. take (length c) (drop (length a) xs)) (append_assoc a c t)
    ∙ ap (take (length c)) (drop-append a (c ++ t))
    ∙ take-append c t

sub-empty : (s : Bytes) (a : ℕ) → sub s a a ≡ []
unfolding sub
sub-empty s a = ground arith

restore-edit :
    (text : Bytes) (maths : List Formula) (j n : ℕ) (e : Edit) (edits : List Edit)
    (src rest : Bytes)
    → original maths e ≡ src
    → e.text_end ≡ n
    → restore text maths e.text_end edits ≡ sub text e.text_end n ++ rest
    → restore text maths j (e ∷ edits) ≡ sub text j e.text_start ++ (src ++ rest)
unfolding restore
restore-edit text maths j n e edits src rest same there back =
    let nothing : sub text e.text_end n ≡ [] =
      ap (sub text e.text_end) (sym there) ∙ sub-empty text e.text_end in
    append_assoc (sub text j e.text_start) (original maths e) _
    ∙ ap (λ xs. sub text j e.text_start ++ (xs ++ restore text maths e.text_end edits)) same
    ∙ ap (λ xs. sub text j e.text_start ++ (src ++ xs)) (back ∙ ap (λ xs. xs ++ rest) nothing)

-- What more pieces add to an output, and that they can be put back.
Restored : Out → List Piece → Out → Type 0
Restored o ps all =
    (edits : List Edit) × (t : Bytes) × (ms : List Formula) × (all.edits ≡ o.edits ++ edits)
    × (all.buf ≡ o.buf ++ t)
    × (all.maths ≡ o.maths ++ ms)
    × ((j : ℕ)
        → j ≤ length o.buf
        → restore all.buf all.maths j edits ≡ sub all.buf j (length o.buf) ++ source ps)

emit_all-Restored : (o : Out) (i : ℕ) (ps : List Piece) → Kept ps → Restored o ps (emit_all o i ps)
unfolding Restored emit_all emit Kept source piece_source restore push_found push_escaped original
    replaced
emit_all-Restored o i [] kept = (
  [],
  [],
  [],
  sym (append-nil _),
  sym (append-nil _),
  sym (append-nil _),
  λ j h. sym (append-nil _),
)
emit_all-Restored o i (copied c ∷ ps) kept =
    let o1 = emit o i (copied c) in
    let all = emit_all o1 (i + length c) ps in
    let (edits, t, ms, e, b, m, back) = emit_all-Restored o1 (i + length c) ps kept in
    let size = length-append o.buf c in
    let inside : length (o.buf ++ c) ≤ length all.buf =
      omega (arith, ap length b, length-append (o.buf ++ c) t) in
    let part : sub all.buf (length o.buf) (length (o.buf ++ c)) ≡ c =
      ap (λ xs. sub xs (length o.buf) (length (o.buf ++ c))) b ∙ sub-middle o.buf c t in
    (
      edits,
      c ++ t,
      ms,
      e,
      b ∙ append_assoc o.buf c t,
      m,
      λ j h.
          back j (omega (arith, h, size))
          ∙ ap (λ xs. xs ++ source ps)
              (sym (
                  sub-split all.buf j (length o.buf) (length (o.buf ++ c)) h (omega (arith, size))
                    inside)
                ∙ ap (λ xs. sub all.buf j (length o.buf) ++ xs) part)
          ∙ append_assoc (sub all.buf j (length o.buf)) c (source ps),
    )
emit_all-Restored o i (escaped ∷ ps) kept =
    let o1 = emit o i escaped in
    let all = emit_all o1 (i + 1) ps in
    let (edits, t, ms, e, b, m, back) = emit_all-Restored o1 (i + 1) ps kept in
    let size : length o.buf + 2 ≡ length o1.buf = sym (length-append o.buf escaped_dollar) in
    let edit = escaped_edit o i in
    (
      edit ∷ edits,
      escaped_dollar ++ t,
      ms,
      e ∙ append_assoc o.edits (edit ∷ []) edits,
      b ∙ append_assoc o.buf escaped_dollar t,
      m,
      λ j h.
          restore-edit all.buf all.maths j (length o1.buf) edit edits (b'$' ∷ []) (source ps) refl
            size (back (length o.buf + 2) (omega (arith, size))),
    )
emit_all-Restored o i (found src f ∷ ps) ((before, raw), kept) =
    let o1 = emit o i (found src f) in
    let all = emit_all o1 (i + length src) ps in
    let (edits, t, ms, e, b, m, back) = emit_all-Restored o1 (i + length src) ps kept in
    let ph = placeholder (length o.maths + 1) f.display in
    let edit = found_edit o f i (i + length src) in
    let put_back : original all.maths edit ≡ src =
      ap (λ xs. original xs edit) m
      ∙ ap (raw_end (i + length src - i)) (get_elem?-append o.maths f ms)
      ∙ raw_end-append (i + length src - i) f before src raw (omega arith) in
    (
      edit ∷ edits,
      ph ++ t,
      f ∷ ms,
      e ∙ append_assoc o.edits (edit ∷ []) edits,
      b ∙ append_assoc o.buf ph t,
      m ∙ append_assoc o.maths (f ∷ []) ms,
      λ j h.
          restore-edit all.buf all.maths j (length o1.buf) edit edits src (source ps) put_back refl
            (back (length o1.buf) (omega arith)),
    )

-- From the text, the maths and the edits of a source, the source can be read back, with its line
-- breaks normalized.
pub restore-extract_math :
    (E : EnvIndex) (src : Bytes)
    → restore (extract_math E src).buf (extract_math E src).maths 0 (extract_math E src).edits
      ≡ normalize_newlines src
unfolding Pieced Restored
restore-extract_math E src =
    let (ps, same, cut, kept) = extract_math-Pieced E src in
    let (edits, t, ms, e, b, m, back) =
      emit_all-Restored (record { buf = []; maths = []; edits = [] }) 0 ps kept in
    let whole : restore (extract_math E src).buf (extract_math E src).maths 0 edits
        ≡ sub (extract_math E src).buf 0 0 ++ source ps =
      ap (λ r. restore r.buf r.maths 0 edits) (sym same)
      ∙ back 0 (omega arith)
      ∙ ap (λ r. sub r.buf 0 0 ++ source ps) same in
    ap (restore (extract_math E src).buf (extract_math E src).maths 0)
      (ap (λ r. r.edits) (sym same) ∙ e)
    ∙ whole
    ∙ ap (λ xs. xs ++ source ps) (sub-empty (extract_math E src).buf 0)
    ∙ cut
