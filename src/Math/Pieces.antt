-- ===== src/Math/Pieces.antt =====
-- What the output of core/native/src/mathgrammar is made of, whichever pass writes it: pieces of the
-- source, each copied, a `$` that is escaped, or a math that a placeholder stands for.
use jupynvim.Prelude.{
  ℕ, ◌+◌, ◌≡◌, refl, sym, ap, subst, ◌∙◌, List, [], ◌∷◌, ◌++◌, append_assoc, append-nil, length,
  length-append, arith,
}
use jupynvim.Math.{Bytes}
use jupynvim.Math.Output.{Formula, Out, push_found, push_escaped}

pub data Piece : Type 0 where
  copied : Bytes → Piece
  escaped : Piece
  found : Bytes → Formula → Piece

unfoldable pub piece_source : Piece → Bytes
piece_source (copied c) = c
piece_source escaped = b'$' ∷ []
piece_source (found src m) = src

unfoldable pub source : List Piece → Bytes
unfolding piece_source
source [] = []
source (p ∷ ps) = piece_source p ++ source ps

-- One more piece, whose source starts at place `i`.
unfoldable pub emit : Out → ℕ → Piece → Out
unfolding push_escaped push_found
emit o i (copied c) = record o { buf = o.buf ++ c }
emit o i escaped = push_escaped o i
emit o i (found src m) = push_found o m i (i + length src)

unfoldable pub emit_all : Out → ℕ → List Piece → Out
unfolding emit piece_source
emit_all o i [] = o
emit_all o i (p ∷ ps) = emit_all (emit o i p) (i + length (piece_source p)) ps

pub source-append : (ps qs : List Piece) → source (ps ++ qs) ≡ source ps ++ source qs
unfolding source
source-append [] qs = refl
source-append (p ∷ ps) qs =
    ap (λ xs. piece_source p ++ xs) (source-append ps qs) ∙ sym (append_assoc (piece_source p) _ _)

pub emit_all-append :
    (o : Out) (i : ℕ) (ps qs : List Piece)
    → emit_all o i (ps ++ qs) ≡ emit_all (emit_all o i ps) (i + length (source ps)) qs
unfolding emit_all source
emit_all-append o i [] qs = ap (λ k. emit_all o k qs) (omega arith)
emit_all-append o i (p ∷ ps) qs =
    emit_all-append (emit o i p) (i + length (piece_source p)) ps qs
    ∙ ap (λ k. emit_all (emit_all (emit o i p) (i + length (piece_source p)) ps) k qs)
        (omega (arith, length-append (piece_source p) (source ps)))

-- The raw text of a math ends with the source it was cut from.
unfoldable pub Kept : List Piece → Type 0
Kept [] = Unit
Kept (copied c ∷ ps) = Kept ps
Kept (escaped ∷ ps) = Kept ps
Kept (found src m ∷ ps) = ((before : Bytes) × (m.raw ≡ before ++ src)) × Kept ps

pub Kept-append : (ps qs : List Piece) → Kept ps → Kept qs → Kept (ps ++ qs)
unfolding Kept
Kept-append [] qs h k = k
Kept-append (copied c ∷ ps) qs h k = Kept-append ps qs h k
Kept-append (escaped ∷ ps) qs h k = Kept-append ps qs h k
Kept-append (found src m ∷ ps) qs (e, h) k = (e, Kept-append ps qs h k)

-- The output is what the pieces of a source give.
unfoldable pub Pieced : Out → Bytes → Type 0
Pieced o xs =
    (ps : List Piece) × (emit_all (record { buf = []; maths = []; edits = [] }) 0 ps ≡ o)
    × (source ps ≡ xs)
    × Kept ps

-- One more piece of the source.
pub Pieced-emit :
    (o : Out) (xs : Bytes) (p : Piece)
    → Kept (p ∷ [])
    → Pieced o xs
    → Pieced (emit o (length xs) p) (xs ++ piece_source p)
unfolding Pieced emit_all source
Pieced-emit o xs p k (ps, e, same, kept) = (
  ps ++ p ∷ [],
  emit_all-append _ 0 ps (p ∷ [])
      ∙ ap (λ r. emit r (0 + length (source ps)) p) e
      ∙ ap (λ n. emit o n p) (omega arith ∙ ap length same),
  source-append ps (p ∷ [])
      ∙ ap (λ r. r ++ (piece_source p ++ [])) same
      ∙ ap (λ r. xs ++ r) (append-nil (piece_source p)),
  Kept-append ps (p ∷ []) kept k,
)

-- A math over a range of the source that ends its raw text.
pub push_found-Pieced :
    (o : Out) (xs src : Bytes) (m : Formula) (a e : ℕ)
    → a ≡ length xs
    → e ≡ length xs + length src
    → (before : Bytes) × (m.raw ≡ before ++ src)
    → Pieced o xs
    → Pieced (push_found o m a e) (xs ++ src)
unfolding emit Kept piece_source
push_found-Pieced o xs src m a e begins ends raw pieced =
    subst (λ x. Pieced (push_found o m x e) (xs ++ src)) (sym begins)
      (subst (λ x. Pieced (push_found o m (length xs) x) (xs ++ src)) (sym ends)
        (Pieced-emit o xs (found src m) (raw, tt) pieced))
