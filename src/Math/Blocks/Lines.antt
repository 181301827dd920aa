-- ===== src/Math/Blocks/Lines.antt =====
-- The line table of core/native/src/mathgrammar/blocks.rs: its lines follow one another.
use jupynvim.Prelude.{
  ℕ, zero, suc, ◌+◌, ◌≤◌, ◌<◌, ◌≡◌, refl, sym, ap, ◌∙◌, ◌⊎◌, inl, inr, List, [], ◌∷◌, ◌==◌, length,
  arith, if_elim,
}
use jupynvim.Math.{Bytes, at}
use jupynvim.Math.Blocks.{lines_from, line_table, start_of, end_of}

-- A place where a line ends: the end of the text, or a newline.
unfoldable pub LineEnd : Bytes → ℕ → Type 0
LineEnd b e = (e ≡ length b) ⊎ (at b e ≡ b'\n')

-- The lines of a text, from a place on.
pub Table : Bytes → ℕ → List (ℕ × ℕ) → Type 0
Table b start [] = start ≡ suc (length b)
Table b start ((s, e) ∷ lines) = (s ≡ start) × (s ≤ e) × LineEnd b e × Table b (suc e) lines

-- Where line `i` starts, or the place after the last line's end.
unfoldable pub next_line : ℕ → ℕ → List (ℕ × ℕ) → ℕ → ℕ
next_line size start lines zero = start
next_line size start lines (suc i) = suc (end_of size lines i)

lines_from-Table :
    (b s : Bytes) (start i : ℕ)
    → start ≤ i
    → length b ≡ i + length s
    → ((k : ℕ) → at b (i + k) ≡ at s k)
    → Table b start (lines_from start i s)
unfolding lines_from Table LineEnd at
lines_from-Table b [] start i le size same =
    (refl, le, inl (omega (arith, size)), omega (arith, size))
lines_from-Table b (x ∷ s) start i le size same =
    let size' : length b ≡ suc i + length s = omega (arith, size) in
    let same' : (k : ℕ) → at b (suc i + k) ≡ at s k = λ k. ap (at b) (omega arith) ∙ same (suc k) in
    if_elim (Table b start) (x == b'\n') _ _
      (λ h. (
        refl,
        le,
        inr (ground (arith, same 0)),
        lines_from-Table b s (suc i) (suc i) (omega arith) size' same',
      ))
      (λ _. lines_from-Table b s start (suc i) (omega (arith, le)) size' same')

pub line_table-Table : (b : Bytes) → Table b 0 (line_table b)
unfolding line_table
line_table-Table b =
    lines_from-Table b b 0 0 (omega arith) (omega arith) (λ k. ap (at b) (omega arith))

next_line-cons :
    (size start s e : ℕ) (lines : List (ℕ × ℕ)) (n : ℕ)
    → next_line size start ((s, e) ∷ lines) (suc n) ≡ next_line size (suc e) lines n
unfolding next_line end_of
next_line-cons size start s e lines zero = refl
next_line-cons size start s e lines (suc n) = refl

pub next_line-length :
    (b : Bytes) (start : ℕ) (lines : List (ℕ × ℕ))
    → Table b start lines
    → next_line (length b) start lines (length lines) ≡ suc (length b)
unfolding next_line Table
next_line-length b start [] t = t
next_line-length b start ((s, e) ∷ lines) (_, _, _, t) =
    next_line-cons (length b) start s e lines (length lines) ∙ next_line-length b (suc e) lines t

pub Table-start :
    (b : Bytes) (start : ℕ) (lines : List (ℕ × ℕ)) (i : ℕ)
    → Table b start lines
    → i < length lines
    → start_of lines i ≡ next_line (length b) start lines i
unfolding start_of next_line Table
Table-start b start [] i t h = ground arith
Table-start b start ((s, e) ∷ lines) zero (p, _, _, _) h = p
Table-start b start ((s, e) ∷ lines) (suc i) (_, _, _, t) h =
    Table-start b (suc e) lines i t (omega (arith, h))
    ∙ sym (next_line-cons (length b) start s e lines i)

pub Table-order :
    (b : Bytes) (start : ℕ) (lines : List (ℕ × ℕ)) (i : ℕ)
    → Table b start lines
    → i < length lines
    → next_line (length b) start lines i ≤ end_of (length b) lines i
unfolding end_of next_line Table
Table-order b start [] i t h = ground arith
Table-order b start ((s, e) ∷ lines) zero (p, le, _, _) h = omega (arith, p, le)
Table-order b start ((s, e) ∷ lines) (suc i) (_, _, _, t) h = omega (
  arith,
  Table-order b (suc e) lines i t (omega (arith, h)),
  next_line-cons (length b) start s e lines i,
)

pub end_of-LineEnd :
    (b : Bytes) (start : ℕ) (lines : List (ℕ × ℕ)) (i : ℕ)
    → Table b start lines
    → LineEnd b (end_of (length b) lines i)
unfolding end_of Table LineEnd
end_of-LineEnd b start [] i t = inl refl
end_of-LineEnd b start ((s, e) ∷ lines) zero (_, _, le, _) = le
end_of-LineEnd b start ((s, e) ∷ lines) (suc i) (_, _, _, t) = end_of-LineEnd b (suc e) lines i t
