-- ===== src/Palette/Blame.antt =====
-- core/native/src/palette/wire.rs: an error names the first line that is wrong.
use jupynvim.Prelude.{
  ℕ, suc, ◌+◌, ◌≡◌, refl, sym, ap, ◌∙◌, subst, ◌==◌, ◌⊎◌, inl, inr, Bool, true, false, Option, none,
  List, [], ◌∷◌, ◌++◌, length, arith, Bool-cases, if_elim,
}
use jupynvim.Math.{Bytes}
use jupynvim.Math.Fences.{same_bytes}
use jupynvim.Palette.{
  DeriveInput, Fault, no_version, no_kind, ParsedInput, request_ok, request_refused, Reading,
  LineResult, good, bad, take_wire_line, read_lines, nothing_read, lines_of, after_version,
  parse_input, split, onto_first, without_newline,
}

-- What lines do to a state: the last one's, or the first refusal.
unfoldable pub take_lines : Reading → List Bytes → LineResult
take_lines st [] = good st
take_lines st (line ∷ more) = elim (take_wire_line st line) [
  | good next ↦ take_lines next more
  | bad fault ↦ bad fault
]

-- Some lines are accepted, and the next one is refused, for this reason.
unfoldable pub FirstWrong : Reading → List Bytes → ℕ → ℕ → Fault → Type 0
FirstWrong st lines n m f =
    (before : List Bytes) × (line : Bytes) × (after : List Bytes) × (next : Reading) × (lines
      ≡ before ++ line ∷ after)
    × (take_lines st before ≡ good next)
    × (take_wire_line next line ≡ bad f)
    × (m ≡ n + length before)

-- All lines are accepted, and none of them is a `kind` line.
unfoldable pub NoKind : Reading → List Bytes → ℕ → ℕ → Fault → Type 0
NoKind st lines n m f =
    (next : Reading) × (take_lines st lines ≡ good next)
    × (next.kind_seen ≡ false)
    × (f ≡ no_kind)
    × (m ≡ n + length lines)

line_of_refusal : ParsedInput → ℕ
line_of_refusal (request_ok i) = 0
line_of_refusal (request_refused n f) = n

fault_of : ParsedInput → Fault
fault_of (request_ok i) = no_kind
fault_of (request_refused n f) = f

was_parsed : ParsedInput → Bool
was_parsed (request_ok i) = true
was_parsed (request_refused n f) = false

pub LineResult-cases :
    (c : LineResult) → ((next : Reading) × (c ≡ good next)) ⊎ ((f : Fault) × (c ≡ bad f))
LineResult-cases (good next) = inl (next, refl)
LineResult-cases (bad f) = inr (f, refl)

pub not_refused :
    (i : DeriveInput) (m : ℕ) (f : Fault) (A : Type 0) → request_ok i ≡ request_refused m f → A
unfolding was_parsed
not_refused i m f A h = let e : true ≡ false = ap was_parsed h in ground arith

pub read_lines-good :
    (n : ℕ) (line : Bytes) (more : List Bytes) (st next : Reading)
    → take_wire_line st line ≡ good next
    → read_lines n (line ∷ more) st ≡ read_lines (suc n) more next
unfolding read_lines
read_lines-good n line more st next e = rw (read_lines, e) refl

pub read_lines-bad :
    (n : ℕ) (line : Bytes) (more : List Bytes) (st : Reading) (f : Fault)
    → take_wire_line st line ≡ bad f
    → read_lines n (line ∷ more) st ≡ request_refused n f
unfolding read_lines
read_lines-bad n line more st f e = rw (read_lines, e) refl

take_lines-good :
    (line : Bytes) (more : List Bytes) (st next : Reading)
    → take_wire_line st line ≡ good next
    → take_lines st (line ∷ more) ≡ take_lines next more
unfolding take_lines
take_lines-good line more st next e = rw (take_lines, e) refl

same_refusal :
    (n m : ℕ) (f g : Fault) → request_refused n f ≡ request_refused m g → (f ≡ g) × (n ≡ m)
unfolding line_of_refusal fault_of
same_refusal n m f g h = (ap fault_of h, ap line_of_refusal h)

no_more-request_refused :
    (n : ℕ) (st : Reading) (m : ℕ) (f : Fault)
    → read_lines n [] st ≡ request_refused m f
    → NoKind st [] n m f
unfolding read_lines take_lines NoKind
no_more-request_refused n st m f h = elim (Bool-cases st.kind_seen) [
  | inl seen ↦
      let all : read_lines n [] st ≡ request_ok st.input = rw seen refl in
      not_refused st.input m f (NoKind st [] n m f) (sym all ∙ h)
  | inr unseen ↦
      let all : read_lines n [] st ≡ request_refused n no_kind = rw unseen refl in
      let (why, place) = same_refusal n m no_kind f (sym all ∙ h) in
      (st, refl, unseen, sym why, omega (arith, place))
]

read_lines-request_refused :
    (n : ℕ) (lines : List Bytes) (st : Reading) (m : ℕ) (f : Fault)
    → read_lines n lines st ≡ request_refused m f
    → FirstWrong st lines n m f ⊎ NoKind st lines n m f
unfolding take_lines FirstWrong NoKind
read_lines-request_refused n [] st m f h = inr (no_more-request_refused n st m f h)
read_lines-request_refused n (line ∷ more) st m f h =
    elim (LineResult-cases (take_wire_line st line)) [
      | inl (next, e) ↦
          elim (read_lines-request_refused (suc n) more next m f
            (sym (read_lines-good n line more st next e) ∙ h)) [
              | inl (before, wrong, after, last, cut, taken, why, place) ↦ inl (
                line ∷ before,
                wrong,
                after,
                last,
                ap (λ xs. line ∷ xs) cut,
                take_lines-good line before st next e ∙ taken,
                why,
                omega (arith, place),
              )
              | inr (last, taken, unseen, why, place) ↦ inr (
                last,
                take_lines-good line more st next e ∙ taken,
                unseen,
                why,
                omega (arith, place),
              )
            ]
      | inr (g, e) ↦
          let (why, place) = same_refusal n m g f (sym (read_lines-bad n line more st g e) ∙ h) in
          inl ([], line, more, st, refl, refl, e ∙ ap bad why, omega (arith, place))
    ]

same_bytes_refl : (s : Bytes) → same_bytes s s ≡ true
unfolding same_bytes
same_bytes_refl [] = refl
same_bytes_refl (b ∷ s) = ground (arith, same_bytes_refl s)

same_bytes→≡ : (s t : Bytes) → same_bytes s t ≡ true → s ≡ t
unfolding same_bytes
same_bytes→≡ [] [] h = refl
same_bytes→≡ [] (c ∷ t) h = absurd (ground arith)
same_bytes→≡ (b ∷ s) [] h = absurd (ground arith)
same_bytes→≡ (b ∷ s) (c ∷ t) h = ground (arith, same_bytes→≡ s t)

-- `JNP 1`.
abbrev pub version : Bytes
version = b'J' ∷ b'N' ∷ b'P' ∷ b' ' ∷ b'1' ∷ []

-- The first line is not the version.
abbrev NoVersion : List Bytes → Type 0
NoVersion lines = (rest : List Bytes) → ¬ (lines ≡ version ∷ rest)

-- What a refusal says of the lines of a text.
unfoldable pub Blamed : List Bytes → ℕ → Fault → Type 0
unfolding FirstWrong NoKind
Blamed lines m f =
    ((m ≡ 1) × (f ≡ no_version) × NoVersion lines)
    ⊎ ((rest : List Bytes) × (lines ≡ version ∷ rest)
        × (FirstWrong nothing_read rest 2 m f ⊎ NoKind nothing_read rest 2 m f))

first_line : List Bytes → Bytes
first_line [] = []
first_line (line ∷ more) = line

differs-NoVersion :
    (line : Bytes) (more : List Bytes) → same_bytes line version ≡ false → NoVersion (line ∷ more)
unfolding first_line
differs-NoVersion line more differs rest e =
    let same : line ≡ version = ap first_line e in
    let equal : same_bytes line version ≡ true =
      ap (λ l. same_bytes l version) same ∙ same_bytes_refl version in
    ground arith

version_missing :
    (lines : List Bytes) (m : ℕ) (f : Fault)
    → NoVersion lines
    → request_refused 1 no_version ≡ request_refused m f
    → Blamed lines m f
unfolding Blamed
version_missing lines m f missing h =
    let (why, place) = same_refusal 1 m no_version f h in inl (sym place, sym why, missing)

after_version-Blamed :
    (line : Bytes) (more : List Bytes) (m : ℕ) (f : Fault)
    → after_version (line ∷ more) ≡ request_refused m f
    → Blamed (line ∷ more) m f
unfolding after_version Blamed
after_version-Blamed line more m f h =
    if_elim (λ r. r ≡ request_refused m f → Blamed (line ∷ more) m f) (same_bytes line version)
      (read_lines 2 more nothing_read) (request_refused 1 no_version)
      (λ same k. inr (
        more,
        ap (λ l. l ∷ more) (same_bytes→≡ line version same),
        read_lines-request_refused 2 more nothing_read m f k,
      ))
      (λ differs k. version_missing (line ∷ more) m f (differs-NoVersion line more differs) k) h

HasLine : List Bytes → Type 0
HasLine lines = (line : Bytes) × (more : List Bytes) × (lines ≡ line ∷ more)

onto_first-HasLine : (b : ℕ) (pieces : List Bytes) → HasLine (onto_first b pieces)
unfolding onto_first HasLine
onto_first-HasLine b [] = (b ∷ [], [], refl)
onto_first-HasLine b (piece ∷ pieces) = (b ∷ piece, pieces, refl)

split-HasLine : (c : ℕ) (s : Bytes) → HasLine (split c s)
unfolding split HasLine
split-HasLine c [] = ([], [], refl)
split-HasLine c (b ∷ s) =
    if_elim HasLine (b == c) ([] ∷ split c s) (onto_first b (split c s))
      (λ _. ([], split c s, refl)) (λ _. onto_first-HasLine b (split c s))

lines-Blamed :
    (lines : List Bytes) (m : ℕ) (f : Fault)
    → HasLine lines
    → after_version lines ≡ request_refused m f
    → Blamed lines m f
unfolding HasLine
lines-Blamed lines m f (line, more, e) h =
    subst (λ ls. Blamed ls m f) (sym e)
      (after_version-Blamed line more m f (ap after_version (sym e) ∙ h))

pub parse_input-valid :
    (valid_up_to : Bytes → Option ℕ) (b : ℕ) (s : Bytes)
    → valid_up_to (b ∷ s) ≡ none
    → parse_input valid_up_to (b ∷ s) ≡ after_version (lines_of (b ∷ s))
unfolding parse_input
parse_input-valid valid_up_to b s valid = rw (parse_input, valid) refl

pub parse_input-empty :
    (valid_up_to : Bytes → Option ℕ)
    → valid_up_to [] ≡ none
    → parse_input valid_up_to [] ≡ request_refused 1 no_version
unfolding parse_input
parse_input-empty valid_up_to valid = rw (parse_input, valid) refl

-- An error in text that is UTF-8 names the first line, where that is not the version; else it is the
-- version, and the error names the first line after it that is refused where all before it are
-- accepted, or else the line after the last one, where all are accepted and none gives the kind.
pub parse_input-Blamed :
    (valid_up_to : Bytes → Option ℕ) (bytes : Bytes) (m : ℕ) (f : Fault)
    → valid_up_to bytes ≡ none
    → parse_input valid_up_to bytes ≡ request_refused m f
    → Blamed (lines_of bytes) m f
unfolding lines_of same_bytes
parse_input-Blamed valid_up_to [] m f valid h =
    version_missing (lines_of []) m f (differs-NoVersion [] [] refl)
      (sym (parse_input-empty valid_up_to valid) ∙ h)
parse_input-Blamed valid_up_to (b ∷ s) m f valid h =
    lines-Blamed (lines_of (b ∷ s)) m f (split-HasLine b'\n' (without_newline (b ∷ s)))
      (sym (parse_input-valid valid_up_to b s valid) ∙ h)
