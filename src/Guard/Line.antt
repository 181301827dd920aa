-- ===== src/Guard/Line.antt =====
-- The lines that the backend writes, `+ <pgid>` and `- <pgid>`, as the guard reads them.
use jupynvim.Prelude.{
  ℕ, ◌≤◌, ◌<◌, ◌≡◌, refl, ap, sym, subst, ◌∙◌, Bool, true, false, some, List, [], ◌∷◌, ◌++◌, arith,
  append_assoc, append-nil, if◌then◌else◌,
}
use jupynvim.Guard.{
  newline, i32_max, trim_end, trim_cons, is_digit, all_digits, parse_i32, parse_pgid, parse_trimmed,
  parse_line, boundary, utf8_from, is_utf8, insert, remove, act, read_byte, read_all,
}
use jupynvim.Guard.Decimal.{print, print-cons, all_digits-print, parse_i32-print}

-- `format!("+ {pgid}\n")` and `format!("- {pgid}\n")`.
unfoldable pub format_line : Bool → ℕ → List ℕ
format_line add pgid = (if add then b'+' else b'-') ∷ b' ' ∷ print pgid ++ newline ∷ []

-- A line's text before its newline.
abbrev body : Bool → ℕ → List ℕ
body add pgid = (if add then b'+' else b'-') ∷ b' ' ∷ print pgid

trim_end-digits :
    (d : ℕ) (ds : List ℕ)
    → all_digits (d ∷ ds) ≡ true
    → trim_end ((d ∷ ds) ++ newline ∷ []) ≡ d ∷ ds
unfolding trim_end all_digits
trim_end-digits d [] h = ground arith
trim_end-digits d (e ∷ ds) h = ground (arith, trim_end-digits e ds)

parse_pgid-digits :
    (add : Bool) (d : ℕ) (ds : List ℕ) (n : ℕ)
    → all_digits (d ∷ ds) ≡ true
    → parse_i32 (d ∷ ds) ≡ some n
    → 1 < n
    → parse_pgid add (d ∷ ds) ≡ some (add, n)
unfolding parse_pgid
parse_pgid-digits add d ds n h e big = ground arith

parse_trimmed-sign :
    (add : Bool) (num : List ℕ)
    → parse_trimmed ((if add then b'+' else b'-') ∷ b' ' ∷ num) ≡ parse_pgid add num
unfolding parse_trimmed
parse_trimmed-sign true num = refl
parse_trimmed-sign false num = refl

trim_end-line :
    (add : Bool) (d : ℕ) (ds : List ℕ)
    → all_digits (d ∷ ds) ≡ true
    → trim_end ((if add then b'+' else b'-') ∷ b' ' ∷ (d ∷ ds) ++ newline ∷ [])
      ≡ (if add then b'+' else b'-') ∷ b' ' ∷ d ∷ ds
unfolding trim_end
trim_end-line add d ds h = rw (trim_end-digits d ds h, trim_cons) refl

-- What the backend writes about a group, with an id above 1 that an `i32` holds, the guard reads
-- back as that sign and that id.
pub parse_line-format_line :
    (add : Bool) (pgid : ℕ)
    → 1 < pgid
    → pgid ≤ i32_max
    → parse_line (format_line add pgid) ≡ some (add, pgid)
unfolding parse_line format_line
parse_line-format_line add pgid big fits =
    let (d, ds, e) = print-cons pgid in
    let digits : all_digits (d ∷ ds) ≡ true =
      subst (λ xs. all_digits xs ≡ true) e (all_digits-print pgid) in
    let value : parse_i32 (d ∷ ds) ≡ some pgid =
      subst (λ xs. parse_i32 xs ≡ some pgid) e (parse_i32-print pgid fits) in
    ap (λ xs. parse_line ((if add then b'+' else b'-') ∷ b' ' ∷ xs ++ newline ∷ [])) e
    ∙ ap parse_trimmed (trim_end-line add d ds digits)
    ∙ parse_trimmed-sign add (d ∷ ds)
    ∙ parse_pgid-digits add d ds pgid digits value big

utf8_from-digits :
    (xs : List ℕ) → all_digits xs ≡ true → utf8_from boundary (xs ++ newline ∷ []) ≡ true
unfolding utf8_from all_digits
utf8_from-digits [] h = refl
utf8_from-digits (x ∷ xs) h = ground (arith, utf8_from-digits xs)

is_utf8-format_line : (add : Bool) (pgid : ℕ) → is_utf8 (format_line add pgid) ≡ true
unfolding is_utf8 format_line
is_utf8-format_line true pgid = utf8_from-digits (print pgid) (all_digits-print pgid)
is_utf8-format_line false pgid = utf8_from-digits (print pgid) (all_digits-print pgid)

act-format_line :
    (add : Bool) (pgid : ℕ) (groups : List ℕ)
    → 1 < pgid
    → pgid ≤ i32_max
    → act (format_line add pgid) groups ≡ (if add then insert pgid groups else remove pgid groups)
unfolding act
act-format_line add pgid groups big fits =
    rw (is_utf8-format_line add pgid, parse_line-format_line add pgid big fits) refl

read_byte-digit :
    (groups line : List ℕ) (x : ℕ)
    → is_digit x ≡ true
    → read_byte (record { groups = groups; line = line }) x
      ≡ record { groups = groups; line = line ++ x ∷ [] }
unfolding read_byte is_digit
read_byte-digit groups line x h = ground arith

all_digits-cons :
    (x : ℕ) (xs : List ℕ)
    → all_digits (x ∷ xs) ≡ true
    → (is_digit x ≡ true) × (all_digits xs ≡ true)
unfolding all_digits
all_digits-cons x xs h = ground arith

-- Digits are added to the line being read.
read_all-digits :
    (groups line xs ys : List ℕ)
    → all_digits xs ≡ true
    → read_all (record { groups = groups; line = line }) (xs ++ ys)
      ≡ read_all (record { groups = groups; line = line ++ xs }) ys
unfolding read_all
read_all-digits groups line [] ys h =
    ap (λ l. read_all (record { groups = groups; line = l }) ys) (sym (append-nil line))
read_all-digits groups line (x ∷ xs) ys h =
    let (one, more) = all_digits-cons x xs h in
    ap (λ r. read_all r (xs ++ ys)) (read_byte-digit groups line x one)
    ∙ read_all-digits groups (line ++ x ∷ []) xs ys more
    ∙ ap (λ l. read_all (record { groups = groups; line = l }) ys) (append_assoc line (x ∷ []) xs)

-- The newline ends the line, and the guard acts on it.
read_all-newline :
    (groups line rest : List ℕ)
    → read_all (record { groups = groups; line = line }) (newline ∷ rest)
      ≡ read_all (record { groups = act (line ++ newline ∷ []) groups; line = [] }) rest
unfolding read_all read_byte
read_all-newline groups line rest = refl

read_all-sign :
    (add : Bool) (groups rest : List ℕ)
    → read_all (record { groups = groups; line = [] }) ((if add then b'+' else b'-') ∷ b' ' ∷ rest)
      ≡ read_all (record { groups = groups; line = (if add then b'+' else b'-') ∷ b' ' ∷ [] }) rest
unfolding read_all read_byte
read_all-sign true groups rest = refl
read_all-sign false groups rest = refl

-- A whole line is read and acted on.
pub read_all-format_line :
    (add : Bool) (pgid : ℕ) (groups rest : List ℕ)
    → 1 < pgid
    → pgid ≤ i32_max
    → read_all (record { groups = groups; line = [] }) (format_line add pgid ++ rest)
      ≡ read_all
          (record { groups = if add then insert pgid groups else remove pgid groups; line = [] })
          rest
unfolding format_line
read_all-format_line add pgid groups rest big fits =
    let sign : ℕ = if add then b'+' else b'-' in
    read_all-sign add groups ((print pgid ++ newline ∷ []) ++ rest)
    ∙ ap (λ xs. read_all (record { groups = groups; line = sign ∷ b' ' ∷ [] }) xs)
        (append_assoc (print pgid) (newline ∷ []) rest)
    ∙ read_all-digits groups (sign ∷ b' ' ∷ []) (print pgid) (newline ∷ rest)
        (all_digits-print pgid)
    ∙ read_all-newline groups (sign ∷ b' ' ∷ print pgid) rest
    ∙ ap (λ gs. read_all (record { groups = gs; line = [] }) rest)
        (act-format_line add pgid groups big fits)
