-- ===== src/Math/Dollars.antt =====
-- core/native/src/mathgrammar/scan.rs: the searches for the end of a dollar math, and the names of
-- environments.
use jupynvim.Prelude.{
  ℕ, zero, suc, ◌+◌, ◌-◌, Bool, true, false, ◌&&◌, ◌||◌, not, Option, none, some, [], ◌∷◌,
  if◌then◌else◌, ltb, leb, ◌==◌, length, map,
}
use jupynvim.Math.{Bytes, at, sub, skip, is_ws, is_digit_byte, is_letter, js_trim}
use jupynvim.Math.Fences.{same_bytes, is_empty}
use jupynvim.Math.Delims.{b2_at}

is_name_byte : ℕ → Bool
unfolding is_letter
is_name_byte b = is_letter b || b == b'*'

-- `begin_name`.
unfoldable pub begin_name : Bytes → ℕ → Option Bytes
unfolding sub same_bytes skip is_name_byte at
begin_name s k =
    let p = skip is_name_byte s (k + 7) in
    if same_bytes (sub s k (k + 7)) (b'\\' ∷ b'b' ∷ b'e' ∷ b'g' ∷ b'i' ∷ b'n' ∷ b'{' ∷ [])
      && ltb (k + 7) p
      && at s p == b'}'
    then some (sub s (k + 7) p)
    else none

-- The loop of `display_close`.
unfoldable pub display_from : ℕ → Bytes → ℕ → Option ℕ
unfolding at b2_at
display_from zero s j = none
display_from (suc f) s j = elim (ltb j (length s)) [
  | false ↦ none
  | true ↦ elim (at s j == b'\n' && b2_at s j) [
    | true ↦ none
    | false ↦ elim (at s j == b'\\') [
      | true ↦ display_from f s (j + 2)
      | false ↦ elim (at s j == b'$' && at s (j + 1) == b'$') [
        | true ↦ some j
        | false ↦ display_from f s (j + 1)
      ]
    ]
  ]
]

-- `display_close`.
unfoldable pub display_close : Bytes → ℕ → Option ℕ
unfolding display_from
display_close s from = display_from (length s) s from

count_newlines : Bytes → ℕ
count_newlines [] = 0
count_newlines (b ∷ s) = let n = count_newlines s in if b == b'\n' then suc n else n

-- Whether the blanks at `j` end the search of `inline_dollar`: a blank line, or a `$` after them.
unfoldable pub blanks_end : Bytes → ℕ → Bool
unfolding skip is_ws sub count_newlines b2_at at
blanks_end s j =
    let e = skip is_ws s j in
    let newlines = count_newlines (sub s j e) in
    leb 2 newlines || (newlines == 1 && b2_at s j) || at s e == b'$'

-- The loop of `inline_dollar`.
unfoldable pub inline_from : ℕ → Bytes → ℕ → Option ℕ
unfolding at is_digit_byte is_ws blanks_end skip
inline_from zero s j = none
inline_from (suc f) s j = elim (ltb j (length s)) [
  | false ↦ none
  | true ↦ elim (at s j == b'$') [
    | true ↦ if is_digit_byte (at s (j + 1)) then none else some j
    | false ↦ elim (at s j == b'\\') [
      | true ↦ inline_from f s (j + 2)
      | false ↦ elim (is_ws (at s j)) [
        | true ↦ elim (blanks_end s j) [ true ↦ none | false ↦ inline_from f s (skip is_ws s j) ]
        | false ↦ inline_from f s (j + 1)
      ]
    ]
  ]
]

-- `inline_dollar`.
unfoldable pub inline_dollar : Bytes → ℕ → Option ℕ
unfolding is_ws at inline_from
inline_dollar s k =
    let j = k + 1 in
    if leb (length s) j || is_ws (at s j)
    then none
    else inline_from (length s) s (if at s j == b'\\' then j + 2 else j + 1)

unfoldable pub space_newline : ℕ → ℕ
space_newline b = if b == b'\n' then b' ' else b

-- The TeX of a backtick math: newlines are blanks, and one blank at each end is left out where
-- there is text between them.
unfoldable pub backtick_tex : Bytes → Bytes
unfolding space_newline at js_trim sub is_empty
backtick_tex body =
    let inner = map space_newline body in
    let n = length inner in
    if ltb 1 n && at inner 0 == b' ' && at inner (n - 1) == b' ' && not (is_empty (js_trim inner))
    then sub inner 1 (n - 1)
    else inner
