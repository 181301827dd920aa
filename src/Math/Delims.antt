-- ===== src/Math/Delims.antt =====
-- core/native/src/mathgrammar/scan.rs: the functions on one text segment that look for delimiters.
-- A loop that moves on in every round has as many rounds as the segment has bytes.
use jupynvim.Prelude.{
  ℕ, zero, suc, ◌+◌, ◌-◌, Bool, true, false, ◌&&◌, ◌||◌, not, Option, none, some, [], ◌∷◌, ◌++◌,
  if◌then◌else◌, ltb, leb, ◌==◌, length, drop,
}
use jupynvim.Math.{
  Bytes, at, sub, skip, is_blank, is_digit_byte, is_letter, js_ws_len, js_trim, skip1,
  quote_prefix_len,
}
use jupynvim.Math.Fences.{same_bytes, all_blank}

-- After a quote mark of `quote_blank`, whose blanks are `first..i`.
quote_blank_from : ℕ → Bytes → Bool → ℕ → Bool
unfolding at skip is_blank
quote_blank_from zero m trailing i = true
quote_blank_from (suc f) m trailing i =
    let first = suc i in
    let next = skip is_blank m first in
    elim (leb (length m) i) [
      | true ↦ true
      | false ↦ elim (at m i == b'>') [
        | false ↦ false
        | true ↦ elim (leb (length m) next) [
          | true ↦ trailing || leb (next - first) 1
          | false ↦ elim (ltb 1 (next - first)) [
            | true ↦ false
            | false ↦ quote_blank_from f m trailing next
          ]
        ]
      ]
    ]

-- `quote_blank`.
unfoldable pub quote_blank : Bytes → Bool → Bool
unfolding quote_blank_from skip is_blank
quote_blank m trailing = quote_blank_from (length m) m trailing (skip is_blank m 0)

is_quote_blank : ℕ → Bool
unfolding is_blank
is_quote_blank b = is_blank b || b == b'>'

-- `b2_at`.
unfoldable pub b2_at : Bytes → ℕ → Bool
unfolding at skip is_quote_blank quote_blank sub
b2_at s j =
    let q = skip is_quote_blank s (j + 1) in
    at s j == b'\n' && at s q == b'\n' && quote_blank (sub s (j + 1) q) true

-- The quote marks, each with a blank after it or not, that `clean_tex` passes.
quote_marks : ℕ → Bytes → ℕ → ℕ
unfolding at skip1
quote_marks zero t i = i
quote_marks (suc f) t i = elim (at t i == b'>') [
  | true ↦ quote_marks f t (skip1 t (suc i))
  | false ↦ i
]

not_newline : ℕ → Bool
not_newline b = not (b == b'\n')

-- The loop of `clean_tex`, from place `i` on.
clean_from : ℕ → Bytes → ℕ → Bytes
unfolding skip not_newline sub quote_marks is_blank
clean_from zero t i = []
clean_from (suc f) t i =
    let p = skip not_newline t i in
    elim (ltb p (length t)) [
      | true ↦
          sub t i (suc p) ++ clean_from f t (quote_marks (length t) t (skip is_blank t (suc p)))
      | false ↦ sub t i (length t)
    ]

-- `clean_tex`.
unfoldable pub clean_tex : Bytes → Bytes
unfolding clean_from js_trim
clean_tex t = js_trim (clean_from (length t) t 0)

-- Back over blanks and quote marks.
back : Bytes → ℕ → ℕ
unfolding at is_quote_blank
back s zero = zero
back s (suc b) = elim (is_quote_blank (at s b)) [ true ↦ back s b | false ↦ suc b ]

-- `line_only_around`.
unfoldable pub line_only_around : Bytes → ℕ → ℕ → Bool
unfolding skip is_blank at back sub quote_prefix_len all_blank
line_only_around s start end =
    let e = skip is_blank s end in
    let b = back s start in
    let before = sub s b start in
    (leb (length s) e || at s e == b'\n')
    && (b == 0 || at s (b - 1) == b'\n')
    && all_blank (sub before (quote_prefix_len before) (length before))

-- Where the first `-->` ends in a text that starts at place `i`.
unfoldable pub comment_end : ℕ → Bytes → Option ℕ
unfolding at
comment_end i [] = none
comment_end i (b ∷ s) = elim (b == b'-' && at s 0 == b'-' && at s 1 == b'>') [
  | true ↦ some (i + 3)
  | false ↦ comment_end (suc i) s
]

unfoldable pub is_tag_byte : ℕ → Bool
unfolding is_letter is_digit_byte
is_tag_byte b = is_letter b || is_digit_byte b || b == b'-'

unfoldable pub is_scheme_byte : ℕ → Bool
unfolding is_letter is_digit_byte
is_scheme_byte b = is_letter b || is_digit_byte b || b == b'+' || b == b'.' || b == b'-'

unfoldable pub not_angle : ℕ → Bool
not_angle b = not (b == b'<' || b == b'>')

-- The end of a match that must end with the `>` at `t`.
unfoldable pub closing_angle : Bytes → ℕ → Option ℕ
unfolding at
closing_angle s t = if at s t == b'>' then some (t + 1) else none

-- The first form of `match_tag`, from the byte after `<` on.
unfoldable pub tag_end : Bytes → ℕ → Option ℕ
unfolding at skip is_letter is_tag_byte js_ws_len not_angle closing_angle
tag_end s p =
    let q = if at s p == b'/' then p + 1 else p in
    let r = skip is_tag_byte s (q + 1) in
    let ws = js_ws_len s r in
    if is_letter (at s q)
    then (if ltb 0 ws
        then closing_angle s (skip not_angle s (r + ws))
        else closing_angle s (if at s r == b'/' then r + 1 else r))
    else none

-- Up to a blank, `<` or `>`.
unfoldable pub link_end : ℕ → Bytes → ℕ → ℕ
unfolding at not_angle js_ws_len
link_end zero s t = t
link_end (suc f) s t = elim (ltb t (length s) && not_angle (at s t) && js_ws_len s t == 0) [
  | true ↦ link_end f s (suc t)
  | false ↦ t
]

-- The second form of `match_tag`.
unfoldable pub scheme_end : Bytes → ℕ → Option ℕ
unfolding at skip is_letter is_scheme_byte link_end closing_angle
scheme_end s p =
    let r = skip is_scheme_byte s (p + 1) in
    if is_letter (at s p) && at s r == b':'
    then closing_angle s (link_end (length s) s (r + 1))
    else none

unfoldable pub or_match : Option ℕ → Option ℕ → Option ℕ
or_match none o = o
or_match (some x) o = some x

-- `match_tag`.
unfoldable pub match_tag : Bytes → ℕ → Option ℕ
unfolding tag_end scheme_end or_match
match_tag s k = or_match (tag_end s (k + 1)) (scheme_end s (k + 1))

unfoldable pub or_default : Option ℕ → ℕ → ℕ
or_default none d = d
or_default (some x) d = x

-- `match_markup`.
unfoldable pub match_markup : Bytes → ℕ → Option ℕ
unfolding sub same_bytes or_default comment_end match_tag
match_markup s k =
    if same_bytes (sub s k (k + 4)) (b'<' ∷ b'!' ∷ b'-' ∷ b'-' ∷ [])
    then some (or_default (comment_end (k + 4) (drop (k + 4) s)) (length s))
    else match_tag s k
