-- ===== src/Math.antt =====
-- core/native/src/mathgrammar: the pass that takes the math out of markdown. This file holds the
-- helpers on bytes, of jsstr.rs and of the start of scan.rs. A text is the list of its UTF-8 bytes.
-- A loop that passes bytes of one kind is the length of their run, and needs no fuel: past the end
-- `at` gives 0, which is of no such kind.
pub mod Bytes
pub mod Fences
pub mod Blocks
pub mod Output
pub mod Delims
pub mod Dollars
pub mod Lookahead
pub mod Index
pub mod Scan
pub mod Pieces
pub mod Document
mod Tests
use jupynvim.Prelude.{
  ℕ, zero, suc, ◌+◌, ◌-◌, ◌*◌, Bool, true, false, ◌&&◌, ◌||◌, not, Option, none, some, List, [],
  ◌∷◌, ◌++◌, if◌then◌else◌, ltb, leb, ◌==◌, length, take, drop, get_or,
}

abbrev pub Bytes : Type 0
Bytes = List ℕ

-- `at` of jsstr.rs.
unfoldable pub at : Bytes → ℕ → ℕ
at s i = get_or s i 0

-- `sub` of scan.rs: `s.get(a..e).unwrap_or_default()`.
unfoldable pub sub : Bytes → ℕ → ℕ → Bytes
sub s a e = if leb a e && leb e (length s) then take (e - a) (drop a s) else []

-- How many bytes of a kind a text starts with.
unfoldable pub run_length : (ℕ → Bool) → Bytes → ℕ
run_length p [] = 0
run_length p (b ∷ s) = let later = suc (run_length p s) in if p b then later else 0

-- `while p(at(s, i)) { i += 1 }`.
unfoldable pub skip : (ℕ → Bool) → Bytes → ℕ → ℕ
unfolding run_length
skip p s i = i + run_length p (drop i s)

unfoldable pub is_blank : ℕ → Bool
is_blank b = b == b' ' || b == b'\t'

-- `is_ws`.
unfoldable pub is_ws : ℕ → Bool
is_ws b = b == b' ' || b == b'\t' || b == b'\n'

within : ℕ → ℕ → ℕ → Bool
within lo hi b = leb lo b && leb b hi

-- `u8::is_ascii_digit`, `is_ascii_alphabetic` and `is_ascii_punctuation`.
unfoldable pub is_digit_byte : ℕ → Bool
unfolding within
is_digit_byte b = within b'0' b'9' b

unfoldable pub is_letter : ℕ → Bool
unfolding within
is_letter b = within b'a' b'z' b || within b'A' b'Z' b

-- `is_punct`.
unfoldable pub is_punct : ℕ → Bool
unfolding within
is_punct b = within 33 47 b || within 58 64 b || within 91 96 b || within 123 126 b

-- `js_ws_len`.
unfoldable pub js_ws_len : Bytes → ℕ → ℕ
unfolding at within
js_ws_len s i =
    let b0 = at s i in
    let b1 = at s (i + 1) in
    let b2 = at s (i + 2) in
    if within 0x09 0x0d b0 || b0 == 0x20
    then 1
    else if b0 == 0xc2
    then (if b1 == 0xa0 then 2 else 0)
    else if b0 == 0xe1
    then (if b1 == 0x9a && b2 == 0x80 then 3 else 0)
    else if b0 == 0xe2
    then (if (b1 == 0x80 && (within 0x80 0x8a b2 || b2 == 0xa8 || b2 == 0xa9 || b2 == 0xaf))
          || (b1 == 0x81 && b2 == 0x9f)
        then 3
        else 0)
    else if b0 == 0xe3
    then (if b1 == 0x80 && b2 == 0x80 then 3 else 0)
    else if b0 == 0xef
    then (if b1 == 0xbb && b2 == 0xbf then 3 else 0)
    else 0

-- One round of `js_ws_len_before`.
unfoldable pub ends_ws : Bytes → ℕ → ℕ → Bool
unfolding js_ws_len sub
ends_ws s end len = leb len end && leb end (length s) && js_ws_len (sub s (end - len) end) 0 == len

-- `js_ws_len_before`. (Out of range it breaks off where the code does: a longer piece is too.)
unfoldable pub js_ws_len_before : Bytes → ℕ → ℕ
unfolding ends_ws
js_ws_len_before s end =
    if ends_ws s end 1 then 1 else if ends_ws s end 2 then 2 else if ends_ws s end 3 then 3 else 0

-- The first loop of `js_trim`, in as many rounds as there are bytes.
unfoldable pub trim_start : ℕ → Bytes → ℕ → ℕ
unfolding js_ws_len
trim_start zero s a = a
trim_start (suc f) s a = elim (js_ws_len s a) [ zero ↦ a | suc n ↦ trim_start f s (a + suc n) ]

-- The second one.
unfoldable pub trim_back : ℕ → Bytes → ℕ → ℕ → ℕ
unfolding js_ws_len_before
trim_back zero s a b = b
trim_back (suc f) s a b =
    let n = js_ws_len_before s b in
    elim (ltb a b && not (n == 0 || ltb (b - n) a)) [ true ↦ trim_back f s a (b - n) | false ↦ b ]

-- `js_trim`.
unfoldable pub js_trim : Bytes → Bytes
unfolding trim_start trim_back sub
js_trim s =
    let a = trim_start (length s) s 0 in let b = trim_back (length s) s a (length s) in sub s a b

is_break : Bytes → Bool
unfolding at
is_break s = at s 0 == 0xe2 && at s 1 == 0x80 && (at s 2 == 0xa8 || at s 2 == 0xa9)

-- `js_line_terminator_in`.
unfoldable pub js_line_terminator_in : Bytes → Bool
unfolding is_break
js_line_terminator_in [] = false
js_line_terminator_in (b ∷ s) = is_break (b ∷ s) || js_line_terminator_in s

-- Up to three blanks from a place on: `while q < p + 3 && ..`.
unfoldable pub skip3 : Bytes → ℕ → ℕ
unfolding at is_blank
skip3 s p =
    if is_blank (at s p)
    then (if is_blank (at s (p + 1))
        then (if is_blank (at s (p + 2)) then p + 3 else p + 2)
        else p + 1)
    else p

-- One blank, if there is one.
unfoldable pub skip1 : Bytes → ℕ → ℕ
unfolding at is_blank
skip1 s p = if is_blank (at s p) then p + 1 else p

unfoldable pub quote_prefix_from : ℕ → Bytes → ℕ → ℕ
unfolding at skip3 skip1
quote_prefix_from zero s p = p
quote_prefix_from (suc f) s p = elim (at s (skip3 s p) == b'>') [
  | true ↦ quote_prefix_from f s (skip1 s (skip3 s p + 1))
  | false ↦ p
]

-- `quote_prefix_len`: a round takes a byte at least, so there are as many rounds as bytes.
unfoldable pub quote_prefix_len : Bytes → ℕ
unfolding quote_prefix_from
quote_prefix_len s = quote_prefix_from (length s) s 0
