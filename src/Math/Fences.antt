-- ===== src/Math/Fences.antt =====
-- core/native/src/mathgrammar/blocks.rs: the tests on one line.
use jupynvim.Prelude.{
  ℕ, ◌+◌, ◌-◌, Bool, true, false, ◌&&◌, ◌||◌, not, Option, none, some, [], ◌∷◌, if◌then◌else◌, ltb,
  leb, ◌==◌, length, map,
}
use jupynvim.Math.{
  Bytes, at, sub, skip, skip3, is_blank, is_digit_byte, js_trim, js_line_terminator_in,
  quote_prefix_len,
}

unfoldable pub is_empty : Bytes → Bool
is_empty [] = true
is_empty (b ∷ s) = false

-- `blank` and `indented`.
unfoldable pub is_blank_line : Bytes → Bool
unfolding js_trim is_empty
is_blank_line line = is_empty (js_trim line)

unfoldable pub is_indented : Bytes → Bool
unfolding at
is_indented line =
    (at line 0 == b' ' && at line 1 == b' ' && at line 2 == b' ' && at line 3 == b' ')
    || at line 0 == b'\t'

pub record FenceOpen : Type 0 where
  pub prefix : ℕ
  pub ch : ℕ
  pub run : ℕ
  pub rest : Bytes

unfoldable pub contains_byte : ℕ → Bytes → Bool
contains_byte c [] = false
contains_byte c (b ∷ s) = b == c || contains_byte c s

-- `fence_open`.
unfoldable pub fence_open : Bytes → Option FenceOpen
unfolding quote_prefix_len skip is_blank at sub js_line_terminator_in contains_byte
fence_open line =
    let prefix = quote_prefix_len line in
    let p = skip is_blank line prefix in
    let c = at line p in
    let r = skip (λ b. b == c) line p in
    let rest = sub line r (length line) in
    if not (c == b'`') && not (c == b'~')
    then none
    else if ltb (r - p) 3
    then none
    else if js_line_terminator_in rest
        || ltb 3 (p - prefix)
        || (c == b'`' && contains_byte b'`' rest)
    then none
    else some (record { prefix = prefix; ch = c; run = r - p; rest = rest })

unfoldable pub all_blank : Bytes → Bool
unfolding is_blank
all_blank [] = true
all_blank (b ∷ s) = is_blank b && all_blank s

-- `fence_close`.
unfoldable pub fence_close : Bytes → ℕ → ℕ → Bool
unfolding quote_prefix_len skip3 skip at sub all_blank
fence_close line c run =
    let l = sub line (quote_prefix_len line) (length line) in
    let p = skip3 l 0 in
    let r = skip (λ b. b == c) l p in
    if not (at l p == c) then false else leb run (r - p) && all_blank (sub l r (length l))

-- `list_item`.
unfoldable pub is_list_item : Bytes → Bool
unfolding skip3 skip at is_digit_byte is_blank
is_list_item line =
    let p = skip3 line 0 in
    let q = skip is_digit_byte line p in
    let bullet = at line p == b'-' || at line p == b'*' || at line p == b'+' in
    let after = if bullet then p + 1 else q + 1 in
    if not bullet && (q - p == 0 || ltb 9 (q - p) || not (at line q == b'.' || at line q == b')'))
    then false
    else leb (length line) after || is_blank (at line after)

unfoldable pub lower_byte : ℕ → ℕ
lower_byte b = if leb b'A' b && leb b b'Z' then b + 32 else b

unfoldable pub same_bytes : Bytes → Bytes → Bool
same_bytes [] [] = true
same_bytes [] (c ∷ t) = false
same_bytes (b ∷ s) [] = false
same_bytes (b ∷ s) (c ∷ t) = b == c && same_bytes s t

-- `eq_ignore_ascii_case(b"math")`.
unfoldable pub is_math : Bytes → Bool
unfolding lower_byte same_bytes
is_math s = same_bytes (map lower_byte s) (b'm' ∷ b'a' ∷ b't' ∷ b'h' ∷ [])
