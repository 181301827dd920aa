-- ===== src/Guard.antt =====
-- core/src/guard.rs: the guard process, which stops the kernels of a backend that is gone, and the
-- backend's side of it. This file holds the lines between the two and what the guard does with
-- them. Bytes are numbers below 256; a process group id is a natural number, so that the negative
-- ids, which the code refuses with 0 and 1, are left out.
pub mod Decimal
pub mod Line
pub mod Backend
pub mod Told
pub mod Sync
pub mod Promise
pub mod Respawn
mod Tests
use jupynvim.Prelude.{
  ℕ, zero, suc, ◌+◌, ◌-◌, ◌*◌, ◌^◌, Bool, true, false, ◌&&◌, ◌||◌, not, Option, none, some, List,
  [], ◌∷◌, ◌++◌, ltb, leb, ◌==◌, if◌then◌else◌,
}

abbrev pub newline : ℕ
newline = b'\n'

abbrev pub i32_max : ℕ
i32_max = 2 ^ 31 - 1

is_eol : ℕ → Bool
is_eol b = b == b'\n' || b == b'\r'

trim_cons : ℕ → List ℕ → List ℕ
unfolding is_eol
trim_cons b [] = if is_eol b then [] else b ∷ []
trim_cons b (c ∷ rest) = b ∷ c ∷ rest

-- `trim_end_matches(['\n', '\r'])`.
unfoldable pub trim_end : List ℕ → List ℕ
unfolding trim_cons
trim_end [] = []
trim_end (b ∷ rest) = trim_cons b (trim_end rest)

unfoldable pub is_digit : ℕ → Bool
is_digit b = leb b'0' b && leb b b'9'

unfoldable pub all_digits : List ℕ → Bool
unfolding is_digit
all_digits [] = true
all_digits (b ∷ rest) = is_digit b && all_digits rest

-- The number that decimal digits stand for, read from the left.
unfoldable pub decimal_value : ℕ → List ℕ → ℕ
decimal_value acc [] = acc
decimal_value acc (b ∷ rest) = decimal_value (acc * 10 + (b - b'0')) rest

-- `parse::<i32>` on a text of digits.
unfoldable pub parse_i32 : List ℕ → Option ℕ
unfolding decimal_value
parse_i32 s = let v = decimal_value 0 s in if leb v i32_max then some v else none

parse_pgid : Bool → List ℕ → Option (Bool × ℕ)
unfolding all_digits parse_i32
parse_pgid add [] = none
parse_pgid add (b ∷ rest) =
    if not (all_digits (b ∷ rest)) then none else elim (parse_i32 (b ∷ rest)) [
      | none ↦ none
      | some pgid ↦ if ltb 1 pgid then some (add, pgid) else none
    ]

-- The two prefixes, `+ ` and `- `.
parse_trimmed : List ℕ → Option (Bool × ℕ)
unfolding parse_pgid
parse_trimmed [] = none
parse_trimmed (b ∷ []) = none
parse_trimmed (b ∷ c ∷ num) =
    if b == b'+' && c == b' '
    then parse_pgid true num
    else if b == b'-' && c == b' '
    then parse_pgid false num
    else none

-- `parse_line`.
unfoldable pub parse_line : List ℕ → Option (Bool × ℕ)
unfolding trim_end parse_trimmed
parse_line line = parse_trimmed (trim_end line)

-- What is left of a UTF-8 sequence: the range of the next byte, and how many follow it.
pub data Utf8 : Type 0 where
  boundary : Utf8
  expects : ℕ → ℕ → ℕ → Utf8
  invalid : Utf8

utf8_lead : ℕ → Utf8
utf8_lead b =
    if ltb b 0x80
    then boundary
    else if leb 0xc2 b && leb b 0xdf
    then expects 0x80 0xbf 0
    else if b == 0xe0
    then expects 0xa0 0xbf 1
    else if b == 0xed
    then expects 0x80 0x9f 1
    else if leb 0xe1 b && leb b 0xef
    then expects 0x80 0xbf 1
    else if b == 0xf0
    then expects 0x90 0xbf 2
    else if leb 0xf1 b && leb b 0xf3
    then expects 0x80 0xbf 2
    else if b == 0xf4
    then expects 0x80 0x8f 2
    else invalid

utf8_next : Utf8 → ℕ → Utf8
unfolding utf8_lead
utf8_next boundary b = utf8_lead b
utf8_next (expects lo hi zero) b = if leb lo b && leb b hi then boundary else invalid
utf8_next (expects lo hi (suc n)) b = if leb lo b && leb b hi then expects 0x80 0xbf n else invalid
utf8_next invalid b = invalid

utf8_from : Utf8 → List ℕ → Bool
unfolding utf8_next
utf8_from boundary [] = true
utf8_from (expects lo hi n) [] = false
utf8_from invalid [] = false
utf8_from s (b ∷ rest) = utf8_from (utf8_next s b) rest

-- `std::str::from_utf8(..).is_ok()`.
unfoldable pub is_utf8 : List ℕ → Bool
unfolding utf8_from
is_utf8 s = utf8_from boundary s

-- A `BTreeSet<i32>`, as the list of its members in order.
unfoldable pub contains : ℕ → List ℕ → Bool
contains g [] = false
contains g (h ∷ rest) = h == g || contains g rest

unfoldable pub insert : ℕ → List ℕ → List ℕ
insert g [] = g ∷ []
insert g (h ∷ rest) =
    let after = insert g rest in
    if ltb g h then g ∷ h ∷ rest else if g == h then h ∷ rest else h ∷ after

unfoldable pub remove : ℕ → List ℕ → List ℕ
remove g [] = []
remove g (h ∷ rest) = let after = remove g rest in if h == g then rest else h ∷ after

-- One whole line of `serve`'s loop.
unfoldable pub act : List ℕ → List ℕ → List ℕ
unfolding insert remove parse_line is_utf8
act line groups =
    if is_utf8 line
    then elim (parse_line line) [
      | none ↦ groups
      | some (add, g) ↦ if add then insert g groups else remove g groups
    ]
    else groups

-- `serve` between two bytes: the groups, and the line read so far.
pub record Reader : Type 0 where
  pub groups : List ℕ
  pub line : List ℕ

unfoldable pub read_byte : Reader → ℕ → Reader
read_byte r b =
    let line = r.line ++ b ∷ [] in
    if b == newline
    then record { groups = act line r.groups; line = [] }
    else record { groups = r.groups; line = line }

-- The loop of `serve`, over the bytes that arrive before the end of the input or a read error. A
-- last line with no newline stays in `line` and is not acted on.
unfoldable pub read_all : Reader → List ℕ → Reader
unfolding read_byte
read_all r [] = r
read_all r (b ∷ rest) = read_all (read_byte r b) rest

abbrev pub new_reader : Reader
new_reader = record { groups = []; line = [] }

-- `kill_group`, which refuses the ids up to 1 by itself: the groups that are sent SIGKILL.
unfoldable pub to_kill : ℕ → List ℕ → List ℕ
to_kill own [] = []
to_kill own (g ∷ rest) =
    let after = to_kill own rest in if not (g == own) && ltb 1 g then g ∷ after else after

-- `serve`: the groups that are sent SIGKILL at the end of the input. `own` is the guard's group.
unfoldable pub serve : ℕ → List ℕ → List ℕ
unfolding read_all to_kill
serve own input = to_kill own (read_all new_reader input).groups
