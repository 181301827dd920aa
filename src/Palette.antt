-- ===== src/Palette.antt =====
-- core/native/src/palette/wire.rs: the text of a derive request, line by line. A message of the code
-- is the number of its line and what it says of it; a text is the list of its bytes.
pub mod Names
pub mod Blame
pub mod Once
mod Tests
use jupynvim.Prelude.{
  ℕ, zero, suc, ◌+◌, ◌-◌, ◌*◌, Bool, true, false, ◌&&◌, ◌||◌, not, Option, none, some, List, [],
  ◌∷◌, if◌then◌else◌, ltb, leb, ◌==◌, length, take, get_or, set, replicate,
}
use jupynvim.Math.{Bytes, at, is_digit_byte}
use jupynvim.Math.Fences.{same_bytes}
use jupynvim.Palette.Names.{group_names, token_names}

-- `Rgb`.
pub record Rgb : Type 0 where
  pub red : ℕ
  pub green : ℕ
  pub blue : ℕ

-- `Kind` of the palette.
pub data PaletteKind : Type 0 where
  dark : PaletteKind
  light : PaletteKind

-- `Input`, without `canvas_override`, which no line sets.
pub record DeriveInput : Type 0 where
  pub kind : PaletteKind
  pub colors_name : Option Bytes
  pub terminal : Option Rgb
  pub groups : List (Bytes × Option Rgb × Option Rgb)
  pub overrides : List (Option Rgb)
  pub set_current : Bool

-- What a message says.
pub data Fault : Type 0 where
  not_utf8 : Fault
  no_version : Fault
  kind_twice : Fault
  kind_value : Fault
  name_twice : Fault
  name_value : Fault
  term_twice : Fault
  term_value : Fault
  set_argument : Fault
  set_twice : Fault
  group_shape : Fault
  group_twice : Fault
  override_shape : Fault
  unknown_override : Fault
  override_twice : Fault
  not_color : Fault
  unknown_line : Fault
  no_kind : Fault

-- The result of `parse_input`.
pub data ParsedInput : Type 0 where
  request_ok : DeriveInput → ParsedInput
  request_refused : ℕ → Fault → ParsedInput

-- The variables of the loop of `parse_input`.
pub record Reading : Type 0 where
  pub input : DeriveInput
  pub kind_seen : Bool
  pub name_seen : Bool
  pub term_seen : Bool
  pub group_seen : List Bool

-- What a line does.
pub data LineResult : Type 0 where
  good : Reading → LineResult
  bad : Fault → LineResult

hex_letter : ℕ → ℕ → Bool
hex_letter first b = leb first b && leb b (first + 5)

is_hex : ℕ → Bool
unfolding hex_letter
is_hex b = is_digit_byte b || hex_letter b'a' b || hex_letter b'A' b

hex_value : ℕ → ℕ
unfolding is_digit_byte hex_letter
hex_value b =
    if is_digit_byte b then b - b'0' else if hex_letter b'a' b then b - b'a' + 10 else b - b'A' + 10

all_hex : Bytes → Bool
unfolding is_hex
all_hex [] = true
all_hex (b ∷ s) = is_hex b && all_hex s

hex_byte : Bytes → ℕ → ℕ
unfolding hex_value at
hex_byte s i = 16 * hex_value (at s i) + hex_value (at s (i + 1))

-- `parse_rgb`.
unfoldable pub parse_rgb : Bytes → Option Rgb
unfolding all_hex hex_byte
parse_rgb [] = none
parse_rgb (b ∷ s) =
    if b == b'#' && length s == 6 && all_hex s
    then some (record { red = hex_byte s 0; green = hex_byte s 2; blue = hex_byte s 4 })
    else none

some_color : Option Rgb → Option (Option Rgb)
some_color none = none
some_color (some c) = some (some c)

-- `color_arg`; nothing for text that is no color.
unfoldable pub color_arg : Bool → Bytes → Option (Option Rgb)
unfolding same_bytes parse_rgb some_color
color_arg dash s = if dash && same_bytes s (b'-' ∷ []) then some none else some_color (parse_rgb s)

-- `split_once(' ')`.
unfoldable pub split_once : Bytes → Bytes × Option Bytes
split_once [] = ([], none)
split_once (b ∷ s) = if b == b' ' then ([], some s) else (b ∷ (split_once s).0, (split_once s).1)

unfoldable pub onto_first : ℕ → List Bytes → List Bytes
onto_first b [] = (b ∷ []) ∷ []
onto_first b (piece ∷ pieces) = (b ∷ piece) ∷ pieces

-- `split`.
unfoldable pub split : ℕ → Bytes → List Bytes
unfolding onto_first
split c [] = [] ∷ []
split c (b ∷ s) = let pieces = split c s in if b == c then [] ∷ pieces else onto_first b pieces

unfoldable pub parts : Option Bytes → List Bytes
unfolding split
parts none = []
parts (some rest) = split b' ' rest

position_from : ℕ → Bytes → List Bytes → Option ℕ
unfolding same_bytes
position_from i name [] = none
position_from i name (x ∷ names) =
    if same_bytes x name then some i else position_from (suc i) name names

-- `position` of a name, and `Token::from_name`.
unfoldable pub position : Bytes → List Bytes → Option ℕ
unfolding position_from
position name names = position_from 0 name names

kind_of : Option Bytes → Option PaletteKind
unfolding same_bytes
kind_of none = none
kind_of (some rest) =
    if same_bytes rest (b'd' ∷ b'a' ∷ b'r' ∷ b'k' ∷ [])
    then some dark
    else if same_bytes rest (b'l' ∷ b'i' ∷ b'g' ∷ b'h' ∷ b't' ∷ [])
    then some light
    else none

put_kind : Reading → Option PaletteKind → LineResult
put_kind st none = bad kind_value
put_kind st (some kind) =
    good (record st { input = record (st.input) { kind = kind }; kind_seen = true })

-- A `kind` line.
unfoldable pub take_kind : Reading → Option Bytes → LineResult
unfolding kind_of put_kind
take_kind st rest = if st.kind_seen then bad kind_twice else put_kind st (kind_of rest)

put_name : Reading → Option Bytes → LineResult
unfolding same_bytes
put_name st none = bad name_value
put_name st (some []) = bad name_value
put_name st (some (b ∷ rest)) =
    if same_bytes (b ∷ rest) (b'-' ∷ [])
    then good (record st { name_seen = true })
    else good (record st {
      input = record (st.input) { colors_name = some (b ∷ rest) };
      name_seen = true;
    })

-- A `name` line.
unfoldable pub take_name : Reading → Option Bytes → LineResult
unfolding put_name
take_name st rest = if st.name_seen then bad name_twice else put_name st rest

put_terminal : Reading → Option (Option Rgb) → LineResult
put_terminal st none = bad not_color
put_terminal st (some c) =
    good (record st { input = record (st.input) { terminal = c }; term_seen = true })

put_term : Reading → Option Bytes → LineResult
unfolding put_terminal color_arg
put_term st none = bad term_value
put_term st (some rest) = put_terminal st (color_arg true rest)

-- A `term` line.
unfoldable pub take_term : Reading → Option Bytes → LineResult
unfolding put_term
take_term st rest = if st.term_seen then bad term_twice else put_term st rest

-- A `set` line.
unfoldable pub take_set : Reading → Option Bytes → LineResult
take_set st (some rest) = bad set_argument
take_set st none =
    if st.input.set_current
    then bad set_twice
    else good (record st { input = record (st.input) { set_current = true } })

is_color : Option Rgb → Bool
is_color none = false
is_color (some c) = true

-- A group that the rules read, at its place in their list.
put_group : Reading → Bytes → Option Rgb → Option Rgb → Option ℕ → LineResult
unfolding is_color
put_group st group fg bg none = good st
put_group st group fg bg (some i) =
    if get_or st.group_seen i false
    then bad group_twice
    else good (record st {
      input =
          if is_color fg || is_color bg
          then record (st.input) { groups = (group, fg, bg) ∷ st.input.groups }
          else st.input;
      group_seen = set st.group_seen i true;
    })

with_colors : Reading → Bytes → Option (Option Rgb) → Option (Option Rgb) → LineResult
unfolding put_group position
with_colors st group none bg = bad not_color
with_colors st group (some fg) none = bad not_color
with_colors st group (some fg) (some bg) = put_group st group fg bg (position group group_names)

-- A `g` line.
unfoldable pub take_group : Reading → List Bytes → LineResult
unfolding with_colors color_arg
take_group st (group ∷ fg ∷ bg ∷ []) = with_colors st group (color_arg true fg) (color_arg true bg)
take_group st _ = bad group_shape

put_override : Reading → ℕ → Option (Option Rgb) → LineResult
unfolding is_color
put_override st t none = bad not_color
put_override st t (some c) =
    if is_color (get_or st.input.overrides t none)
    then bad override_twice
    else good (record st { input = record (st.input) { overrides = set st.input.overrides t c } })

with_token : Reading → Bytes → Option ℕ → LineResult
unfolding put_override color_arg
with_token st color none = bad unknown_override
with_token st color (some t) = put_override st t (color_arg false color)

-- An `o` line.
unfoldable pub take_override : Reading → List Bytes → LineResult
unfolding with_token position
take_override st (token ∷ color ∷ []) = with_token st color (position token token_names)
take_override st _ = bad override_shape

-- One line.
unfoldable pub take_wire_line : Reading → Bytes → LineResult
unfolding split_once same_bytes take_kind take_name take_term take_set take_group take_override
    parts
take_wire_line st line =
    let word = (split_once line).0 in
    let rest = (split_once line).1 in
    if same_bytes word (b'k' ∷ b'i' ∷ b'n' ∷ b'd' ∷ [])
    then take_kind st rest
    else if same_bytes word (b'n' ∷ b'a' ∷ b'm' ∷ b'e' ∷ [])
    then take_name st rest
    else if same_bytes word (b't' ∷ b'e' ∷ b'r' ∷ b'm' ∷ [])
    then take_term st rest
    else if same_bytes word (b's' ∷ b'e' ∷ b't' ∷ [])
    then take_set st rest
    else if same_bytes word (b'g' ∷ [])
    then take_group st (parts rest)
    else if same_bytes word (b'o' ∷ [])
    then take_override st (parts rest)
    else bad unknown_line

-- The loop, from line `n` on, and the test after it.
unfoldable pub read_lines : ℕ → List Bytes → Reading → ParsedInput
unfolding take_wire_line
read_lines n [] st = if st.kind_seen then request_ok st.input else request_refused n no_kind
read_lines n (line ∷ more) st = elim (take_wire_line st line) [
  | good next ↦ read_lines (suc n) more next
  | bad fault ↦ request_refused n fault
]

-- `Input::new(Kind::Dark)` and the flags.
unfoldable pub nothing_read : Reading
nothing_read = record {
  input = record {
    kind = dark;
    colors_name = none;
    terminal = none;
    groups = [];
    overrides = replicate (length token_names) none;
    set_current = false;
  };
  kind_seen = false;
  name_seen = false;
  term_seen = false;
  group_seen = replicate (length group_names) false;
}

-- `strip_suffix('\n')`, or the text itself.
unfoldable pub without_newline : Bytes → Bytes
without_newline [] = []
without_newline (b ∷ []) = if b == b'\n' then [] else b ∷ []
without_newline (b ∷ c ∷ s) = b ∷ without_newline (c ∷ s)

unfoldable pub lines_of : Bytes → List Bytes
unfolding split without_newline
lines_of text = split b'\n' (without_newline text)

unfoldable pub after_version : List Bytes → ParsedInput
unfolding same_bytes read_lines nothing_read
after_version [] = request_refused 1 no_version
after_version (line ∷ more) =
    if same_bytes line (b'J' ∷ b'N' ∷ b'P' ∷ b' ' ∷ b'1' ∷ [])
    then read_lines 2 more nothing_read
    else request_refused 1 no_version

line_count : Bytes → ℕ
line_count [] = 0
line_count (b ∷ s) = let n = line_count s in if b == b'\n' then suc n else n

-- `parse_input`, where `valid_up_to` says, as `from_utf8` does, up to where a text is UTF-8 that is
-- not all of it.
unfoldable pub parse_input : (valid_up_to : Bytes → Option ℕ) → Bytes → ParsedInput
unfolding line_count after_version lines_of
parse_input valid_up_to bytes = elim (valid_up_to bytes) [
  | some n ↦ request_refused (line_count (take n bytes) + 1) not_utf8
  | none ↦ elim bytes [
    | [] ↦ request_refused 1 no_version
    | b ∷ s ↦ after_version (lines_of (b ∷ s))
  ]
]
