-- ===== src/Palette/Tests.antt =====
-- Requests of core/native/src/palette/wire.rs, one accepted and one refused, and the theorems at them.
use jupynvim.Prelude.{ℕ, ◌≡◌, refl, true, Option, none, some, [], ◌∷◌}
use jupynvim.Math.{Bytes}
use jupynvim.Palette.{
  light, DeriveInput, override_twice, request_ok, request_refused, parse_input, lines_of,
  nothing_read,
}
use jupynvim.Palette.Blame.{Blamed, parse_input-Blamed}
use jupynvim.Palette.Once.{KindGiven, parse_input-KindGiven}

-- All text is taken to be UTF-8.
abbrev all_valid : Bytes → Option ℕ
all_valid s = none

abbrev wrong_request : Bytes
wrong_request =
    b'J' ∷ b'N' ∷ b'P' ∷ b' ' ∷ b'1' ∷ b'\n' ∷ b'k' ∷ b'i' ∷ b'n' ∷ b'd' ∷ b' ' ∷ b'l' ∷ b'i' ∷ b'g'
    ∷ b'h' ∷ b't' ∷ b'\n' ∷ b'o' ∷ b' ' ∷ b't' ∷ b'e' ∷ b'x' ∷ b't' ∷ b' ' ∷ b'#' ∷ b'0' ∷ b'a'
    ∷ b'0' ∷ b'B' ∷ b'0' ∷ b'c' ∷ b'\n' ∷ b'o' ∷ b' ' ∷ b't' ∷ b'e' ∷ b'x' ∷ b't' ∷ b' ' ∷ b'#'
    ∷ b'0' ∷ b'0' ∷ b'0' ∷ b'0' ∷ b'0' ∷ b'0' ∷ b'\n' ∷ b'k' ∷ b'i' ∷ b'n' ∷ b'd' ∷ b' ' ∷ b'b'
    ∷ b'l' ∷ b'u' ∷ b'e' ∷ b'\n' ∷ []

abbrev right_request : Bytes
right_request =
    b'J' ∷ b'N' ∷ b'P' ∷ b' ' ∷ b'1' ∷ b'\n' ∷ b'n' ∷ b'a' ∷ b'm' ∷ b'e' ∷ b' ' ∷ b'd' ∷ b'u' ∷ b's'
    ∷ b'k' ∷ b'\n' ∷ b'k' ∷ b'i' ∷ b'n' ∷ b'd' ∷ b' ' ∷ b'l' ∷ b'i' ∷ b'g' ∷ b'h' ∷ b't' ∷ b'\n'
    ∷ b's' ∷ b'e' ∷ b't' ∷ b'\n' ∷ b'g' ∷ b' ' ∷ b'N' ∷ b'o' ∷ b'r' ∷ b'm' ∷ b'a' ∷ b'l' ∷ b' '
    ∷ b'#' ∷ b'0' ∷ b'a' ∷ b'0' ∷ b'B' ∷ b'0' ∷ b'c' ∷ b' ' ∷ b'-' ∷ b'\n' ∷ []

refuses_request : parse_input all_valid wrong_request ≡ request_refused 4 override_twice
unfolding parse_input
refuses_request = refl

abbrev request_read : DeriveInput
request_read = record {
  kind = light;
  colors_name = some (b'd' ∷ b'u' ∷ b's' ∷ b'k' ∷ []);
  terminal = none;
  groups =
      (
        b'N' ∷ b'o' ∷ b'r' ∷ b'm' ∷ b'a' ∷ b'l' ∷ [],
        some (record { red = 10; green = 11; blue = 12 }),
        none,
      )
      ∷ [];
  overrides = nothing_read.input.overrides;
  set_current = true;
}

accepts_request : parse_input all_valid right_request ≡ request_ok request_read
unfolding parse_input nothing_read
accepts_request = refl

parse_input-Blamed_example : Blamed (lines_of wrong_request) 4 override_twice
parse_input-Blamed_example =
    parse_input-Blamed all_valid wrong_request 4 override_twice refl refuses_request

parse_input-KindGiven_example : KindGiven light (lines_of right_request)
parse_input-KindGiven_example =
    parse_input-KindGiven all_valid right_request request_read refl accepts_request
