-- ===== src/Palette/Names.antt =====
-- core/native/src/palette/rules.rs: the names of the highlight groups and of the tokens.
use jupynvim.Prelude.{List, [], ◌∷◌}
use jupynvim.Math.{Bytes}

-- `GROUPS`.
abbrev pub group_names : List Bytes
group_names =
    (b'N' ∷ b'o' ∷ b'r' ∷ b'm' ∷ b'a' ∷ b'l' ∷ [])
    ∷ (b'C' ∷ b'o' ∷ b'm' ∷ b'm' ∷ b'e' ∷ b'n' ∷ b't' ∷ [])
    ∷ (b'@' ∷ b'c' ∷ b'o' ∷ b'm' ∷ b'm' ∷ b'e' ∷ b'n' ∷ b't' ∷ [])
    ∷ (b'R' ∷ b'e' ∷ b'n' ∷ b'd' ∷ b'e' ∷ b'r' ∷ b'M' ∷ b'a' ∷ b'r' ∷ b'k' ∷ b'd' ∷ b'o' ∷ b'w'
        ∷ b'n' ∷ b'C' ∷ b'o' ∷ b'd' ∷ b'e' ∷ [])
    ∷ (b'@' ∷ b'm' ∷ b'a' ∷ b'r' ∷ b'k' ∷ b'u' ∷ b'p' ∷ b'.' ∷ b'r' ∷ b'a' ∷ b'w' ∷ b'.' ∷ b'b'
        ∷ b'l' ∷ b'o' ∷ b'c' ∷ b'k' ∷ [])
    ∷ (b'M' ∷ b'a' ∷ b'r' ∷ b'k' ∷ b'v' ∷ b'i' ∷ b'e' ∷ b'w' ∷ b'C' ∷ b'o' ∷ b'd' ∷ b'e' ∷ [])
    ∷ (b'm' ∷ b'a' ∷ b'r' ∷ b'k' ∷ b'd' ∷ b'o' ∷ b'w' ∷ b'n' ∷ b'C' ∷ b'o' ∷ b'd' ∷ b'e' ∷ b'B'
        ∷ b'l' ∷ b'o' ∷ b'c' ∷ b'k' ∷ [])
    ∷ (b'N' ∷ b'o' ∷ b'r' ∷ b'm' ∷ b'a' ∷ b'l' ∷ b'F' ∷ b'l' ∷ b'o' ∷ b'a' ∷ b't' ∷ [])
    ∷ (b'C' ∷ b'u' ∷ b'r' ∷ b's' ∷ b'o' ∷ b'r' ∷ b'L' ∷ b'i' ∷ b'n' ∷ b'e' ∷ [])
    ∷ (b'@' ∷ b'm' ∷ b'a' ∷ b'r' ∷ b'k' ∷ b'u' ∷ b'p' ∷ b'.' ∷ b'r' ∷ b'a' ∷ b'w' ∷ b'.' ∷ b'm'
        ∷ b'a' ∷ b'r' ∷ b'k' ∷ b'd' ∷ b'o' ∷ b'w' ∷ b'n' ∷ b'_' ∷ b'i' ∷ b'n' ∷ b'l' ∷ b'i' ∷ b'n'
        ∷ b'e' ∷ [])
    ∷ (b'R' ∷ b'e' ∷ b'n' ∷ b'd' ∷ b'e' ∷ b'r' ∷ b'M' ∷ b'a' ∷ b'r' ∷ b'k' ∷ b'd' ∷ b'o' ∷ b'w'
        ∷ b'n' ∷ b'C' ∷ b'o' ∷ b'd' ∷ b'e' ∷ b'I' ∷ b'n' ∷ b'l' ∷ b'i' ∷ b'n' ∷ b'e' ∷ [])
    ∷ (b'@' ∷ b'm' ∷ b'a' ∷ b'r' ∷ b'k' ∷ b'u' ∷ b'p' ∷ b'.' ∷ b'q' ∷ b'u' ∷ b'o' ∷ b't' ∷ b'e'
        ∷ [])
    ∷ (b'R' ∷ b'e' ∷ b'n' ∷ b'd' ∷ b'e' ∷ b'r' ∷ b'M' ∷ b'a' ∷ b'r' ∷ b'k' ∷ b'd' ∷ b'o' ∷ b'w'
        ∷ b'n' ∷ b'Q' ∷ b'u' ∷ b'o' ∷ b't' ∷ b'e' ∷ [])
    ∷ (b'm' ∷ b'a' ∷ b'r' ∷ b'k' ∷ b'd' ∷ b'o' ∷ b'w' ∷ b'n' ∷ b'B' ∷ b'l' ∷ b'o' ∷ b'c' ∷ b'k'
        ∷ b'q' ∷ b'u' ∷ b'o' ∷ b't' ∷ b'e' ∷ [])
    ∷ (b'@' ∷ b'm' ∷ b'a' ∷ b'r' ∷ b'k' ∷ b'u' ∷ b'p' ∷ b'.' ∷ b'h' ∷ b'e' ∷ b'a' ∷ b'd' ∷ b'i'
        ∷ b'n' ∷ b'g' ∷ b'.' ∷ b'1' ∷ [])
    ∷ (b'@' ∷ b'm' ∷ b'a' ∷ b'r' ∷ b'k' ∷ b'u' ∷ b'p' ∷ b'.' ∷ b'h' ∷ b'e' ∷ b'a' ∷ b'd' ∷ b'i'
        ∷ b'n' ∷ b'g' ∷ [])
    ∷ (b'T' ∷ b'i' ∷ b't' ∷ b'l' ∷ b'e' ∷ [])
    ∷ (b'F' ∷ b'u' ∷ b'n' ∷ b'c' ∷ b't' ∷ b'i' ∷ b'o' ∷ b'n' ∷ [])
    ∷ (b'@' ∷ b'm' ∷ b'a' ∷ b'r' ∷ b'k' ∷ b'u' ∷ b'p' ∷ b'.' ∷ b'm' ∷ b'a' ∷ b't' ∷ b'h' ∷ [])
    ∷ (b'@' ∷ b'm' ∷ b'a' ∷ b'r' ∷ b'k' ∷ b'u' ∷ b'p' ∷ b'.' ∷ b'l' ∷ b'i' ∷ b'n' ∷ b'k' ∷ b'.'
        ∷ b'u' ∷ b'r' ∷ b'l' ∷ [])
    ∷ (b'@' ∷ b'm' ∷ b'a' ∷ b'r' ∷ b'k' ∷ b'u' ∷ b'p' ∷ b'.' ∷ b'l' ∷ b'i' ∷ b'n' ∷ b'k' ∷ [])
    ∷ (b'm' ∷ b'a' ∷ b'r' ∷ b'k' ∷ b'd' ∷ b'o' ∷ b'w' ∷ b'n' ∷ b'U' ∷ b'r' ∷ b'l' ∷ [])
    ∷ (b'U' ∷ b'n' ∷ b'd' ∷ b'e' ∷ b'r' ∷ b'l' ∷ b'i' ∷ b'n' ∷ b'e' ∷ b'd' ∷ [])
    ∷ (b'D' ∷ b'i' ∷ b'r' ∷ b'e' ∷ b'c' ∷ b't' ∷ b'o' ∷ b'r' ∷ b'y' ∷ [])
    ∷ (b'@' ∷ b'm' ∷ b'a' ∷ b'r' ∷ b'k' ∷ b'u' ∷ b'p' ∷ b'.' ∷ b'r' ∷ b'a' ∷ b'w' ∷ [])
    ∷ (b'm' ∷ b'a' ∷ b'r' ∷ b'k' ∷ b'd' ∷ b'o' ∷ b'w' ∷ b'n' ∷ b'C' ∷ b'o' ∷ b'd' ∷ b'e' ∷ [])
    ∷ (b'@' ∷ b'm' ∷ b'a' ∷ b'r' ∷ b'k' ∷ b'u' ∷ b'p' ∷ b'.' ∷ b'l' ∷ b'i' ∷ b's' ∷ b't' ∷ b'.'
        ∷ b'c' ∷ b'h' ∷ b'e' ∷ b'c' ∷ b'k' ∷ b'e' ∷ b'd' ∷ [])
    ∷ (b'R' ∷ b'e' ∷ b'n' ∷ b'd' ∷ b'e' ∷ b'r' ∷ b'M' ∷ b'a' ∷ b'r' ∷ b'k' ∷ b'd' ∷ b'o' ∷ b'w'
        ∷ b'n' ∷ b'C' ∷ b'h' ∷ b'e' ∷ b'c' ∷ b'k' ∷ b'e' ∷ b'd' ∷ [])
    ∷ (b'@' ∷ b'm' ∷ b'a' ∷ b'r' ∷ b'k' ∷ b'u' ∷ b'p' ∷ b'.' ∷ b'l' ∷ b'i' ∷ b's' ∷ b't' ∷ b'.'
        ∷ b'u' ∷ b'n' ∷ b'c' ∷ b'h' ∷ b'e' ∷ b'c' ∷ b'k' ∷ b'e' ∷ b'd' ∷ [])
    ∷ (b'R' ∷ b'e' ∷ b'n' ∷ b'd' ∷ b'e' ∷ b'r' ∷ b'M' ∷ b'a' ∷ b'r' ∷ b'k' ∷ b'd' ∷ b'o' ∷ b'w'
        ∷ b'n' ∷ b'U' ∷ b'n' ∷ b'c' ∷ b'h' ∷ b'e' ∷ b'c' ∷ b'k' ∷ b'e' ∷ b'd' ∷ [])
    ∷ (b'D' ∷ b'i' ∷ b'a' ∷ b'g' ∷ b'n' ∷ b'o' ∷ b's' ∷ b't' ∷ b'i' ∷ b'c' ∷ b'I' ∷ b'n' ∷ b'f'
        ∷ b'o' ∷ [])
    ∷ (b'D' ∷ b'i' ∷ b'a' ∷ b'g' ∷ b'n' ∷ b'o' ∷ b's' ∷ b't' ∷ b'i' ∷ b'c' ∷ b'H' ∷ b'i' ∷ b'n'
        ∷ b't' ∷ [])
    ∷ (b'S' ∷ b't' ∷ b'a' ∷ b't' ∷ b'e' ∷ b'm' ∷ b'e' ∷ b'n' ∷ b't' ∷ [])
    ∷ (b'D' ∷ b'i' ∷ b'a' ∷ b'g' ∷ b'n' ∷ b'o' ∷ b's' ∷ b't' ∷ b'i' ∷ b'c' ∷ b'W' ∷ b'a' ∷ b'r'
        ∷ b'n' ∷ [])
    ∷ (b'D' ∷ b'i' ∷ b'a' ∷ b'g' ∷ b'n' ∷ b'o' ∷ b's' ∷ b't' ∷ b'i' ∷ b'c' ∷ b'E' ∷ b'r' ∷ b'r'
        ∷ b'o' ∷ b'r' ∷ [])
    ∷ (b'D' ∷ b'i' ∷ b'a' ∷ b'g' ∷ b'n' ∷ b'o' ∷ b's' ∷ b't' ∷ b'i' ∷ b'c' ∷ b'O' ∷ b'k' ∷ [])
    ∷ (b'P' ∷ b'm' ∷ b'e' ∷ b'n' ∷ b'u' ∷ b'S' ∷ b'e' ∷ b'l' ∷ [])
    ∷ []

-- `NAMES`, in the order of `Token`.
abbrev pub token_names : List Bytes
token_names =
    (b'c' ∷ b'a' ∷ b'n' ∷ b'v' ∷ b'a' ∷ b's' ∷ [])
    ∷ (b't' ∷ b'e' ∷ b'x' ∷ b't' ∷ [])
    ∷ (b't' ∷ b'e' ∷ b'x' ∷ b't' ∷ b'_' ∷ b'm' ∷ b'u' ∷ b't' ∷ b'e' ∷ b'd' ∷ [])
    ∷ (b'c' ∷ b'o' ∷ b'm' ∷ b'm' ∷ b'e' ∷ b'n' ∷ b't' ∷ [])
    ∷ (b'f' ∷ b'i' ∷ b'l' ∷ b'l' ∷ [])
    ∷ (b'l' ∷ b'i' ∷ b'f' ∷ b't' ∷ b'e' ∷ b'd' ∷ [])
    ∷ (b'e' ∷ b'd' ∷ b'g' ∷ b'e' ∷ [])
    ∷ (b't' ∷ b'r' ∷ b'a' ∷ b'c' ∷ b'k' ∷ [])
    ∷ (b't' ∷ b'h' ∷ b'u' ∷ b'm' ∷ b'b' ∷ [])
    ∷ (b'a' ∷ b'c' ∷ b'c' ∷ b'e' ∷ b'n' ∷ b't' ∷ [])
    ∷ (b'h' ∷ b'e' ∷ b'a' ∷ b'd' ∷ b'i' ∷ b'n' ∷ b'g' ∷ b'_' ∷ b'h' ∷ b'1' ∷ b'_' ∷ b'h' ∷ b'3'
        ∷ [])
    ∷ (b'h' ∷ b'e' ∷ b'a' ∷ b'd' ∷ b'i' ∷ b'n' ∷ b'g' ∷ b'_' ∷ b'h' ∷ b'4' ∷ b'_' ∷ b'h' ∷ b'5'
        ∷ [])
    ∷ (b'h' ∷ b'e' ∷ b'a' ∷ b'd' ∷ b'i' ∷ b'n' ∷ b'g' ∷ b'_' ∷ b'h' ∷ b'6' ∷ [])
    ∷ (b'm' ∷ b'a' ∷ b't' ∷ b'h' ∷ [])
    ∷ (b'l' ∷ b'i' ∷ b'n' ∷ b'k' ∷ [])
    ∷ (b'i' ∷ b'n' ∷ b'l' ∷ b'i' ∷ b'n' ∷ b'e' ∷ b'_' ∷ b'c' ∷ b'o' ∷ b'd' ∷ b'e' ∷ b'_' ∷ b'f'
        ∷ b'g' ∷ [])
    ∷ (b'i' ∷ b'n' ∷ b'l' ∷ b'i' ∷ b'n' ∷ b'e' ∷ b'_' ∷ b'c' ∷ b'o' ∷ b'd' ∷ b'e' ∷ b'_' ∷ b'b'
        ∷ b'g' ∷ [])
    ∷ (b't' ∷ b'a' ∷ b's' ∷ b'k' ∷ b'_' ∷ b'c' ∷ b'h' ∷ b'e' ∷ b'c' ∷ b'k' ∷ b'e' ∷ b'd' ∷ [])
    ∷ (b't' ∷ b'a' ∷ b's' ∷ b'k' ∷ b'_' ∷ b'u' ∷ b'n' ∷ b'c' ∷ b'h' ∷ b'e' ∷ b'c' ∷ b'k' ∷ b'e'
        ∷ b'd' ∷ [])
    ∷ (b'a' ∷ b'l' ∷ b'e' ∷ b'r' ∷ b't' ∷ b'_' ∷ b'n' ∷ b'o' ∷ b't' ∷ b'e' ∷ [])
    ∷ (b'a' ∷ b'l' ∷ b'e' ∷ b'r' ∷ b't' ∷ b'_' ∷ b't' ∷ b'i' ∷ b'p' ∷ [])
    ∷ (b'a' ∷ b'l' ∷ b'e' ∷ b'r' ∷ b't' ∷ b'_' ∷ b'i' ∷ b'm' ∷ b'p' ∷ b'o' ∷ b'r' ∷ b't' ∷ b'a'
        ∷ b'n' ∷ b't' ∷ [])
    ∷ (b'a' ∷ b'l' ∷ b'e' ∷ b'r' ∷ b't' ∷ b'_' ∷ b'w' ∷ b'a' ∷ b'r' ∷ b'n' ∷ b'i' ∷ b'n' ∷ b'g'
        ∷ [])
    ∷ (b'a' ∷ b'l' ∷ b'e' ∷ b'r' ∷ b't' ∷ b'_' ∷ b'c' ∷ b'a' ∷ b'u' ∷ b't' ∷ b'i' ∷ b'o' ∷ b'n'
        ∷ [])
    ∷ (b'o' ∷ b'k' ∷ [])
    ∷ (b'i' ∷ b'n' ∷ b'f' ∷ b'o' ∷ [])
    ∷ (b'w' ∷ b'a' ∷ b'r' ∷ b'n' ∷ [])
    ∷ (b'e' ∷ b'r' ∷ b'r' ∷ b'o' ∷ b'r' ∷ [])
    ∷ (b's' ∷ b'e' ∷ b'l' ∷ b'e' ∷ b'c' ∷ b't' ∷ b'i' ∷ b'o' ∷ b'n' ∷ b'_' ∷ b'b' ∷ b'o' ∷ b'r'
        ∷ b'd' ∷ b'e' ∷ b'r' ∷ b'_' ∷ b'c' ∷ b'o' ∷ b'm' ∷ b'm' ∷ b'a' ∷ b'n' ∷ b'd' ∷ [])
    ∷ (b's' ∷ b'e' ∷ b'l' ∷ b'e' ∷ b'c' ∷ b't' ∷ b'i' ∷ b'o' ∷ b'n' ∷ b'_' ∷ b'b' ∷ b'o' ∷ b'r'
        ∷ b'd' ∷ b'e' ∷ b'r' ∷ b'_' ∷ b'e' ∷ b'd' ∷ b'i' ∷ b't' ∷ [])
    ∷ (b's' ∷ b'e' ∷ b'l' ∷ b'e' ∷ b'c' ∷ b't' ∷ b'e' ∷ b'd' ∷ b'_' ∷ b'b' ∷ b'g' ∷ [])
    ∷ (b'm' ∷ b'a' ∷ b'r' ∷ b'k' ∷ b'_' ∷ b'b' ∷ b'g' ∷ [])
    ∷ (b'k' ∷ b'b' ∷ b'd' ∷ b'_' ∷ b'b' ∷ b'g' ∷ [])
    ∷ (b'k' ∷ b'b' ∷ b'd' ∷ b'_' ∷ b'b' ∷ b'o' ∷ b'r' ∷ b'd' ∷ b'e' ∷ b'r' ∷ [])
    ∷ (b'q' ∷ b'u' ∷ b'o' ∷ b't' ∷ b'e' ∷ b'_' ∷ b'b' ∷ b'a' ∷ b'r' ∷ [])
    ∷ []
