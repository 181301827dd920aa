-- ===== src/Abi.antt =====
-- core/native/src/abi.rs: the numbers that libjupynvim shares with its callers.
use jupynvim.Prelude.{ℕ}

-- Status codes.
abbrev pub status_ok : ℕ
status_ok = 0

abbrev pub status_err : ℕ
status_err = 1

abbrev pub status_panic : ℕ
status_panic = 2

abbrev pub status_cancelled : ℕ
status_cancelled = 3

abbrev pub einval : ℕ
einval = 4

abbrev pub ekind : ℕ
ekind = 5

abbrev pub eshutdown : ℕ
eshutdown = 6

abbrev pub enojob : ℕ
enojob = 7

-- Job kinds.
abbrev pub kind_nop : ℕ
kind_nop = 1

abbrev pub kind_echo : ℕ
kind_echo = 2

abbrev pub kind_bytesum : ℕ
kind_bytesum = 3

abbrev pub kind_ptr : ℕ
kind_ptr = 4

abbrev pub kind_sleep : ℕ
kind_sleep = 5

abbrev pub kind_panic : ℕ
kind_panic = 6

abbrev pub kind_fill : ℕ
kind_fill = 7

abbrev pub kind_palette : ℕ
kind_palette = 2048

abbrev pub kind_palette_schema : ℕ
kind_palette_schema = 2049

abbrev pub kind_palette_readable : ℕ
kind_palette_readable = 2050
