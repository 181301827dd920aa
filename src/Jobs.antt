-- ===== src/Jobs.antt =====
-- core/native/src/jobs.rs: what a worker runs for a kind. Bytes are numbers below 256. A message of
-- the code is a constructor with what the code formats into it. The system's answers (room for an
-- allocation, the clock, the cancel flag, the address of the input) and the palette's functions are
-- arguments.
pub mod Words
pub mod Fill
pub mod Sleep
mod Tests
use jupynvim.Prelude.{
  ℕ, zero, suc, ◌+◌, ◌-◌, ◌*◌, ◌/◌, ◌%◌, ◌^◌, min, Bool, true, false, ◌&&◌, ◌||◌, not, ◌⊎◌, inl,
  inr, Option, none, some, List, [], ◌∷◌, ◌++◌, if◌then◌else◌, leb, ltb, ◌==◌, length, take,
}
use jupynvim.Abi.{
  kind_nop, kind_echo, kind_bytesum, kind_ptr, kind_sleep, kind_panic, kind_fill, kind_palette,
  kind_palette_schema, kind_palette_readable,
}

-- The text of a `JobErr::Err`.
pub data Message : Type 0 where
  no_room_copying : ℕ → Message
  sleep_wants_4 : Message
  fill_wants_8 : Message
  fill_too_long : ℕ → Message
  no_room_making : ℕ → Message
  palette_error : List ℕ → Message
  unknown_kind : ℕ → Message

pub data JobErr : Type 0 where
  err : Message → JobErr
  cancelled : JobErr

-- How `run` ends: a result, an error, or the panic of the kind that panics.
pub data Ended : Type 0 where
  ok : Option (List ℕ) → Ended
  fails : JobErr → Ended
  panics : List ℕ → Ended

abbrev pub fill_max : ℕ
fill_max = 2 ^ 30

abbrev pub u32_max : ℕ
u32_max = 2 ^ 32 - 1

-- The nanoseconds of a millisecond, the unit of `Duration`.
abbrev pub milli : ℕ
milli = 1_000_000

-- `to_le_bytes` of a word of so many bytes, and `from_le_bytes`.
unfoldable pub to_le : ℕ → ℕ → List ℕ
to_le zero n = []
to_le (suc k) n = n % 256 ∷ to_le k (n / 256)

unfoldable pub from_le : List ℕ → ℕ
from_le [] = 0
from_le (b ∷ rest) = b + 256 * from_le rest

-- The fold of `KIND_BYTESUM`.
unfoldable pub byte_sum : ℕ → List ℕ → ℕ
byte_sum a [] = a
byte_sum a (b ∷ rest) = byte_sum ((a + b) % 2 ^ 64) rest

unfoldable pub copy_of : (ℕ → Bool) → List ℕ → Ended
copy_of room input =
    if room (length input) then ok (some input) else fails (err (no_room_copying (length input)))

-- One look at the world by the loop of `sleep`: the cancel flag, and what the time since its start is
-- after a `thread::sleep`, by that time before it and by the length asked for.
pub record Look : Type 0 where
  pub cancel : Bool
  pub wakes : ℕ → ℕ → ℕ

-- The length of the next pause: `slice.min(total - slept)`.
unfoldable pub pause : ℕ → ℕ → ℕ
pause total slept = min milli (total - slept)

-- The loop of `sleep` in so many rounds, `none` where they do not suffice: the time slept, or a
-- cancel.
unfoldable pub sleep_loop : (ℕ → Look) → ℕ → ℕ → ℕ → ℕ → Option (Option ℕ)
unfolding pause
sleep_loop looks total zero i slept = if ltb slept total then none else some (some slept)
sleep_loop looks total (suc rounds) i slept = elim (ltb slept total) [
  | false ↦ some (some slept)
  | true ↦ elim (looks i).cancel [
    | true ↦ some none
    | false ↦ sleep_loop looks total rounds (suc i) ((looks i).wakes slept (pause total slept))
  ]
]

unfoldable pub slept_result : Option (Option ℕ) → Option Ended
unfolding to_le
slept_result none = none
slept_result (some none) = some (fails cancelled)
slept_result (some (some slept)) = some (ok (some (to_le 4 (min u32_max (slept / milli)))))

unfoldable pub sleep : (ℕ → Look) → ℕ → List ℕ → Option Ended
unfolding from_le sleep_loop slept_result
sleep looks rounds input =
    if length input == 4
    then slept_result (sleep_loop looks (from_le input * milli) rounds 0 0)
    else some (fails (err sleep_wants_4))

-- The bytes from `i` on of the array `period` and of its repetition.
unfoldable pub bytes_from : ℕ → ℕ → List ℕ
bytes_from i zero = []
bytes_from i (suc k) = i % 251 ∷ bytes_from (suc i) k

-- The loop of `fill` in so many rounds, `none` where they do not suffice.
unfoldable pub fill_loop : ℕ → ℕ → List ℕ → Option (List ℕ)
fill_loop n zero v = if ltb (length v) n then none else some v
fill_loop n (suc rounds) v = elim (ltb (length v) n) [
  | false ↦ some v
  | true ↦ fill_loop n rounds (v ++ take (min (length v) (n - length v)) v)
]

unfoldable pub filled : Option (List ℕ) → Option Ended
filled none = none
filled (some v) = some (ok (some v))

unfoldable pub fill_to : (ℕ → Bool) → ℕ → ℕ → Option Ended
unfolding bytes_from fill_loop filled
fill_to room rounds n =
    if ltb fill_max n
    then some (fails (err (fill_too_long n)))
    else if not (room n)
    then some (fails (err (no_room_making n)))
    else filled (fill_loop n rounds (take (min n 251) (bytes_from 0 251)))

unfoldable pub fill : (ℕ → Bool) → ℕ → List ℕ → Option Ended
unfolding from_le fill_to
fill room rounds input =
    if length input == 8
    then fill_to room rounds (from_le input)
    else some (fails (err fill_wants_8))

-- A palette function's result as `map_err` and `map` turn it into the job's.
palette_result : List ℕ ⊎ List ℕ → Ended
palette_result (inl text) = fails (err (palette_error text))
palette_result (inr v) = ok (some v)

-- What `run` uses of the system and of the palette.
pub record Host : Type 0 where
  pub room : ℕ → Bool
  pub looks : ℕ → Look
  pub address : ℕ
  pub derive : List ℕ → List ℕ ⊎ List ℕ
  pub schema : List ℕ
  pub readable : List ℕ → List ℕ ⊎ List ℕ

-- `run`; `none` where the rounds do not suffice for a loop.
unfoldable pub run : Host → ℕ → ℕ → List ℕ → Option Ended
unfolding copy_of byte_sum to_le sleep fill palette_result
run h rounds kind input =
    if kind == kind_nop
    then some (ok none)
    else if kind == kind_echo
    then some (copy_of h.room input)
    else if kind == kind_bytesum
    then some (ok (some (to_le 8 (byte_sum 0 input))))
    else if kind == kind_ptr
    then some (ok (some (to_le 8 h.address)))
    else if kind == kind_sleep
    then sleep h.looks rounds input
    else if kind == kind_panic
    then some (panics input)
    else if kind == kind_fill
    then fill h.room rounds input
    else if kind == kind_palette
    then some (palette_result (h.derive input))
    else if kind == kind_palette_schema
    then some (ok (some h.schema))
    else if kind == kind_palette_readable
    then some (palette_result (h.readable input))
    else some (fails (err (unknown_kind kind)))
