-- ===== src/Pool/Submit.antt =====
-- `auto_workers`, `resolve_workers` and the checks of `Pool::submit`, before it touches the shared
-- state. `&` with a mask is written by `%` and `/`.
use jupynvim.Prelude.{
  ℕ, ◌-◌, ◌/◌, ◌%◌, Bool, ◌&&◌, ◌||◌, not, Option, none, some, List, [], if◌then◌else◌, ◌==◌, leb,
  ltb, min, max,
}
use jupynvim.Abi.{einval, ekind, kind_nop, kind_fill, kind_palette, kind_palette_readable}
use jupynvim.Pool.{Input, borrowed, owned, Lane, visible, normal, background}

abbrev pub max_workers : ℕ
max_workers = 64

-- `cores.saturating_sub(1).clamp(1, 4)`.
unfoldable pub auto_workers : ℕ → ℕ
auto_workers cores = min 4 (max 1 (cores - 1))

-- `none` is the refusal. The cores are what the system reports.
unfoldable pub resolve_workers : ℕ → ℕ → Option ℕ
unfolding auto_workers
resolve_workers cores requested =
    if requested == 0
    then some (auto_workers cores)
    else if leb requested max_workers
    then some requested
    else none

-- `jobs::supported`.
unfoldable pub supported : ℕ → Bool
supported kind =
    (leb kind_nop kind && leb kind kind_fill)
    || (leb kind_palette kind && leb kind kind_palette_readable)

-- `flags & PRIO_MASK`, refused from `LANES` on.
unfoldable pub lane_of : ℕ → Option Lane
lane_of flags =
    let prio = flags % 4 in
    if prio == 0
    then some visible
    else if prio == 1
    then some normal
    else if prio == 2
    then some background
    else none

-- `flags & !(PRIO_MASK | FLAG_COPY) != 0`: a bit other than 0, 1 and 8 is set.
unfoldable pub stray_bits : ℕ → Bool
stray_bits flags = not (flags / 4 % 64 == 0) || not (flags / 512 == 0)

-- `flags & FLAG_COPY != 0`.
unfoldable pub wants_copy : ℕ → Bool
wants_copy flags = flags / 256 % 2 == 1

pub data Checked : Type 0 where
  accepted : Lane → Input → Checked
  refused : ℕ → Checked

-- The caller's memory, and whether an allocation of so many bytes succeeds.
module _ (memory : ℕ → ℕ → List ℕ) (room : ℕ → Bool) where
  -- `Input::as_slice`.
  unfoldable pub as_slice : Input → List ℕ
  as_slice (owned v) = v
  as_slice (borrowed p len) = if p == 0 then [] else memory p len

  -- The copy, or the borrow.
  unfoldable pub input_of : ℕ → ℕ → ℕ → Option Input
  unfolding wants_copy
  input_of flags ptr len =
      if wants_copy flags
      then if room len then some (owned (if len == 0 then [] else memory ptr len)) else none
      else some (borrowed ptr len)

  -- What the copy or the borrow gives.
  unfoldable pub took : Lane → Option Input → Checked
  took lane none = refused einval
  took lane (some i) = accepted lane i

  unfoldable pub check_lane : ℕ → ℕ → ℕ → ℕ → Option Lane → Checked
  unfolding stray_bits supported input_of took
  check_lane kind flags ptr len none = refused einval
  check_lane kind flags ptr len (some lane) =
      if stray_bits flags
      then refused einval
      else if ptr == 0 && ltb 0 len
      then refused einval
      else if not (supported kind)
      then refused ekind
      else took lane (input_of flags ptr len)

  -- `Pool::submit` up to the read of `closed`.
  unfoldable pub check : ℕ → ℕ → ℕ → ℕ → Checked
  unfolding lane_of check_lane
  check kind flags ptr len = check_lane kind flags ptr len (lane_of flags)
