-- ===== src/Pool/Accepts.antt =====
-- What `Pool::submit` accepts, and how many workers a pool has.
use jupynvim.Prelude.{
  ℕ, ◌+◌, ◌≤◌, ◌≡◌, ◌⊎◌, refl, Bool, true, false, Option, none, some, List, [], ◌∷◌, if_elim, ◌∙◌,
  ap, ◌==◌, length, arith, if◌then◌else◌,
}
use jupynvim.Pool.{Input, borrowed, owned, Lane, visible, normal, background}
use jupynvim.Pool.Submit.{
  resolve_workers, auto_workers, max_workers, supported, lane_of, stray_bits, wants_copy, accepted,
  as_slice, input_of, took, check_lane, check,
}

-- A pool has between one and 64 workers, the number asked for where that is given and at most four
-- where it is not.
pub resolve_workers-bounds :
    (cores requested n : ℕ)
    → resolve_workers cores requested ≡ some n
    → (1 ≤ n) × (n ≤ max_workers) × ((requested ≡ 0) × (n ≤ 4) ⊎ (n ≡ requested))
unfolding resolve_workers auto_workers
resolve_workers-bounds cores requested n h = ground arith

unfoldable pub lane_number : Lane → ℕ
lane_number visible = 0
lane_number normal = 1
lane_number background = 2

-- The two spellings of a lane's flags.
abbrev pub FlagsOf : Lane → ℕ → Type 0
FlagsOf l flags = (flags ≡ lane_number l) ⊎ (flags ≡ lane_number l + 256)

flags-split :
    (flags : ℕ) (l : Lane) → lane_of flags ≡ some l → stray_bits flags ≡ false → FlagsOf l flags
unfolding lane_of stray_bits lane_number
flags-split flags visible h s = ground arith
flags-split flags normal h s = ground arith
flags-split flags background h s = ground arith

lane_of-flags : (flags : ℕ) (l : Lane) → FlagsOf l flags → lane_of flags ≡ some l
unfolding lane_of lane_number
lane_of-flags flags visible f = ground arith
lane_of-flags flags normal f = ground arith
lane_of-flags flags background f = ground arith

no_stray-flags : (flags : ℕ) (l : Lane) → FlagsOf l flags → stray_bits flags ≡ false
unfolding stray_bits lane_number
no_stray-flags flags visible f = ground arith
no_stray-flags flags normal f = ground arith
no_stray-flags flags background f = ground arith

-- The bytes that the caller means: none at the null pointer.
abbrev pub caller_bytes : (ℕ → ℕ → List ℕ) → ℕ → ℕ → List ℕ
caller_bytes memory ptr len = if ptr == 0 then [] else memory ptr len

module _ (memory : ℕ → ℕ → List ℕ) (room : ℕ → Bool)
    (memory_length : (ptr len : ℕ) → length (memory ptr len) ≡ len) where
  length-caller_bytes :
      (ptr len : ℕ) → (ptr ≡ 0 → len ≡ 0) → length (caller_bytes memory ptr len) ≡ len
  length-caller_bytes ptr len null = ground (arith, memory_length ptr len)

  empty : (ptr : ℕ) → memory ptr 0 ≡ []
  empty ptr = go (memory ptr 0) (memory_length ptr 0)
    where
      go : (xs : List ℕ) → length xs ≡ 0 → xs ≡ []
      go [] h = refl
      go (x ∷ xs) h = absurd (ground arith)

  input_of-bytes :
      (flags ptr len : ℕ) (i : Input)
      → (ptr ≡ 0 → len ≡ 0)
      → input_of memory room flags ptr len ≡ some i
      → as_slice memory room i ≡ caller_bytes memory ptr len
  unfolding input_of as_slice
  input_of-bytes flags ptr len (owned v) null h = ground (arith, empty ptr)
  input_of-bytes flags ptr len (borrowed p n) null h = ground arith

  took-accepted :
      (lane l : Lane) (o : Option Input) (i : Input)
      → took memory room lane o ≡ accepted l i
      → (lane ≡ l) × (o ≡ some i)
  unfolding took
  took-accepted lane l none i h = absurd (ground arith)
  took-accepted lane l (some j) i h = ground arith

  check_lane-accepted :
      (kind flags ptr len : ℕ) (o : Option Lane) (l : Lane) (i : Input)
      → check_lane memory room kind flags ptr len o ≡ accepted l i
      → (o ≡ some l)
        × (stray_bits flags ≡ false)
        × (ptr ≡ 0 → len ≡ 0)
        × (supported kind ≡ true)
        × (input_of memory room flags ptr len ≡ some i)
  unfolding check_lane
  check_lane-accepted kind flags ptr len none l i h = absurd (ground arith)
  check_lane-accepted kind flags ptr len (some lane) l i h =
      ground (arith, took-accepted lane l (input_of memory room flags ptr len) i)

  -- What a submit accepts it means: the flags are those of its lane, with the copy bit or without,
  -- the kind is one that the library runs, and the job's input is the caller's `len` bytes, where
  -- the caller's memory holds `len` bytes at any pointer and length.
  pub check-accepted :
      (kind flags ptr len : ℕ) (l : Lane) (i : Input)
      → check memory room kind flags ptr len ≡ accepted l i
      → FlagsOf l flags
        × (supported kind ≡ true)
        × (as_slice memory room i ≡ caller_bytes memory ptr len)
        × (length (caller_bytes memory ptr len) ≡ len)
  unfolding check
  check-accepted kind flags ptr len l i h =
      let (lane, stray, null, kinds, given) =
        check_lane-accepted kind flags ptr len (lane_of flags) l i h in
      (
        flags-split flags l lane stray,
        kinds,
        input_of-bytes flags ptr len i null given,
        length-caller_bytes ptr len null,
      )

  input_of-some :
      (flags ptr len : ℕ)
      → room len ≡ true
      → (i : Input) × (input_of memory room flags ptr len ≡ some i)
  unfolding input_of
  input_of-some flags ptr len fits =
      if_elim (λ o. (i : Input) × (o ≡ some i)) (wants_copy flags)
        (if room len then some (owned (if len == 0 then [] else memory ptr len)) else none)
        (some (borrowed ptr len))
        (λ _. (owned (if len == 0 then [] else memory ptr len), rw fits refl))
        (λ _. (borrowed ptr len, refl))

  check_lane-input :
      (kind flags ptr len : ℕ) (l : Lane) (i : Input)
      → stray_bits flags ≡ false
      → supported kind ≡ true
      → (ptr ≡ 0 → len ≡ 0)
      → input_of memory room flags ptr len ≡ some i
      → check_lane memory room kind flags ptr len (some l) ≡ accepted l i
  unfolding check_lane took
  check_lane-input kind flags ptr len l i stray kinds null given =
      ground (arith, ap (λ o. took memory room l o) given)

  -- A submit is accepted, in the lane that its flags name, where the kind is one that the library
  -- runs, a null pointer comes with no length, and there is room for a copy.
  pub check-accepts :
      (kind flags ptr len : ℕ) (l : Lane)
      → FlagsOf l flags
      → supported kind ≡ true
      → (ptr ≡ 0 → len ≡ 0)
      → room len ≡ true
      → (i : Input) × (check memory room kind flags ptr len ≡ accepted l i)
  unfolding check
  check-accepts kind flags ptr len l f kinds null fits =
      let lane = lane_of-flags flags l f in
      let stray = no_stray-flags flags l f in
      let (i, given) = input_of-some flags ptr len fits in
      (
        i,
        ap (check_lane memory room kind flags ptr len) lane
            ∙ check_lane-input kind flags ptr len l i stray kinds null given,
      )
