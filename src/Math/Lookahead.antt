-- ===== src/Math/Lookahead.antt =====
-- core/native/src/mathgrammar/index.rs: the questions of the scan that look ahead for a closing
-- delimiter, with the memos and hints that make them fast. What the code builds on a question's
-- first use depends on the segment alone, and is built here where it is used.
pub mod Bound
use jupynvim.Prelude.{
  ℕ, zero, suc, ◌+◌, ◌-◌, ◌≤◌, ◌<◌, ◌≡◌, Bool, true, false, ◌&&◌, ◌||◌, not, Option, none, some,
  List, [], ◌∷◌, if◌then◌else◌, ltb, leb, ◌==◌, length, get_elem?, drop, take, min,
}
use jupynvim.Math.{Bytes, at, sub, run_length}
use jupynvim.Math.Delims.{quote_blank}

-- `partition_point` of a sorted slice: how many items it starts with for which `below` holds.
unfoldable pub partition_point {ℓ} : {A : Type ℓ} → (A → Bool) → List A → ℕ
partition_point below [] = 0
partition_point below (x ∷ xs) =
    let later = suc (partition_point below xs) in if below x then later else 0

unfoldable pub satisfies {ℓ} : {A : Type ℓ} → (A → Bool) → Option A → Bool
satisfies below none = false
satisfies below (some x) = below x

-- The loop of `lower_bound`, of at most so many steps.
unfoldable pub forward {ℓ} : {A : Type ℓ} → (A → Bool) → List A → ℕ → ℕ → ℕ
unfolding satisfies
forward below v zero i = i
forward below v (suc steps) i = elim (satisfies below (get_elem? v i)) [
  | true ↦ forward below v steps (suc i)
  | false ↦ i
]

-- `lower_bound`; the hint it leaves is its answer.
unfoldable pub lower_bound {ℓ} : {A : Type ℓ} → (A → Bool) → List A → ℕ → ℕ
unfolding partition_point satisfies forward
lower_bound below v hint =
    let i = min hint (length v) in
    let j = forward below v 8 i in
    if ltb 0 i && not (satisfies below (get_elem? v (i - 1)))
    then partition_point below (take i v)
    else if satisfies below (get_elem? v j)
    then j + partition_point below (drop j v)
    else j

-- From the newline at `p` on, the rest of the text starting at `i`: the newline pairs of `build_b1`.
unfoldable pub pairs_from : Bytes → ℕ → ℕ → Bytes → List (ℕ × ℕ)
unfolding quote_blank sub
pairs_from s p i [] = []
pairs_from s p i (b ∷ rest) =
    let skipped = pairs_from s p (suc i) rest in
    let later = pairs_from s i (suc i) rest in
    if b == b'\n'
    then (if quote_blank (sub s (p + 1) i) false then (p, i) ∷ later else later)
    else skipped

-- Up to the first newline.
unfoldable pub pairs_before : Bytes → ℕ → Bytes → List (ℕ × ℕ)
unfolding pairs_from
pairs_before s i [] = []
pairs_before s i (b ∷ rest) =
    let later = pairs_before s (suc i) rest in
    if b == b'\n' then pairs_from s i (suc i) rest else later

-- `build_b1`.
unfoldable pub build_b1 : Bytes → List (ℕ × ℕ)
unfolding pairs_before
build_b1 s = pairs_before s 0 s

unfoldable pub nn_from : ℕ → Bytes → List ℕ
unfolding at
nn_from i [] = []
nn_from i (b ∷ rest) =
    let later = nn_from (suc i) rest in
    if b == b'\n' && at rest 0 == b'\n' then i ∷ later else later

-- `build_nn`.
unfoldable pub build_nn : Bytes → List ℕ
unfolding nn_from
build_nn s = nn_from 0 s

-- The starts of the runs of `len` backticks, where `run` of them stand before place `i`.
unfoldable pub starts_from : ℕ → ℕ → ℕ → Bytes → List ℕ
starts_from len run i [] = if not (run == 0) && run == len then (i - run) ∷ [] else []
starts_from len run i (b ∷ rest) =
    let in_run = starts_from len (suc run) (suc i) rest in
    let later = starts_from len 0 (suc i) rest in
    if b == b'`' then in_run else if not (run == 0) && run == len then (i - run) ∷ later else later

-- `runs.get(&len)` of the map of `build_runs`, with no starts for a length it does not hold.
unfoldable pub build_runs : Bytes → ℕ → List ℕ
unfolding starts_from
build_runs s len = starts_from len 0 0 s

unfoldable pub doubled_from : ℕ → ℕ → Bytes → Option ℕ
unfolding at
doubled_from close i [] = none
doubled_from close i (b ∷ rest) = elim (b == b'\\' && at rest 0 == b'\\' && at rest 1 == close) [
  | true ↦ some i
  | false ↦ doubled_from close (suc i) rest
]

-- `search_doubled`.
unfoldable pub search_doubled : Bytes → ℕ → ℕ → Option ℕ
unfolding doubled_from
search_doubled s from close =
    if leb from (length s) then doubled_from close from (drop from s) else none

-- The result of `walk_paren`.
pub data Walk : Type 0 where
  closed : ℕ → Walk
  gave_up : ℕ → Walk

-- `walk_paren`, in at most so many rounds.
unfoldable pub walk_from : ℕ → Bytes → ℕ → ℕ → Walk
unfolding at
walk_from zero s close j = gave_up (length s)
walk_from (suc f) s close j = elim (ltb j (length s)) [
  | false ↦ gave_up (length s)
  | true ↦ elim (at s j == b'\n' && at s (j + 1) == b'\n') [
    | true ↦ gave_up j
    | false ↦ elim (at s j == b'\\') [
      | true ↦ elim (at s (j + 1) == close) [
        | true ↦ closed j
        | false ↦ walk_from f s close (j + 2)
      ]
      | false ↦ walk_from f s close (j + 1)
    ]
  ]
]

unfoldable pub walk_direct : Bytes → ℕ → ℕ → Walk
unfolding walk_from
walk_direct s from close = walk_from (length s) s close from
