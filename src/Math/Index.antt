-- ===== src/Math/Index.antt =====
-- core/native/src/mathgrammar/index.rs: `SegIndex`, whose questions go to the lists and walks of
-- `Lookahead` and keep their memos. What the environment index answers is a parameter.
pub mod Doubled
pub mod Runs
pub mod Walks
pub mod Right
pub mod Blanks
use jupynvim.Prelude.{
  ℕ, zero, suc, ◌+◌, ◌-◌, ◌≤◌, ◌<◌, ◌≡◌, Bool, true, false, ◌&&◌, ◌||◌, not, Option, none, some,
  List, [], ◌∷◌, if◌then◌else◌, ltb, leb, ◌==◌, length, get_elem?,
}
use jupynvim.Math.{Bytes}
use jupynvim.Math.Lookahead.{
  lower_bound, partition_point, build_b1, build_nn, build_runs, search_doubled, Walk, closed,
  gave_up, walk_direct,
}

-- The index of environments, `EnvIndex`: its state, the empty one, and the end of the environment
-- that a name opens at a place. That end lies after the place, in the segment.
pub record EnvIndex : Type 1 where
  pub Envs : Type 0
  pub fresh : Envs
  pub env_end : Envs → Bytes → ℕ → Bytes → Envs × Option ℕ
  pub env_end_inside :
      (m : Envs) (s : Bytes) (k : ℕ) (name : Bytes) (e : ℕ)
      → (env_end m s k name).1 ≡ some e
      → (k < e) × (e ≤ length s)

-- The memos of one closing character.
pub record Memo : Type 0 where
  pub dbl : Option (ℕ × Option ℕ)
  pub fail_from : ℕ
  pub fail_end : ℕ

unfoldable pub empty_memo : Memo
empty_memo = record { dbl = none; fail_from = 0; fail_end = 0 }

-- `SegIndex`, with the memos of the slots 0 and 1.
pub record SegIndex (E : EnvIndex) : Type 0 where
  pub b1_hint : ℕ
  pub nn_hint : ℕ
  pub memo0 : Memo
  pub memo1 : Memo
  pub envs : E.Envs

-- The byte that closes a round or a square opening one.
abbrev pub closing : Bool → ℕ
closing round = if round then b')' else b']'

-- `SegIndex::new`.
unfoldable pub new_index : (E : EnvIndex) → SegIndex E
unfolding empty_memo
new_index E = record {
  b1_hint = 0;
  nn_hint = 0;
  memo0 = empty_memo;
  memo1 = empty_memo;
  envs = E.fresh;
}

-- The memo of `slot(close)`.
unfoldable pub memo_of : {E : EnvIndex} → SegIndex E → ℕ → Memo
memo_of ix close = if close == b']' then ix.memo1 else ix.memo0

unfoldable pub set_memo : {E : EnvIndex} → SegIndex E → ℕ → Memo → SegIndex E
set_memo ix close m = if close == b']' then record ix { memo1 = m } else record ix { memo0 = m }

unfoldable pub ends_before : ℕ → Option (ℕ × ℕ) → Bool
ends_before to none = false
ends_before to (some (p, q)) = ltb q to

unfoldable pub b1_index : Bytes → ℕ → ℕ → ℕ
unfolding lower_bound build_b1
b1_index s hint from = lower_bound (λ pair. ltb pair.0 from) (build_b1 s) hint

-- `has_b1`.
unfoldable pub has_b1 : {E : EnvIndex} → Bytes → SegIndex E → ℕ → ℕ → SegIndex E × Bool
unfolding b1_index ends_before build_b1
has_b1 s ix from to =
    let i = b1_index s ix.b1_hint from in
    (record ix { b1_hint = i }, ends_before to (get_elem? (build_b1 s) i))

-- `nn_after`.
unfoldable pub nn_after : {E : EnvIndex} → Bytes → SegIndex E → ℕ → SegIndex E × Option ℕ
unfolding lower_bound build_nn
nn_after s ix r =
    let i = lower_bound (λ p. ltb p r) (build_nn s) ix.nn_hint in
    (record ix { nn_hint = i }, get_elem? (build_nn s) i)

unfoldable pub unless_from : ℕ → Option ℕ → Option ℕ
unless_from st none = some st
unless_from st (some p) = if leb p st then none else some st

-- The rest of `backtick_close`, which asks for the next blank line only when a run is there.
unfoldable pub close_at : {E : EnvIndex} → Bytes → SegIndex E → ℕ → Option ℕ → SegIndex E × Option ℕ
unfolding nn_after unless_from
close_at s ix r none = (ix, none)
close_at s ix r (some st) = let (next, p) = nn_after s ix r in (next, unless_from st p)

-- `backtick_close`.
unfoldable pub backtick_close : {E : EnvIndex} → Bytes → SegIndex E → ℕ → ℕ → SegIndex E × Option ℕ
unfolding close_at build_runs partition_point
backtick_close s ix r len =
    let starts = build_runs s len in
    close_at s ix r (get_elem? starts (partition_point (λ p. ltb p r) starts))

unfoldable pub reaches : ℕ → Option ℕ → Bool
reaches from none = true
reaches from (some e) = leb from e

-- The memo's answer, where it has one.
unfoldable pub recall : ℕ → Option (ℕ × Option ℕ) → Option (Option ℕ)
unfolding reaches
recall from none = none
recall from (some (searched, result)) =
    if leb searched from && reaches from result then some result else none

unfoldable pub doubled_answer :
    {E : EnvIndex} → Bytes → SegIndex E → ℕ → ℕ → Option (Option ℕ) → SegIndex E × Option ℕ
unfolding search_doubled memo_of set_memo
doubled_answer s ix from close none =
    let result = search_doubled s from close in
    (set_memo ix close (record (memo_of ix close) { dbl = some (from, result) }), result)
doubled_answer s ix from close (some result) = (ix, result)

-- `find_doubled_close`.
unfoldable pub find_doubled_close :
    {E : EnvIndex} → Bytes → SegIndex E → ℕ → ℕ → SegIndex E × Option ℕ
unfolding memo_of recall doubled_answer
find_doubled_close s ix from close =
    doubled_answer s ix from close (recall from (memo_of ix close).dbl)

unfoldable pub paren_answer : {E : EnvIndex} → SegIndex E → ℕ → ℕ → Walk → SegIndex E × Option ℕ
unfolding memo_of set_memo
paren_answer ix k close (closed found) = (ix, some found)
paren_answer ix k close (gave_up end) =
    (set_memo ix close (record (memo_of ix close) { fail_from = k; fail_end = end }), none)

-- `SegIndex::walk_paren`.
unfoldable pub walk_paren : {E : EnvIndex} → Bytes → SegIndex E → ℕ → ℕ → SegIndex E × Option ℕ
unfolding memo_of paren_answer walk_direct
walk_paren s ix k close =
    let m = memo_of ix close in
    if ltb m.fail_from k && ltb k m.fail_end
    then (ix, none)
    else paren_answer ix k close (walk_direct s (k + 2) close)

-- `SegIndex::env_end`.
unfoldable pub ask_env : (E : EnvIndex) → Bytes → SegIndex E → ℕ → Bytes → SegIndex E × Option ℕ
ask_env E s ix k name =
    let (m, found) = E.env_end ix.envs s k name in (record ix { envs = m }, found)
