-- ===== src/Math/Index/Right.antt =====
-- core/native/src/mathgrammar/index.rs: with its memos, the index answers what a search without them
-- answers.
use jupynvim.Prelude.{
  ℕ, ◌+◌, ◌<◌, ◌≡◌, refl, sym, ap, ◌⊎◌, inl, inr, Bool, true, false, ◌&&◌, Option, none, some, ltb,
  arith, if_elim,
}
use jupynvim.Math.{Bytes, at}
use jupynvim.Math.Lookahead.{Walk, closed, gave_up, walk_direct, search_doubled}
use jupynvim.Math.Index.{
  EnvIndex, Memo, SegIndex, closing, memo_of, set_memo, recall, doubled_answer, find_doubled_close,
  paren_answer, walk_paren, new_index, empty_memo,
}
use jupynvim.Math.Index.Doubled.{search_doubled-later}
use jupynvim.Math.Index.Walks.{opens, walk_direct-later}

-- What the memo of the last search says is what that search finds.
unfoldable pub DoubledRight : Bytes → ℕ → Option (ℕ × Option ℕ) → Type 0
DoubledRight s close none = Unit
DoubledRight s close (some (from, result)) = search_doubled s from close ≡ result

-- What the memo of the last failed walk says: none failed, or that walk gave up there.
unfoldable pub FailRight : Bytes → ℕ → ℕ → ℕ → Type 0
FailRight s close k e = (e ≡ 0) ⊎ (walk_direct s (k + 2) close ≡ gave_up e)

unfoldable pub MemoRight : Bytes → ℕ → Memo → Type 0
unfolding DoubledRight FailRight
MemoRight s close m = DoubledRight s close m.dbl × FailRight s close m.fail_from m.fail_end

-- The memos of an index hold for its segment.
unfoldable pub IndexRight : {E : EnvIndex} → Bytes → SegIndex E → Type 0
unfolding MemoRight
IndexRight s ix = MemoRight s b')' ix.memo0 × MemoRight s b']' ix.memo1

pub new_index-IndexRight : (E : EnvIndex) (s : Bytes) → IndexRight s (new_index E)
unfolding IndexRight MemoRight DoubledRight FailRight new_index empty_memo
new_index-IndexRight E s = ((tt, inl refl), (tt, inl refl))

memo_of-MemoRight :
    {E : EnvIndex} (s : Bytes) (ix : SegIndex E) (round : Bool)
    → IndexRight s ix
    → MemoRight s (closing round) (memo_of ix (closing round))
unfolding IndexRight memo_of
memo_of-MemoRight s ix true (h, k) = h
memo_of-MemoRight s ix false (h, k) = k

set_memo-IndexRight :
    {E : EnvIndex} (s : Bytes) (ix : SegIndex E) (round : Bool) (m : Memo)
    → IndexRight s ix
    → MemoRight s (closing round) m
    → IndexRight s (set_memo ix (closing round) m)
unfolding IndexRight set_memo
set_memo-IndexRight s ix true m (h, k) r = (r, k)
set_memo-IndexRight s ix false m (h, k) r = (h, r)

pub closing-positive : (round : Bool) → 0 < closing round
closing-positive true = omega arith
closing-positive false = omega arith

recall-Right :
    (s : Bytes) (from : ℕ) (round : Bool) (dbl : Option (ℕ × Option ℕ)) (result : Option ℕ)
    → DoubledRight s (closing round) dbl
    → recall from dbl ≡ some result
    → result ≡ search_doubled s from (closing round)
unfolding DoubledRight recall
recall-Right s from round none result h r = ground arith
recall-Right s from round (some (searched, found)) result h r =
    ground (arith, search_doubled-later s searched from (closing round) (closing-positive round))

doubled_answer-Right :
    {E : EnvIndex} (s : Bytes) (ix : SegIndex E) (from : ℕ) (round : Bool) (o : Option (Option ℕ))
    → ((result : Option ℕ) → o ≡ some result → result ≡ search_doubled s from (closing round))
    → IndexRight s ix
    → IndexRight s (doubled_answer s ix from (closing round) o).0
      × ((doubled_answer s ix from (closing round) o).1 ≡ search_doubled s from (closing round))
unfolding doubled_answer MemoRight DoubledRight
doubled_answer-Right s ix from round none h right =
    let (_, fails) = memo_of-MemoRight s ix round right in
    (set_memo-IndexRight s ix round _ right (refl, fails), refl)
doubled_answer-Right s ix from round (some result) h right = (right, h result refl)

-- Whatever was asked before, the index finds the doubled closing delimiter that a search from the
-- asked place on finds, and its memos stay right.
pub find_doubled_close-Right :
    {E : EnvIndex} (s : Bytes) (ix : SegIndex E) (from : ℕ) (round : Bool)
    → IndexRight s ix
    → IndexRight s (find_doubled_close s ix from (closing round)).0
      × ((find_doubled_close s ix from (closing round)).1 ≡ search_doubled s from (closing round))
unfolding find_doubled_close MemoRight
find_doubled_close-Right s ix from round right =
    let (doubled, _) = memo_of-MemoRight s ix round right in
    doubled_answer-Right s ix from round _
      (λ result. recall-Right s from round (memo_of ix (closing round)).dbl result doubled) right

-- The answer of a walk.
abbrev pub walk_answer : Walk → Option ℕ
walk_answer (closed found) = some found
walk_answer (gave_up end) = none

paren_answer-Right :
    {E : EnvIndex} (s : Bytes) (ix : SegIndex E) (k : ℕ) (round : Bool) (w : Walk)
    → walk_direct s (k + 2) (closing round) ≡ w
    → IndexRight s ix
    → IndexRight s (paren_answer ix k (closing round) w).0
      × ((paren_answer ix k (closing round) w).1 ≡ walk_answer w)
unfolding paren_answer MemoRight FailRight
paren_answer-Right s ix k round (closed found) h right = (right, refl)
paren_answer-Right s ix k round (gave_up end) h right =
    let (doubled, _) = memo_of-MemoRight s ix round right in
    (set_memo-IndexRight s ix round _ right (doubled, inr h), refl)

skipped :
    (s : Bytes) (close k0 k e : ℕ)
    → opens (at s (k + 1)) ≡ true
    → FailRight s close k0 e
    → (ltb k0 k && ltb k e) ≡ true
    → none ≡ walk_answer (walk_direct s (k + 2) close)
unfolding FailRight
skipped s close k0 k e o (inl zeroed) h = ground arith
skipped s close k0 k e o (inr w) h =
    sym (ap walk_answer (walk_direct-later s close k0 k e o w (ground arith) (ground arith)))

-- Whatever was asked before, the index finds the single closing delimiter that a walk from the
-- opening one at `k` finds, and its memos stay right.
pub walk_paren-Right :
    {E : EnvIndex} (s : Bytes) (ix : SegIndex E) (k : ℕ) (round : Bool)
    → opens (at s (k + 1)) ≡ true
    → IndexRight s ix
    → IndexRight s (walk_paren s ix k (closing round)).0
      × ((walk_paren s ix k (closing round)).1
          ≡ walk_answer (walk_direct s (k + 2) (closing round)))
unfolding walk_paren MemoRight FailRight
walk_paren-Right {E} s ix k round o right =
    let m = memo_of ix (closing round) in
    let (_, fails) = memo_of-MemoRight s ix round right in
    if_elim {A = SegIndex E × Option ℕ}
      (λ r. IndexRight s r.0 × (r.1 ≡ walk_answer (walk_direct s (k + 2) (closing round))))
      (ltb m.fail_from k && ltb k m.fail_end) (ix, none)
      (paren_answer ix k (closing round) (walk_direct s (k + 2) (closing round)))
      (λ h. (right, skipped s (closing round) m.fail_from k m.fail_end o fails h))
      (λ _. paren_answer-Right s ix k round _ refl right)
