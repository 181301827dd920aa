-- ===== src/Guard/Respawn.antt =====
-- `State::may_respawn`: the limit on starts of the guard. Instants are numbers of milliseconds;
-- the queue holds the counted starts, the oldest first.
use jupynvim.Prelude.{
  ℕ, ◌+◌, ◌-◌, ◌≤◌, ◌<◌, ◌≡◌, refl, Bool, true, false, ◌&&◌, List, [], ◌∷◌, ◌++◌, arith, ltb, leb,
  length, length-append, if◌then◌else◌,
}
use native.Mathlib.Decide.{dec_lt}
use jupynvim.Prelude.Threads.{total, total-nil, total-cons, total-append, one_if}

abbrev pub respawn_window : ℕ
respawn_window = 60_000

abbrev pub respawn_max : ℕ
respawn_max = 5

-- The loop of `may_respawn`: starts that left the window are forgotten.
unfoldable pub forget_old : ℕ → List ℕ → List ℕ
forget_old now [] = []
forget_old now (t ∷ rest) = if ltb respawn_window (now - t) then forget_old now rest else t ∷ rest

-- `may_respawn`: the answer, and the queue after it.
unfoldable pub may_respawn : ℕ → List ℕ → Bool × List ℕ
unfolding forget_old
may_respawn now starts =
    let kept = forget_old now starts in
    if leb respawn_max (length kept) then (false, kept) else (true, kept ++ now ∷ [])

-- The starts that are granted when `may_respawn` is asked at each of these instants.
unfoldable pub granted : List ℕ → List ℕ → List ℕ
unfolding may_respawn
granted starts [] = []
granted starts (now ∷ later) =
    let r = may_respawn now starts in
    let rest = granted r.1 later in if r.0 then now ∷ rest else rest

-- Instants in order, from one on.
abbrev pub InOrder : ℕ → List ℕ → Type 0
InOrder t [] = Unit
InOrder t (u ∷ rest) = (t ≤ u) × InOrder u rest

-- The instants of a list within the window that begins at `a`.
abbrev pub in_window : ℕ → ℕ → ℕ
in_window a t = one_if (leb a t && leb t (a + respawn_window))

abbrev AllLe : ℕ → List ℕ → Type 0
AllLe n [] = Unit
AllLe n (t ∷ rest) = (t ≤ n) × AllLe n rest

AllLe-mono : (m n : ℕ) (ts : List ℕ) → m ≤ n → AllLe m ts → AllLe n ts
AllLe-mono m n [] h all = tt
AllLe-mono m n (t ∷ ts) h all = (omega arith, AllLe-mono m n ts h all.1)

forget_old-AllLe : (now n : ℕ) (ts : List ℕ) → AllLe n ts → AllLe n (forget_old now ts)
unfolding forget_old
forget_old-AllLe now n [] all = tt
forget_old-AllLe now n (t ∷ ts) all = ground (arith, forget_old-AllLe now n ts all.1)

append-AllLe : (n t : ℕ) (ts : List ℕ) → AllLe n ts → t ≤ n → AllLe n (ts ++ t ∷ [])
append-AllLe n t [] all h = (h, tt)
append-AllLe n t (u ∷ ts) all h = (all.0, append-AllLe n t ts all.1 h)

module _ (a : ℕ) where
  count : List ℕ → ℕ
  count = total (in_window a)

  count-le-length : (ts : List ℕ) → count ts ≤ length ts
  unfolding count
  count-le-length [] = omega (arith, total-nil (in_window a))
  count-le-length (t ∷ ts) = ground (arith, total-cons (in_window a) t ts, count-le-length ts)

  -- Before the window nothing counts.
  count-early : (n : ℕ) (ts : List ℕ) → n < a → AllLe n ts → count ts ≡ 0
  unfolding count
  count-early n [] h all = total-nil (in_window a)
  count-early n (t ∷ ts) h all =
      ground (arith, total-cons (in_window a) t ts, count-early n ts h all.1)

  -- At an instant of the window, what is forgotten was before it.
  count-forget_old :
      (now : ℕ) (ts : List ℕ) → now ≤ a + respawn_window → count (forget_old now ts) ≡ count ts
  unfolding count forget_old
  count-forget_old now [] h = refl
  count-forget_old now (t ∷ ts) h =
      ground (arith, total-cons (in_window a) t ts, count-forget_old now ts h)

  -- After the window nothing counts.
  count-late :
      (t : ℕ) (starts ns : List ℕ)
      → a + respawn_window < t
      → InOrder t ns
      → count (granted starts ns) ≡ 0
  unfolding count granted
  count-late t starts [] h order = total-nil (in_window a)
  count-late t starts (now ∷ later) h order = ground (
    arith,
    total-cons (in_window a) now (granted (may_respawn now starts).1 later),
    count-late now (may_respawn now starts).1 later (omega arith) order.1,
  )

  -- What one call keeps: the queue is short, and holds no later instant.
  record Kept (now : ℕ) (starts : List ℕ) : Type 0 where
    k_all : AllLe now (may_respawn now starts).1
    k_length : length (may_respawn now starts).1 ≤ respawn_max
    k_count :
        now ≤ a + respawn_window
        → count (may_respawn now starts).1
          ≡ count starts + (if (may_respawn now starts).0 then in_window a now else 0)

  length-forget_old : (now : ℕ) (ts : List ℕ) → length (forget_old now ts) ≤ length ts
  unfolding forget_old
  length-forget_old now [] = omega arith
  length-forget_old now (t ∷ ts) = ground (arith, length-forget_old now ts)

  may_respawn-Kept :
      (now : ℕ) (starts : List ℕ) → AllLe now starts → length starts ≤ respawn_max → Kept now starts
  unfolding may_respawn count
  may_respawn-Kept now starts all short = ground (
    arith,
    forget_old-AllLe now now starts all,
    append-AllLe now now (forget_old now starts) (forget_old-AllLe now now starts all)
        (omega arith),
    length-forget_old now starts,
    count-forget_old now starts,
    length-append (forget_old now starts) (now ∷ []),
    total-append (in_window a) (forget_old now starts) (now ∷ []),
    total-cons (in_window a) now [],
    total-nil (in_window a),
  )

  count-granted :
      (now : ℕ) (starts later : List ℕ)
      → count (granted starts (now ∷ later))
        ≡ (if (may_respawn now starts).0 then in_window a now else 0)
          + count (granted (may_respawn now starts).1 later)
  unfolding count granted
  count-granted now starts later =
      ground (arith, total-cons (in_window a) now (granted (may_respawn now starts).1 later))

  bounded :
      (t : ℕ) (starts ns : List ℕ)
      → AllLe t starts
      → length starts ≤ respawn_max
      → InOrder t ns
      → count starts + count (granted starts ns) ≤ respawn_max
  unfolding count granted
  bounded t starts [] all short order = omega (arith, count-le-length starts, none_granted)
    where
      none_granted : count (granted starts []) ≡ 0
      none_granted = total-nil (in_window a)
  bounded t starts (now ∷ later) all short order =
      let all' = AllLe-mono t now starts order.0 all in
      let kept = may_respawn-Kept now starts all' short in
      let step = count-granted now starts later in
      let more = bounded now (may_respawn now starts).1 later kept.k_all kept.k_length order.1 in
      elim (dec_lt (a + respawn_window) now) [
        | yes after ↦ omega (
          arith,
          count-le-length starts,
          count-late now starts (now ∷ later) after (omega arith, order.1),
        )
        | no inside ↦ ground (arith, step, more, kept.k_count (omega arith))
      ]

-- However often the guard exits, and however often a kernel start finds none running: of the
-- starts that `may_respawn` grants at instants in order, no window of 60 s holds more than five.
pub respawns_bounded :
    (nows : List ℕ) → InOrder 0 nows → (a : ℕ) → total (in_window a) (granted [] nows) ≤ respawn_max
unfolding count
respawns_bounded nows order a = omega (arith, bounded a 0 [] nows tt (omega arith) order)
