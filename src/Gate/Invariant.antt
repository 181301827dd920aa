-- ===== src/Gate/Invariant.antt =====
-- What holds of the gate and its threads in every reachable state.
use jupynvim.Prelude.{
  ℕ, zero, suc, ◌+◌, ◌≤◌, ◌<◌, ◌≡◌, refl, false, some, List, [], ◌∷◌, arith, get_elem?, set,
}
use jupynvim.Prelude.Threads.{
  total, total-set, total-nil, total-cons, le-total, total-map, total_mono, total-replicate_zero,
}
use jupynvim.Gate.System.{
  Thread, outside, writing, waiting, woken, closed_with, System, Step, Reach, here, next, init,
  hold_step, drop_step, close_step, recheck_step, expire_step, holds, drops, closes, rechecks,
  expires, wake,
}

abbrev pub is_writing : Thread → ℕ
is_writing writing = 1
is_writing _ = 0

abbrev pub is_waiting : Thread → ℕ
is_waiting waiting = 1
is_waiting _ = 0

-- Inside `close`, or back from it.
abbrev pub is_exit : Thread → ℕ
is_exit outside = 0
is_exit writing = 0
is_exit _ = 1

-- Back from `close` with no write left.
abbrev pub is_clean : Thread → ℕ
is_clean (closed_with zero) = 1
is_clean _ = 0

pub record Inv (s : System) : Type 0 where
  pub counted : total is_writing s.threads ≡ s.gate.running
  pub asleep : s.gate.running ≡ 0 → total is_waiting s.threads ≡ 0
  pub shut : s.gate.closed ≡ false → total is_exit s.threads ≡ 0
  pub clean : 0 < s.gate.running → total is_clean s.threads ≡ 0

Inv-init : (n : ℕ) → Inv (init n)
Inv-init n = record {
  counted = total-replicate_zero is_writing n outside refl;
  asleep = λ _. total-replicate_zero is_waiting n outside refl;
  shut = λ _. total-replicate_zero is_exit n outside refl;
  clean = λ _. total-replicate_zero is_clean n outside refl;
}

clean_le_exit : (t : Thread) → is_clean t ≤ is_exit t
clean_le_exit (closed_with zero) = omega arith
clean_le_exit (closed_with (suc n)) = omega arith
clean_le_exit outside = omega arith
clean_le_exit writing = omega arith
clean_le_exit waiting = omega arith
clean_le_exit woken = omega arith

clean_le : (ts : List Thread) → total is_clean ts ≤ total is_exit ts
clean_le = total_mono is_clean is_exit clean_le_exit

-- How a change of the thread at `i` moves the four counts.
record Moved (ts : List Thread) (i : ℕ) (t u : Thread) : Type 0 where
  m_writing : total is_writing (set ts i u) + is_writing t ≡ total is_writing ts + is_writing u
  m_waiting : total is_waiting (set ts i u) + is_waiting t ≡ total is_waiting ts + is_waiting u
  m_exit : total is_exit (set ts i u) + is_exit t ≡ total is_exit ts + is_exit u
  m_clean : total is_clean (set ts i u) + is_clean t ≡ total is_clean ts + is_clean u

moved : (ts : List Thread) (i : ℕ) (t u : Thread) → get_elem? ts i ≡ some t → Moved ts i t u
moved ts i t u at = record {
  m_writing = total-set is_writing ts i t u at;
  m_waiting = total-set is_waiting ts i t u at;
  m_exit = total-set is_exit ts i t u at;
  m_clean = total-set is_clean ts i t u at;
}

wake_writing : (t : Thread) → is_writing (wake t) ≡ is_writing t
unfolding wake
wake_writing waiting = refl
wake_writing _ = refl

wake_waiting : (t : Thread) → is_waiting (wake t) ≡ 0
unfolding wake
wake_waiting waiting = refl
wake_waiting _ = refl

wake_exit : (t : Thread) → is_exit (wake t) ≡ is_exit t
unfolding wake
wake_exit waiting = refl
wake_exit _ = refl

wake_clean : (t : Thread) → is_clean (wake t) ≡ is_clean t
unfolding wake
wake_clean waiting = refl
wake_clean (closed_with n) = refl
wake_clean _ = refl

total-none : (ts : List Thread) → total (λ _. 0) ts ≡ 0
total-none [] = total-nil _
total-none (t ∷ ts) = omega (arith, total-cons {A = Thread} (λ _. 0) t ts, total-none ts)

module _ (s : System) (v : Inv s) (i : ℕ) where
  holds-Inv : get_elem? s.threads i ≡ some outside → Inv (holds i s)
  unfolding holds
  holds-Inv at = ground (
    arith,
    clean_le s.threads,
    moved s.threads i outside outside at,
    moved s.threads i outside writing at,
  )

  drops-Inv : get_elem? s.threads i ≡ some writing → Inv (drops i s)
  unfolding drops
  drops-Inv at = ground (
    arith,
    clean_le s.threads,
    moved s.threads i writing outside at,
    le-total is_writing s.threads i writing at,
    total-map is_writing is_writing wake wake_writing (set s.threads i outside),
    total-none (set s.threads i outside),
    total-map is_waiting (λ _. 0) wake wake_waiting (set s.threads i outside),
    total-map is_exit is_exit wake wake_exit (set s.threads i outside),
    total-map is_clean is_clean wake wake_clean (set s.threads i outside),
  )

  closes-Inv : get_elem? s.threads i ≡ some outside → Inv (closes i s)
  unfolding closes
  closes-Inv at =
      ground
        (arith, moved s.threads i outside waiting at, moved s.threads i outside (closed_with 0) at)

  rechecks-Inv : get_elem? s.threads i ≡ some woken → Inv (rechecks i s)
  unfolding rechecks
  rechecks-Inv at = ground (
    arith,
    le-total is_exit s.threads i woken at,
    moved s.threads i woken waiting at,
    moved s.threads i woken (closed_with 0) at,
  )

  expires-Inv : get_elem? s.threads i ≡ some waiting → Inv (expires i s)
  unfolding expires
  expires-Inv at = ground (
    arith,
    le-total is_exit s.threads i waiting at,
    le-total is_waiting s.threads i waiting at,
    moved s.threads i waiting (closed_with s.gate.running) at,
  )

Step-Inv : {s t : System} → Step s t → Inv s → Inv t
Step-Inv {s} (hold_step i at) v = holds-Inv s v i at
Step-Inv {s} (drop_step i at) v = drops-Inv s v i at
Step-Inv {s} (close_step i at) v = closes-Inv s v i at
Step-Inv {s} (recheck_step i at) v = rechecks-Inv s v i at
Step-Inv {s} (expire_step i at) v = expires-Inv s v i at

pub Reach-Inv : (n : ℕ) {s : System} → Reach (init n) s → Inv s
Reach-Inv n here = Inv-init n
Reach-Inv n (next r st) = Step-Inv st (Reach-Inv n r)
