-- ===== src/Gate/Exit.antt =====
-- What the exit gets from the gate: `Gate::close` against the writes that hold it.
use jupynvim.Prelude.{ℕ, ◌≤◌, ◌<◌, ◌≡◌, refl, true, some, arith, get_elem?}
use jupynvim.Prelude.Threads.{total, le-total, total-pos}
use jupynvim.Gate.System.{
  Thread, outside, writing, waiting, woken, closed_with, System, Step, Reach, here, next, init,
  hold_step, drop_step, close_step, recheck_step, expire_step, holds, drops, closes, rechecks,
  expires,
}
use jupynvim.Gate.Invariant.{is_writing, is_waiting, is_exit, is_clean, Inv, Reach-Inv}

writing_thread : (t : Thread) → 0 < is_writing t → t ≡ writing
writing_thread writing h = refl
writing_thread outside h = absurd (omega arith)
writing_thread waiting h = absurd (omega arith)
writing_thread woken h = absurd (omega arith)
writing_thread (closed_with n) h = absurd (omega arith)

-- In every reachable state, an exit that waits in `close` waits for a write that is running: some
-- thread holds the gate, and the count of running writes is the number of those threads.
pub waiting_has_writer :
    (n : ℕ) {s : System}
    → Reach (init n) s
    → (i : ℕ) → get_elem? s.threads i ≡ some waiting
    → ((j : ℕ) × (get_elem? s.threads j ≡ some writing))
      × (s.gate.running ≡ total is_writing s.threads)
waiting_has_writer n {s} r i at =
    let v = Reach-Inv n r in
    let some_writer : 0 < total is_writing s.threads =
      ground (arith, v, le-total is_waiting s.threads i waiting at) in
    let (j, t, at_j, pos) = total-pos is_writing s.threads some_writer in
    ((j, ground (arith, at_j, writing_thread t pos)), omega (arith, v.counted))

-- A closed gate with no write running.
abbrev Quiet : System → Type 0
Quiet s = (s.gate.closed ≡ true) × (s.gate.running ≡ 0)

Step-Quiet : {s t : System} → Step s t → Inv s → Quiet s → Quiet t
unfolding holds drops closes rechecks expires
Step-Quiet (hold_step i at) v q = ground arith
Step-Quiet {s} (drop_step i at) v q = ground (arith, le-total is_writing s.threads i writing at)
Step-Quiet (close_step i at) v q = ground arith
Step-Quiet (recheck_step i at) v q = q
Step-Quiet (expire_step i at) v q = q

Reach-trans : {s t u : System} → Reach s t → Reach t u → Reach s u
Reach-trans r here = r
Reach-trans r (next q st) = next (Reach-trans r q) st

Reach-Quiet : (n : ℕ) {s t : System} → Reach (init n) s → Reach s t → Quiet s → Quiet t
Reach-Quiet n r here q = q
Reach-Quiet n r (next p st) q = Step-Quiet st (Reach-Inv n (Reach-trans r p)) (Reach-Quiet n r p q)

-- Once a call of `close` has returned 0, no write runs in that state nor in any later one: the
-- process may end with no file cut short.
pub close_zero_is_final :
    (n : ℕ) {s t : System}
    → Reach (init n) s
    → (i : ℕ) → get_elem? s.threads i ≡ some (closed_with 0)
    → Reach s t
    → total is_writing t.threads ≡ 0
close_zero_is_final n {s} {t} r i at later =
    let v = Reach-Inv n r in
    let quiet : Quiet s = ground (
      arith,
      v,
      le-total is_clean s.threads i (closed_with 0) at,
      le-total is_exit s.threads i (closed_with 0) at,
    ) in
    let after = Reach-Quiet n r later quiet in
    omega (arith, (Reach-Inv n (Reach-trans r later)).counted, after.1)

closed-Step :
    {s t : System}
    → Step s t
    → s.gate.closed ≡ true
    → (t.gate.closed ≡ true) × (t.gate.running ≤ s.gate.running)
unfolding holds drops closes rechecks expires
closed-Step (hold_step i at) c = ground arith
closed-Step (drop_step i at) c = ground arith
closed-Step (close_step i at) c = ground arith
closed-Step (recheck_step i at) c = ground arith
closed-Step (expire_step i at) c = ground arith

-- From the moment the gate is closed it stays closed, and no write starts: the number of writes
-- running never grows, whatever the threads do.
pub closed_admits_none :
    {s t : System}
    → s.gate.closed ≡ true
    → Reach s t
    → (t.gate.closed ≡ true) × (t.gate.running ≤ s.gate.running)
closed_admits_none c here = (c, omega arith)
closed_admits_none c (next r st) =
    let (c', le) = closed_admits_none c r in
    let (c'', le') = closed-Step st c' in (c'', omega arith)
