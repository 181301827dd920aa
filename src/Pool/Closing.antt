-- ===== src/Pool/Closing.antt =====
-- What `close` promises: no job starts after it.
use jupynvim.Prelude.{ℕ, suc, ◌≤◌, ◌≡◌, refl, Bool, true, List, arith, set, if_elim}
use jupynvim.Prelude.Threads.{total, total-set, total-map}
use jupynvim.Pool.{Shared, claim}
use jupynvim.Pool.Threads.{
  Worker, waits, awake, notifying, runs, look_for_job, raise, lower, look_again, take_up,
  leave_running, publish, Caller, read_closed, make_job, push, claim_one, cancel_locked, collect,
  close_locked,
}
use jupynvim.Pool.System.{
  Work, lock, look, park, recheck, spurious, relock, settle, notified_all, run, leave, finish,
  signal_marked, signal_marks, signal_writes, Call, submit, submit_refused, reads_closed, makes,
  pushes, reads_parked, reads_waking, claims, submitted, cancel, cancel_done, cancel_marked,
  cancel_marks, cancel_wrote, poll_none, poll, collects, close, closed_wake, System, rouse, Step,
  work, work_notifies, work_notifies_none, call, call_notifies, call_notifies_none,
  call_notifies_all, Reach, here, next,
}
use jupynvim.Pool.Notify.{sender-set}
use jupynvim.Pool.Places.{of_job}

module _ (p : ℕ → ℕ → Bool) where
  -- A job that a worker has taken and that has not ended.
  abbrev pub unfinished : Worker → ℕ
  unfinished (notifying j n) = of_job p j
  unfinished (runs j) = of_job p j
  unfinished _ = 0

  abbrev IsClosed : Shared → Type 0
  IsClosed m = (m.shutdown ≡ true) × (m.closed ≡ true)

  Work-IsClosed :
      {m : Shared} {w w' : Worker} {m' : Shared}
      → Work m w w' m'
      → IsClosed m
      → IsClosed m' × (unfinished w' ≤ unfinished w)
  unfolding look_for_job raise lower look_again take_up leave_running publish
  Work-IsClosed (lock free) c = (c, omega arith)
  Work-IsClosed {m} look c =
      if_elim {A = Worker × Shared} (λ r. IsClosed r.1 × (unfinished r.0 ≤ 0)) m.shutdown _ _
        (λ _. (c, omega arith)) (λ on. ground arith)
  Work-IsClosed park c = (c, omega arith)
  Work-IsClosed recheck c = ground arith
  Work-IsClosed spurious c = (c, omega arith)
  Work-IsClosed (relock free) c = (c, omega arith)
  Work-IsClosed settle c = ground arith
  Work-IsClosed (notified_all j) c = (c, omega arith)
  Work-IsClosed (run j o) c = (c, omega arith)
  Work-IsClosed (leave j d free) c = (c, omega arith)
  Work-IsClosed (finish d) c = (c, omega arith)
  Work-IsClosed (signal_marked e) c = (c, omega arith)
  Work-IsClosed (signal_marks e) c = (c, omega arith)
  Work-IsClosed (signal_writes r) c = (c, omega arith)

  call-IsClosed :
      (memory : ℕ → ℕ → List ℕ) (room : ℕ → Bool) {m : Shared} {c c' : Caller} {m' : Shared}
      → Call memory room m c c' m'
      → IsClosed m
      → IsClosed m'
  unfolding read_closed make_job push claim_one claim publish collect close_locked cancel_locked
  call-IsClosed memory room (submit o kind flags ptr len l x e) h = h
  call-IsClosed memory room (submit_refused o kind flags ptr len e k) h = h
  call-IsClosed memory room (reads_closed l kind x) h = h
  call-IsClosed memory room (makes l kind x) h = h
  call-IsClosed memory room (pushes l j) h = h
  call-IsClosed memory room (reads_parked id) h = h
  call-IsClosed memory room (reads_waking id) h = h
  call-IsClosed memory room (claims id free) h = ground arith
  call-IsClosed memory room (submitted id) h = h
  call-IsClosed memory room (cancel o id free) h = ground arith
  call-IsClosed memory room (cancel_done d) h = h
  call-IsClosed memory room (cancel_marked e) h = h
  call-IsClosed memory room (cancel_marks e) h = h
  call-IsClosed memory room (cancel_wrote r) h = h
  call-IsClosed memory room (poll_none o) h = h
  call-IsClosed memory room (poll o max k) h = h
  call-IsClosed memory room (collects max) h = h
  call-IsClosed memory room (close o free) h = (refl, refl)
  call-IsClosed memory room closed_wake h = h

  unfinished-rouse : (w : Worker) → unfinished (rouse w) ≡ unfinished w
  unfolding rouse
  unfinished-rouse waits = refl
  unfinished-rouse _ = refl

module _ (p : ℕ → ℕ → Bool) (memory : ℕ → ℕ → List ℕ) (room : ℕ → Bool) where
  Step-IsClosed :
      {s t : System}
      → Step memory room s t
      → IsClosed p s.shared
      → IsClosed p t.shared × (total (unfinished p) t.workers ≤ total (unfinished p) s.workers)
  Step-IsClosed {s} (work i w w' m at st) c =
      let kept = Work-IsClosed p st c in
      (kept.0, omega (arith, kept.1, total-set (unfinished p) s.workers i w w' at))
  Step-IsClosed {s} (work_notifies i j n k at_i at_k) c = (
    c,
    omega (
      arith,
      total-set (unfinished p) s.workers k waits awake at_k,
      total-set (unfinished p) (set s.workers k awake) i (notifying j (suc n)) (notifying j n)
          (sender-set s.workers i k j n at_i at_k),
    ),
  )
  Step-IsClosed {s} (work_notifies_none i j n at h) c =
      (c, omega (arith, total-set (unfinished p) s.workers i _ (notifying j n) at))
  Step-IsClosed {s} (call i x x' m at st) c = (call-IsClosed p memory room st c, omega arith)
  Step-IsClosed {s} (call_notifies i id n k at_i at_k) c =
      (c, omega (arith, total-set (unfinished p) s.workers k waits awake at_k))
  Step-IsClosed {s} (call_notifies_none i id n at h) c = (c, omega arith)
  Step-IsClosed {s} (call_notifies_all i at) c = (
    c,
    omega (arith, total-map (unfinished p) (unfinished p) rouse (unfinished-rouse p) s.workers),
  )

  Reach-IsClosed :
      {s t : System}
      → IsClosed p s.shared
      → Reach memory room s t
      → IsClosed p t.shared × (total (unfinished p) t.workers ≤ total (unfinished p) s.workers)
  Reach-IsClosed c here = (c, omega arith)
  Reach-IsClosed c (next r st) =
      let before = Reach-IsClosed c r in
      let after = Step-IsClosed st before.0 in (after.0, omega (arith, before.1, after.1))

  -- After the section of `close` under the mutex, in any state, no job starts: in every later
  -- state the pool is shut down and refuses new submits, and of the jobs of any test on id and kind
  -- the workers have no more to finish than at the close. A job pushed late is never run.
  pub close_starts_none :
      (s : System) {t : System}
      → Reach memory room (record s { shared = close_locked s.shared }) t
      → (t.shared.shutdown ≡ true)
        × (t.shared.closed ≡ true)
        × (total (unfinished p) t.workers ≤ total (unfinished p) s.workers)
  unfolding close_locked
  close_starts_none s r = let kept = Reach-IsClosed (refl, refl) r in (kept.0.0, kept.0.1, kept.1)
