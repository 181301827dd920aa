-- ===== src/Pool/System.antt =====
-- The pool with its workers and its callers, interleaved. `Work` and `Call` are what one thread
-- does by itself; `Step` adds who is notified. The order of steps is free, and a worker may leave
-- its wait with no notify (a spurious wake-up).
use jupynvim.Prelude.{
  ℕ, suc, ◌<◌, ◌≡◌, ◌≢◌, Bool, true, false, some, List, [], map, get_elem?, set, replicate,
}
use jupynvim.Abi.{status_ok}
use jupynvim.Wake.{mark, write, reset, Written}
use jupynvim.Wake
use jupynvim.Pool.{Done, Input, Job, Lane, Shared, new}
use jupynvim.Pool.Submit.{check, accepted, refused}
use jupynvim.Pool.Threads.{
  Outcome, completion, Worker, start, top, found_none, raised, waits, awake, unparked, notifying,
  runs, ran, publishing, signalling, writing, look_for_job, raise, lower, look_again, take_up,
  leave_running, publish, Reply, status, job_id, dones, unit, Caller, at_rest, checked, let_in,
  made, pushed, saw_parked, saw_no_wake, submit_notifies, cancel_publishes, cancel_signals,
  cancel_writes, collecting, close_notifies, close_wakes, read_closed, make_job, push, read_parked,
  read_waking, claim_one, cancel_locked, collect, close_locked,
}

-- A worker's own steps, from a counter and a state to the next.
pub data Work (s : Shared) : Worker → Worker → Shared → Type 0 where
  lock : s.held ≡ false → Work s start top (record s { held = true })
  look : Work s top (look_for_job s).0 (look_for_job s).1
  park : Work s found_none raised (raise s)
  recheck : Work s raised (look_again s).0 (look_again s).1
  spurious : Work s waits awake s
  relock : s.held ≡ false → Work s awake unparked (record (lower s) { held = true })
  settle : Work s unparked top (take_up s)
  notified_all : (j : Job) → Work s (notifying j 0) (runs j) s
  run : (j : Job) (o : Outcome) → Work s (runs j) (ran j (completion j o)) s
  leave :
      (j : Job) (d : Done) → s.held ≡ false → Work s (ran j d) (publishing d) (leave_running j s)
  finish : (d : Done) → Work s (publishing d) signalling (publish d s)
  signal_marked :
      (mark s.wake).0 ≡ true → Work s signalling start (record s { wake = (mark s.wake).1 })
  signal_marks :
      (mark s.wake).0 ≡ false → Work s signalling writing (record s { wake = (mark s.wake).1 })
  signal_writes : (r : Written) → Work s writing start (record s { wake = write r s.wake })

module _ (memory : ℕ → ℕ → List ℕ) (room : ℕ → Bool) where
  -- A caller's own steps.
  pub data Call (s : Shared) : Caller → Caller → Shared → Type 0 where
    submit :
        (o : Reply) (kind flags ptr len : ℕ) (l : Lane) (i : Input)
        → check memory room kind flags ptr len ≡ accepted l i
        → Call s (at_rest o) (checked l kind i) s
    submit_refused :
        (o : Reply) (kind flags ptr len e : ℕ)
        → check memory room kind flags ptr len ≡ refused e
        → Call s (at_rest o) (at_rest (status e)) s
    reads_closed :
        (l : Lane) (kind : ℕ) (i : Input) → Call s (checked l kind i) (read_closed l kind i s) s
    makes :
        (l : Lane) (kind : ℕ) (i : Input)
        → Call s (let_in l kind i) (make_job l kind i s).0 (make_job l kind i s).1
    pushes : (l : Lane) (j : Job) → Call s (made l j) (pushed j.id) (push l j s)
    reads_parked : (id : ℕ) → Call s (pushed id) (read_parked id s) s
    reads_waking : (id : ℕ) → Call s (saw_parked id) (read_waking id s) s
    claims :
        (id : ℕ) → s.held ≡ false → Call s (saw_no_wake id) (claim_one id s).0 (claim_one id s).1
    submitted : (id : ℕ) → Call s (submit_notifies id 0) (at_rest (job_id id)) s
    cancel :
        (o : Reply) (id : ℕ)
        → s.held ≡ false
        → Call s (at_rest o) (cancel_locked id s).0 (cancel_locked id s).1
    cancel_done : (d : Done) → Call s (cancel_publishes d) cancel_signals (publish d s)
    cancel_marked :
        (mark s.wake).0 ≡ true
        → Call s cancel_signals (at_rest (status status_ok)) (record s { wake = (mark s.wake).1 })
    cancel_marks :
        (mark s.wake).0 ≡ false
        → Call s cancel_signals cancel_writes (record s { wake = (mark s.wake).1 })
    cancel_wrote :
        (r : Written)
        → Call s cancel_writes (at_rest (status status_ok)) (record s { wake = write r s.wake })
    poll_none : (o : Reply) → Call s (at_rest o) (at_rest (dones [])) s
    poll :
        (o : Reply) (max : ℕ)
        → 0 < max
        → Call s (at_rest o) (collecting max) (record s { wake = reset s.wake })
    collects : (max : ℕ) → Call s (collecting max) (collect max s).0 (collect max s).1
    close : (o : Reply) → s.held ≡ false → Call s (at_rest o) close_notifies (close_locked s)
    closed_wake : Call s close_wakes (at_rest unit) (record s { wake = Wake.close s.wake })

pub record System : Type 0 where
  pub shared : Shared
  pub workers : List Worker
  pub callers : List Caller

-- `Pool::new` with so many workers, and so many threads that call it.
abbrev pub init : ℕ → ℕ → System
init n k = record {
  shared = new;
  workers = replicate n start;
  callers = replicate k (at_rest unit);
}

-- `notify_all`.
unfoldable pub rouse : Worker → Worker
rouse waits = awake
rouse w = w

module _ (memory : ℕ → ℕ → List ℕ) (room : ℕ → Bool) where
  pub data Step (s : System) : System → Type 0 where
    work :
        (i : ℕ) (w w' : Worker) (m : Shared)
        → get_elem? s.workers i ≡ some w
        → Work s.shared w w' m
        → Step s (record s { shared = m; workers = set s.workers i w' })
    -- `notify_one` reaches a worker that waits, any of them, or none where none waits.
    work_notifies :
        (i : ℕ) (j : Job) (n k : ℕ)
        → get_elem? s.workers i ≡ some (notifying j (suc n))
        → get_elem? s.workers k ≡ some waits
        → Step s (record s { workers = set (set s.workers k awake) i (notifying j n) })
    work_notifies_none :
        (i : ℕ) (j : Job) (n : ℕ)
        → get_elem? s.workers i ≡ some (notifying j (suc n))
        → ((k : ℕ) → get_elem? s.workers k ≢ some waits)
        → Step s (record s { workers = set s.workers i (notifying j n) })
    call :
        (i : ℕ) (c c' : Caller) (m : Shared)
        → get_elem? s.callers i ≡ some c
        → Call memory room s.shared c c' m
        → Step s (record s { shared = m; callers = set s.callers i c' })
    call_notifies :
        (i id n k : ℕ)
        → get_elem? s.callers i ≡ some (submit_notifies id (suc n))
        → get_elem? s.workers k ≡ some waits
        → Step s (record s {
          workers = set s.workers k awake;
          callers = set s.callers i (submit_notifies id n);
        })
    call_notifies_none :
        (i id n : ℕ)
        → get_elem? s.callers i ≡ some (submit_notifies id (suc n))
        → ((k : ℕ) → get_elem? s.workers k ≢ some waits)
        → Step s (record s { callers = set s.callers i (submit_notifies id n) })
    call_notifies_all :
        (i : ℕ)
        → get_elem? s.callers i ≡ some close_notifies
        → Step s (record s { workers = map rouse s.workers; callers = set s.callers i close_wakes })

  pub data Reach (s : System) : System → Type 0 where
    here : Reach s s
    next : {t u : System} → Reach s t → Step t u → Reach s u
