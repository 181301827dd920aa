-- ===== src/Pool/Calls.antt =====
-- The callers' steps against the invariant.
use jupynvim.Prelude.{
  ℕ, ◌-◌, ◌≡◌, Option, none, some, false, List, arith, Bool, get_elem?, set, min, if_elim,
}
use jupynvim.Abi.{eshutdown, enojob, status_ok}
use jupynvim.Pool.{Shared, Job, Lanes, take_inbox, queued, claim, remove_queued}
use jupynvim.Pool.Queued.{Removed, remove_queued-Removed}
use jupynvim.Pool.Threads.{
  Worker, Reply, status, job_id, Caller, at_rest, checked, let_in, made, pushed, saw_parked,
  saw_no_wake, submit_notifies, cancel_publishes, cancel_signals, cancel_writes, collecting,
  close_notifies, close_wakes, read_closed, make_job, push, read_parked, read_waking, claim_one,
  cancelled_done, after_remove, cancel_locked, collect, close_locked, publish,
}
use jupynvim.Pool.System.{
  Call, submit, submit_refused, reads_closed, makes, pushes, reads_parked, reads_waking, claims,
  submitted, cancel, cancel_done, cancel_marked, cancel_marks, cancel_wrote, poll_none, poll,
  collects, close, closed_wake,
}
use jupynvim.Pool.Tally.{call_moved}
use jupynvim.Pool.Invariant.{Inv, take_inbox-Inv}

after_remove-Inv :
    (m : Shared) (ws : List Worker) (cs : List Caller) (i : ℕ) (o : Reply) (id : ℕ)
    (found : Option (Job × Lanes))
    → Inv m ws cs
    → m.held ≡ false
    → get_elem? cs i ≡ some (at_rest o)
    → Removed m.lanes found
    → Inv (after_remove found id m).1 ws (set cs i (after_remove found id m).0)
unfolding after_remove
after_remove-Inv m ws cs i o id none v free at r = ground (
  arith,
  v,
  call_moved cs i (at_rest o) (at_rest (status enojob)) at,
  call_moved cs i (at_rest o) (at_rest (status status_ok)) at,
)
after_remove-Inv m ws cs i o id (some (j, rest)) v free at r =
    ground (arith, v, call_moved cs i (at_rest o) (cancel_publishes (cancelled_done j)) at)

cancel-Inv :
    (m : Shared) (ws : List Worker) (cs : List Caller) (i : ℕ) (o : Reply) (id : ℕ)
    → Inv m ws cs
    → m.held ≡ false
    → get_elem? cs i ≡ some (at_rest o)
    → Inv (cancel_locked id m).1 ws (set cs i (cancel_locked id m).0)
unfolding cancel_locked
cancel-Inv m ws cs i o id v free at =
    if_elim {A = Caller × Shared} (λ r. Inv r.1 ws (set cs i r.0)) m.shutdown _ _
      (λ shut. ground (arith, v, call_moved cs i (at_rest o) (at_rest (status eshutdown)) at))
      (λ running.
        after_remove-Inv (take_inbox m) ws cs i o id (remove_queued id (take_inbox m).lanes)
          (take_inbox-Inv m ws cs v (ground (arith, v))) (unfold take_inbox in free) at
          (remove_queued-Removed id (take_inbox m).lanes))

module _ {m : Shared} (ws : List Worker) (cs : List Caller) (i : ℕ) (v : Inv m ws cs) where
  pub call-Inv :
      (memory : ℕ → ℕ → List ℕ) (room : ℕ → Bool) {c c' : Caller} {m' : Shared}
      → get_elem? cs i ≡ some c
      → Call memory room m c c' m'
      → Inv m' ws (set cs i c')
  unfolding read_closed make_job push read_parked read_waking claim_one claim publish collect
      close_locked queued
  call-Inv memory room at (submit o kind flags ptr len l x e) =
      ground (arith, v, call_moved cs i (at_rest o) (checked l kind x) at)
  call-Inv memory room at (submit_refused o kind flags ptr len e h) =
      ground (arith, v, call_moved cs i (at_rest o) (at_rest (status e)) at)
  call-Inv memory room at (reads_closed l kind x) = ground (
    arith,
    v,
    call_moved cs i (checked l kind x) (let_in l kind x) at,
    call_moved cs i (checked l kind x) (at_rest (status eshutdown)) at,
  )
  call-Inv memory room {c' = c'} at (makes l kind x) =
      ground (arith, v, call_moved cs i (let_in l kind x) c' at)
  call-Inv memory room at (pushes l j) =
      ground (arith, v, call_moved cs i (made l j) (pushed j.id) at)
  call-Inv memory room at (reads_parked id) = ground (
    arith,
    v,
    call_moved cs i (pushed id) (saw_parked id) at,
    call_moved cs i (pushed id) (at_rest (job_id id)) at,
  )
  call-Inv memory room at (reads_waking id) = ground (
    arith,
    v,
    call_moved cs i (saw_parked id) (saw_no_wake id) at,
    call_moved cs i (saw_parked id) (at_rest (job_id id)) at,
  )
  call-Inv memory room at (claims id free) = ground (
    arith,
    v,
    call_moved cs i (saw_no_wake id) (submit_notifies id (min 1 (m.idle - m.woken))) at,
    call_moved cs i (saw_no_wake id) (at_rest (job_id id)) at,
  )
  call-Inv memory room at (submitted id) =
      ground (arith, v, call_moved cs i (submit_notifies id 0) (at_rest (job_id id)) at)
  call-Inv memory room at (cancel o id free) = cancel-Inv m ws cs i o id v free at
  call-Inv memory room at (cancel_done d) =
      ground (arith, v, call_moved cs i (cancel_publishes d) cancel_signals at)
  call-Inv memory room {c' = c'} at (cancel_marked e) =
      ground (arith, v, call_moved cs i (cancel_signals) c' at)
  call-Inv memory room at (cancel_marks e) =
      ground (arith, v, call_moved cs i cancel_signals cancel_writes at)
  call-Inv memory room {c' = c'} at (cancel_wrote r) =
      ground (arith, v, call_moved cs i (cancel_writes) c' at)
  call-Inv memory room {c' = c'} at (poll_none o) =
      ground (arith, v, call_moved cs i (at_rest o) c' at)
  call-Inv memory room at (poll o max h) =
      ground (arith, v, call_moved cs i (at_rest o) (collecting max) at)
  call-Inv memory room {c' = c'} at (collects max) =
      ground (arith, v, call_moved cs i (collecting max) c' at)
  call-Inv memory room at (close o free) =
      ground (arith, v, call_moved cs i (at_rest o) close_notifies at)
  call-Inv memory room {c' = c'} at closed_wake =
      ground (arith, v, call_moved cs i (close_wakes) c' at)
