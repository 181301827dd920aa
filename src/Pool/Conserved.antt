-- ===== src/Pool/Conserved.antt =====
-- Every job that was accepted is in exactly one place.
use jupynvim.Prelude.{
  ℕ, suc, ◌+◌, ◌≡◌, refl, ◌∙◌, Bool, none, some, Option, List, [], ◌∷◌, arith, set, if_elim,
}
use jupynvim.Prelude.Threads.{
  total, total-set, total-map, total-nil, total-cons, total-append, total-replicate_zero,
}
use jupynvim.Pool.{Shared, Lanes, Job, take_inbox, pop, claim, remove_queued}
use jupynvim.Pool.Threads.{
  Worker, start, waits, awake, notifying, after_pop, look_for_job, raise, lower, look_again,
  take_up, leave_running, publish, Caller, at_rest, unit, submit_notifies, close_notifies,
  close_wakes, read_closed, make_job, push, read_parked, read_waking, claim_one, after_remove,
  cancel_locked, collect, close_locked,
}
use jupynvim.Pool.System.{
  Work, lock, look, park, recheck, spurious, relock, settle, notified_all, run, leave, finish,
  signal_marked, signal_marks, signal_writes, Call, submit, submit_refused, reads_closed, makes,
  pushes, reads_parked, reads_waking, claims, submitted, cancel, cancel_done, cancel_marked,
  cancel_marks, cancel_wrote, poll_none, poll, collects, close, closed_wake, System, init, rouse,
  Step, work, work_notifies, work_notifies_none, call, call_notifies, call_notifies_none,
  call_notifies_all, Reach, here, next,
}
use jupynvim.Pool.Notify.{sender-set}
use jupynvim.Pool.Places.{
  of_job, of_node, of_done, of_worker, of_caller, in_lanes, in_shared, of_done-completion,
  in_shared-take_inbox, Took, pop-Took, remove_queued-Took, in_shared-close_locked,
  in_shared-collect,
}

module _ (p : ℕ → ℕ → Bool) where
  -- A step that accepts nothing, with the place that it leads to and what is held there.
  abbrev Keeps {ℓ} : {A : Type ℓ} → (A → ℕ) → Shared → A × Shared → Type 0
  Keeps held m r =
      (in_shared p r.1 + held r.0 ≡ in_shared p m) × (r.1.past.accepted ≡ m.past.accepted)

  after_pop-kept :
      (m : Shared) (found : Option (Job × Lanes))
      → Took p m.lanes found
      → Keeps (of_worker p) m (after_pop found m)
  unfolding after_pop claim
  after_pop-kept m none t = (omega arith, refl)
  after_pop-kept m (some (j, rest)) t = ground arith

  look-kept : (m : Shared) → Keeps (of_worker p) m (look_for_job m)
  unfolding look_for_job
  look-kept m =
      if_elim (Keeps (of_worker p) m) m.shutdown _ _ (λ _. (omega arith, refl))
        (λ _.
          let taken = take_inbox m in
          let kept = after_pop-kept taken (pop taken.lanes) (pop-Took p taken.lanes) in
          (kept.0 ∙ in_shared-take_inbox p m, kept.1 ∙ unfold take_inbox in refl))

  Work-kept :
      {m : Shared} {w w' : Worker} {m' : Shared}
      → Work m w w' m'
      → in_shared p m' + of_worker p w' + total (of_job p) m.past.accepted
        ≡ in_shared p m + of_worker p w + total (of_job p) m'.past.accepted
  unfolding raise lower look_again take_up leave_running publish
  Work-kept (lock free) = refl
  Work-kept {m} look = ground (arith, look-kept m)
  Work-kept park = refl
  Work-kept recheck = ground arith
  Work-kept spurious = refl
  Work-kept (relock free) = refl
  Work-kept settle = ground arith
  Work-kept (notified_all j) = refl
  Work-kept (run j o) = omega (arith, of_done-completion p j o)
  Work-kept (leave j d free) = refl
  Work-kept {m} (finish d) = omega (
    arith,
    total-append (of_done p) m.done (d ∷ []),
    total-cons (of_done p) d [],
    total-nil (of_done p),
  )
  Work-kept (signal_marked e) = refl
  Work-kept (signal_marks e) = refl
  Work-kept (signal_writes r) = refl

  after_remove-kept :
      (m : Shared) (id : ℕ) (found : Option (Job × Lanes))
      → Took p m.lanes found
      → Keeps (of_caller p) m (after_remove found id m)
  unfolding after_remove
  after_remove-kept m id none t = ground arith
  after_remove-kept m id (some (j, rest)) t = (omega arith, refl)

  cancel-kept : (m : Shared) (id : ℕ) → Keeps (of_caller p) m (cancel_locked id m)
  unfolding cancel_locked
  cancel-kept m id =
      if_elim (Keeps (of_caller p) m) m.shutdown _ _ (λ _. (omega arith, refl))
        (λ _.
          let taken = take_inbox m in
          let kept =
            after_remove-kept taken id (remove_queued id taken.lanes)
              (remove_queued-Took p id taken.lanes) in
          (kept.0 ∙ in_shared-take_inbox p m, kept.1 ∙ unfold take_inbox in refl))

  -- A caller's step keeps what the state and the caller hold, and a push adds what it accepts.
  call-kept :
      (memory : ℕ → ℕ → List ℕ) (room : ℕ → Bool) {m : Shared} {c c' : Caller} {m' : Shared}
      → Call memory room m c c' m'
      → in_shared p m' + of_caller p c' + total (of_job p) m.past.accepted
        ≡ in_shared p m + of_caller p c + total (of_job p) m'.past.accepted
  unfolding read_closed make_job push read_parked read_waking claim_one claim publish collect
      close_locked
  call-kept memory room (submit o kind flags ptr len l x e) = refl
  call-kept memory room (submit_refused o kind flags ptr len e h) = refl
  call-kept memory room (reads_closed l kind x) = ground arith
  call-kept memory room (makes l kind x) = refl
  call-kept memory room {m} (pushes l j) =
      omega (arith, total-cons (of_node p) (l, j) m.inbox, total-cons (of_job p) j m.past.accepted)
  call-kept memory room (reads_parked id) = ground arith
  call-kept memory room (reads_waking id) = ground arith
  call-kept memory room (claims id free) = ground arith
  call-kept memory room (submitted id) = refl
  call-kept memory room {m} (cancel o id free) = ground (arith, cancel-kept m id)
  call-kept memory room {m} (cancel_done d) = omega (
    arith,
    total-append (of_done p) m.done (d ∷ []),
    total-cons (of_done p) d [],
    total-nil (of_done p),
  )
  call-kept memory room (cancel_marked e) = refl
  call-kept memory room (cancel_marks e) = refl
  call-kept memory room (cancel_wrote r) = refl
  call-kept memory room (poll_none o) = refl
  call-kept memory room (poll o max h) = refl
  call-kept memory room {m} (collects max) = omega (arith, in_shared-collect p max m)
  call-kept memory room {m} (close o free) = omega (arith, in_shared-close_locked p m)
  call-kept memory room closed_wake = refl

  -- The jobs of one weight, wherever they are.
  abbrev pub everywhere : System → ℕ
  everywhere s =
      in_shared p s.shared + total (of_worker p) s.workers + total (of_caller p) s.callers

  abbrev pub was_accepted : System → ℕ
  was_accepted s = total (of_job p) s.shared.past.accepted

  rouse-kept : (w : Worker) → of_worker p (rouse w) ≡ of_worker p w
  unfolding rouse
  rouse-kept waits = refl
  rouse-kept _ = refl

module _ (p : ℕ → ℕ → Bool) (memory : ℕ → ℕ → List ℕ) (room : ℕ → Bool) where
  Step-kept :
      {s t : System}
      → Step memory room s t
      → everywhere p t + was_accepted p s ≡ everywhere p s + was_accepted p t
  Step-kept {s} (work i w w' m at st) =
      omega (arith, Work-kept p st, total-set (of_worker p) s.workers i w w' at)
  Step-kept {s} (work_notifies i j n k at_i at_k) = omega (
    arith,
    total-set (of_worker p) s.workers k waits awake at_k,
    total-set (of_worker p) (set s.workers k awake) i (notifying j (suc n)) (notifying j n)
        (sender-set s.workers i k j n at_i at_k),
  )
  Step-kept {s} (work_notifies_none i j n at h) =
      omega (arith, total-set (of_worker p) s.workers i _ (notifying j n) at)
  Step-kept {s} (call i c c' m at st) =
      omega (arith, call-kept p memory room st, total-set (of_caller p) s.callers i c c' at)
  Step-kept {s} (call_notifies i id n k at_i at_k) = omega (
    arith,
    total-set (of_caller p) s.callers i _ (submit_notifies id n) at_i,
    total-set (of_worker p) s.workers k waits awake at_k,
  )
  Step-kept {s} (call_notifies_none i id n at h) =
      omega (arith, total-set (of_caller p) s.callers i _ (submit_notifies id n) at)
  Step-kept {s} (call_notifies_all i at) = omega (
    arith,
    total-set (of_caller p) s.callers i close_notifies close_wakes at,
    total-map (of_worker p) (of_worker p) rouse (rouse-kept p) s.workers,
  )

  init-kept : (n k : ℕ) → everywhere p (init n k) ≡ was_accepted p (init n k)
  init-kept n k = omega (
    arith,
    total-nil (of_node p),
    total-nil (of_job p),
    total-nil (of_done p),
    total-replicate_zero (of_worker p) n start refl,
    total-replicate_zero (of_caller p) k (at_rest unit) refl,
  )

  -- In every reachable state the jobs ever accepted are, with the same ids and kinds and each as
  -- often as it was accepted, those on the inbox, in the lanes, with a worker or a cancelling
  -- caller, among the completions not yet polled, handed out by `poll`, or dropped by `close`.
  -- `p` is any test on id and kind: with `p` an equality it counts one job.
  pub jobs_conserved :
      (n k : ℕ) {s : System}
      → Reach memory room (init n k) s
      → total (of_job p) s.shared.past.accepted
        ≡ total (of_node p) s.shared.inbox
          + in_lanes p s.shared.lanes
          + total (of_worker p) s.workers
          + total (of_caller p) s.callers
          + total (of_done p) s.shared.done
          + total (of_done p) s.shared.past.handed
          + total (of_job p) s.shared.past.dropped
  jobs_conserved n k here = omega (arith, init-kept n k)
  jobs_conserved n k (next r st) = omega (arith, jobs_conserved n k r, Step-kept st)
