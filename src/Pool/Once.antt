-- ===== src/Pool/Once.antt =====
-- Ids are never given twice, so no job completes twice.
use jupynvim.Prelude.{
  ℕ, suc, ◌+◌, ◌-◌, ◌^◌, ◌≤◌, ◌<◌, ◌≡◌, refl, ◌∙◌, Bool, true, false, none, some, Option, List, [],
  ◌∷◌, arith, get_elem?, set, length, length-set, length-append, ◌==◌, ltb, Option-cases, inl, inr,
}
use jupynvim.Prelude.Threads.{one_if, total, total-set, total-cons, total-nil, total-replicate_zero}
use jupynvim.Pool.{Shared, Lanes, Job, take_inbox, claim, remove_queued, running_get}
use jupynvim.Pool.Threads.{
  Worker, after_pop, look_for_job, raise, lower, look_again, take_up, leave_running, publish,
  Caller, at_rest, unit, let_in, made, submit_notifies, close_notifies, close_wakes, read_closed,
  make_job, push, read_parked, read_waking, claim_one, after_remove, cancel_locked, collect,
  close_locked, flag_all,
}
use jupynvim.Pool.System.{
  Work, look, recheck, settle, Call, makes, pushes, cancel, close, System, init, Step, work,
  work_notifies, work_notifies_none, call, call_notifies, call_notifies_none, call_notifies_all,
  Reach, here, next,
}
use jupynvim.Pool.Places.{of_job, of_done}
use jupynvim.Pool.Conserved.{jobs_conserved}

-- The test for one id.
abbrev pub with_id : ℕ → ℕ → ℕ → Bool
with_id id i kind = i == id

length-flag_all :
    (running : List (ℕ × ℕ)) (flags : List Bool) → length (flag_all running flags) ≡ length flags
unfolding flag_all
length-flag_all [] flags = refl
length-flag_all ((id, f) ∷ rest) flags =
    length-flag_all rest (set flags f true) ∙ length-set flags f true

module _ (id : ℕ) where
  -- The jobs with the id that a submit has made and not yet pushed.
  abbrev made_here : Caller → ℕ
  made_here (made l j) = of_job (with_id id) j
  made_here _ = 0

  -- While fewer ids were given than 64 bits count, the next one is new.
  record Fresh (m : Shared) (cs : List Caller) : Type 0 where
    counted : length m.flags < 2 ^ 64 - 1 → m.next_id ≡ suc (length m.flags)
    once :
        length m.flags < 2 ^ 64 - 1
        → total (of_job (with_id id)) m.past.accepted + total made_here cs
          ≤ one_if (ltb id m.next_id)

  -- What a step leaves as it was.
  abbrev SameIds : Shared → Shared → Type 0
  SameIds m m' =
      (length m'.flags ≡ length m.flags)
      × (m'.next_id ≡ m.next_id)
      × (m'.past.accepted ≡ m.past.accepted)

  Work-same : {m : Shared} {w w' : Worker} {m' : Shared} → Work m w w' m' → SameIds m m'
  unfolding look_for_job after_pop take_inbox claim raise lower look_again take_up leave_running
      publish
  Work-same look = ground arith
  Work-same recheck = ground arith
  Work-same settle = ground arith
  Work-same _ = (refl, refl, refl)

  after_remove-same :
      (m : Shared) (job : ℕ) (found : Option (Job × Lanes))
      → SameIds m (after_remove found job m).1 × (made_here (after_remove found job m).0 ≡ 0)
  unfolding after_remove
  after_remove-same m job (some (j, rest)) = ((refl, refl, refl), refl)
  after_remove-same m job none = elim (Option-cases (running_get job m.running)) [
    | inl missing ↦ ground arith
    | inr (f, found) ↦ ground (arith, length-set m.flags f true)
  ]

  cancel-same :
      (m : Shared) (job : ℕ)
      → SameIds m (cancel_locked job m).1 × (made_here (cancel_locked job m).0 ≡ 0)
  unfolding cancel_locked take_inbox
  cancel-same m job =
      ground (arith, after_remove-same (take_inbox m) job (remove_queued job (take_inbox m).lanes))

  call-Fresh :
      (memory : ℕ → ℕ → List ℕ) (room : ℕ → Bool) {m : Shared} (cs : List Caller) (i : ℕ)
      {c c' : Caller} {m' : Shared}
      → get_elem? cs i ≡ some c
      → Call memory room m c c' m'
      → Fresh m cs
      → Fresh m' (set cs i c')
  unfolding read_closed make_job push read_parked read_waking claim_one claim publish collect
      close_locked
  call-Fresh memory room {m} cs i {c' = c'} at (makes l kind x) v = ground (
    arith,
    v,
    total-set made_here cs i (let_in l kind x) c' at,
    length-append m.flags (false ∷ []),
  )
  call-Fresh memory room {m} cs i {c' = c'} at (pushes l j) v = ground (
    arith,
    v,
    total-set made_here cs i (made l j) c' at,
    total-cons (of_job (with_id id)) j m.past.accepted,
  )
  call-Fresh memory room {m} cs i {c' = c'} at (cancel o job free) v =
      ground (arith, v, total-set made_here cs i (at_rest o) c' at, cancel-same m job)
  call-Fresh memory room {m} cs i {c' = c'} at (close o free) v =
      ground
        (arith, v, total-set made_here cs i (at_rest o) c' at, length-flag_all m.running m.flags)
  call-Fresh memory room {m} cs i {c = c} {c' = c'} at _ v =
      ground (arith, v, total-set made_here cs i c c' at)

  Step-Fresh :
      (memory : ℕ → ℕ → List ℕ) (room : ℕ → Bool) {s t : System}
      → Step memory room s t
      → Fresh s.shared s.callers
      → Fresh t.shared t.callers
  Step-Fresh memory room {s} (work i w w' m at st) v = ground (arith, v, Work-same st)
  Step-Fresh memory room {s} (work_notifies i j n k at_i at_k) v = v
  Step-Fresh memory room {s} (work_notifies_none i j n at h) v = v
  Step-Fresh memory room {s} (call i c c' m at st) v = call-Fresh memory room s.callers i at st v
  Step-Fresh memory room {s} (call_notifies i job n k at_i at_k) v =
      ground (arith, v, total-set made_here s.callers i _ (submit_notifies job n) at_i)
  Step-Fresh memory room {s} (call_notifies_none i job n at h) v =
      ground (arith, v, total-set made_here s.callers i _ (submit_notifies job n) at)
  Step-Fresh memory room {s} (call_notifies_all i at) v =
      ground (arith, v, total-set made_here s.callers i close_notifies close_wakes at)

  Reach-Fresh :
      (memory : ℕ → ℕ → List ℕ) (room : ℕ → Bool) (n k : ℕ) {s : System}
      → Reach memory room (init n k) s
      → Fresh s.shared s.callers
  Reach-Fresh memory room n k here =
      ground (
        arith,
        total-nil (of_job (with_id id)),
        total-replicate_zero made_here k (at_rest unit) refl,
      )
  Reach-Fresh memory room n k (next r st) =
      Step-Fresh memory room st (Reach-Fresh memory room n k r)

-- While submits have made fewer than 2^64 - 1 jobs (each makes one cancel flag), no id is accepted
-- twice, and no job has two completions: of the completions with one id, those waiting for a poll
-- and those already handed out are at most one together.
pub completed_at_most_once :
    (memory : ℕ → ℕ → List ℕ) (room : ℕ → Bool) (n k : ℕ) {s : System}
    → Reach memory room (init n k) s
    → length s.shared.flags < 2 ^ 64 - 1
    → (id : ℕ)
    → (total (of_job (with_id id)) s.shared.past.accepted ≤ 1)
      × (total (of_done (with_id id)) s.shared.done
            + total (of_done (with_id id)) s.shared.past.handed
          ≤ 1)
completed_at_most_once memory room n k {s} r few id =
    ground (arith, Reach-Fresh id memory room n k r, jobs_conserved (with_id id) memory room n k r)
