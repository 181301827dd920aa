-- ===== src/Pool/Wakeups.antt =====
-- No wake is lost, and the counters that submits read without the mutex are right.
use jupynvim.Prelude.{
  ℕ, ◌+◌, ◌≤◌, ◌<◌, ◌≡◌, refl, ◌⊎◌, inl, inr, Bool, false, some, List, arith, get_elem?, length,
}
use native.Mathlib.Decide.{dec_lt}
use jupynvim.Prelude.Threads.{one_if, total, total-pos, total-add, total-replicate_zero, le-total}
use jupynvim.Pool.{queued}
use jupynvim.Pool.Threads.{Worker, start, waits, Caller, at_rest, unit}
use jupynvim.Pool.System.{
  System, init, Step, work, work_notifies, work_notifies_none, call, call_notifies,
  call_notifies_none, call_notifies_all, Reach, here, next,
}
use jupynvim.Pool.Tally.{
  at_top, at_found_none, at_raised, at_waits, at_awake, at_unparked, to_send, deciding, sending,
}
use jupynvim.Pool.Invariant.{Inv, Work-Inv}
use jupynvim.Pool.Notify.{
  notify-Inv, notify_none-Inv, call_notify-Inv, call_notify_none-Inv, call_notify_all-Inv,
}
use jupynvim.Pool.Calls.{call-Inv}

abbrev pub IsCoherent : System → Type 0
IsCoherent s = Inv s.shared s.workers s.callers

init-Inv : (n k : ℕ) → IsCoherent (init n k)
unfolding queued
init-Inv n k = ground (
  arith,
  total-replicate_zero at_top n start refl,
  total-replicate_zero at_found_none n start refl,
  total-replicate_zero at_raised n start refl,
  total-replicate_zero at_waits n start refl,
  total-replicate_zero at_awake n start refl,
  total-replicate_zero at_unparked n start refl,
  total-replicate_zero to_send n start refl,
  total-replicate_zero sending k (at_rest unit) refl,
)

module _ (memory : ℕ → ℕ → List ℕ) (room : ℕ → Bool) where
  Step-Inv : {s t : System} → Step memory room s t → IsCoherent s → IsCoherent t
  Step-Inv {s} (work i w w' m at st) v = Work-Inv s.workers s.callers i v at st
  Step-Inv {s} (work_notifies i j n k at_i at_k) v =
      notify-Inv s.workers s.callers i k j n v at_i at_k
  Step-Inv {s} (work_notifies_none i j n at h) v = notify_none-Inv s.workers s.callers i j n v at h
  Step-Inv {s} (call i c c' m at st) v = call-Inv s.workers s.callers i v memory room at st
  Step-Inv {s} (call_notifies i id n k at_i at_k) v =
      call_notify-Inv s.workers s.callers i k id n v at_i at_k
  Step-Inv {s} (call_notifies_none i id n at h) v =
      call_notify_none-Inv s.workers s.callers i id n v at h
  Step-Inv {s} (call_notifies_all i at) v = call_notify_all-Inv s.workers s.callers i v at

  pub Reach-Inv : (n k : ℕ) {s : System} → Reach memory room (init n k) s → IsCoherent s
  Reach-Inv n k here = init-Inv n k
  Reach-Inv n k (next r st) = Step-Inv st (Reach-Inv n k r)

-- What a worker does for the queue besides running jobs: it will look at the inbox again before it
-- waits, or it has wakes to send.
abbrev pub attends : Worker → ℕ
attends w = at_top w + at_found_none w + at_raised w + at_awake w + at_unparked w + to_send w

-- A caller that has pushed a job and not yet decided on a wake, or that has a wake to send.
abbrev pub wakes : Caller → ℕ
wakes c = deciding c + sending c

total-attends :
    (ws : List Worker)
    → total attends ws
      ≡ total at_top ws
        + total at_found_none ws
        + total at_raised ws
        + total at_awake ws
        + total at_unparked ws
        + total to_send ws
total-attends ws = omega (
  arith,
  total-add (λ w. at_top w + at_found_none w + at_raised w + at_awake w + at_unparked w) to_send ws,
  total-add (λ w. at_top w + at_found_none w + at_raised w + at_awake w) at_unparked ws,
  total-add (λ w. at_top w + at_found_none w + at_raised w) at_awake ws,
  total-add (λ w. at_top w + at_found_none w) at_raised ws,
  total-add at_top at_found_none ws,
)

-- In every reachable state of an open pool, while a job is queued and some worker waits, the job
-- is attended to: another worker will look at the inbox before it waits or has wakes to send, or a
-- submit in flight has still to decide on a wake or to send one. So a job is never left queued to
-- workers that all wait, whatever the interleaving and whichever wake-ups are spurious.
pub no_lost_wake :
    (memory : ℕ → ℕ → List ℕ) (room : ℕ → Bool) (n k : ℕ) {s : System}
    → Reach memory room (init n k) s
    → s.shared.shutdown ≡ false
    → 0 < length s.shared.inbox + queued s.shared.lanes
    → (i : ℕ) → get_elem? s.workers i ≡ some waits
    → ((j : ℕ) × (w : Worker) × (get_elem? s.workers j ≡ some w) × (0 < attends w))
      ⊎ ((j : ℕ) × (c : Caller) × (get_elem? s.callers j ≡ some c) × (0 < wakes c))
no_lost_wake memory room n k {s} r on pending i at = elim (dec_lt 0 (total attends s.workers)) [
  | yes busy ↦ inl (total-pos attends s.workers busy)
  | no calm ↦ inr (
      total-pos wakes s.callers (
        omega (
          arith,
          (Reach-Inv memory room n k r).served on pending
              (omega (arith, le-total at_waits s.workers i waits at)),
          total-attends s.workers,
          total-add deciding sending s.callers,
        )))
]

-- Whenever the queue's mutex is free, the counters agree with the threads: `idle` and its mirror
-- `parked` count the workers in their wait or on their way out of it, the claimed wakes (`woken`,
-- mirrored by `waking`) never exceed them, and each claimed wake is a notify still to be sent or a
-- worker already out of its wait.
pub counters_exact :
    (memory : ℕ → ℕ → List ℕ) (room : ℕ → Bool) (n k : ℕ) {s : System}
    → Reach memory room (init n k) s
    → s.shared.held ≡ false
    → (s.shared.idle ≡ total at_waits s.workers + total at_awake s.workers)
      × (s.shared.parked ≡ s.shared.idle)
      × (s.shared.woken ≤ s.shared.idle)
      × (s.shared.waking ≡ s.shared.woken)
      × (s.shared.woken
          ≤ total to_send s.workers + total sending s.callers + total at_awake s.workers)
counters_exact memory room n k r free = ground (arith, Reach-Inv memory room n k r)

-- At most one worker holds the queue's mutex, and it holds it exactly while `held` says so.
pub one_holder :
    (memory : ℕ → ℕ → List ℕ) (room : ℕ → Bool) (n k : ℕ) {s : System}
    → Reach memory room (init n k) s
    → total at_top s.workers
        + total at_found_none s.workers
        + total at_raised s.workers
        + total at_unparked s.workers
      ≡ one_if s.shared.held
one_holder memory room n k r = (Reach-Inv memory room n k r).locked
