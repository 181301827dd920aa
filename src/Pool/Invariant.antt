-- ===== src/Pool/Invariant.antt =====
-- The counters of the pool against its threads: who holds the mutex, who is idle, which wakes are
-- on their way, and that no queued job is left to workers that all sleep.
use jupynvim.Prelude.{
  ℕ, ◌+◌, ◌-◌, ◌≤◌, min, Option, if_elim, ◌<◌, ◌≡◌, refl, false, none, some, List, [], arith,
  get_elem?, set, length,
}
use jupynvim.Prelude.Threads.{one_if, total, le-total}
use jupynvim.Pool.{Shared, Lanes, Job, take_inbox, pop, queued, claim}
use jupynvim.Pool.Queued.{queued-take_inbox, Popped, pop-Popped}
use jupynvim.Pool.Threads.{
  Worker, start, top, found_none, raised, waits, awake, unparked, notifying, runs, ran, publishing,
  signalling, writing, exited, after_pop, look_for_job, raise, lower, look_again, take_up,
  leave_running, publish, Caller,
}
use jupynvim.Pool.System.{
  Work, lock, look, park, recheck, spurious, relock, settle, notified_all, run, leave, finish,
  signal_marked, signal_marks, signal_writes,
}
use jupynvim.Pool.Tally.{
  at_top, at_found_none, at_raised, at_waits, at_awake, at_unparked, to_send, deciding, sending,
  moved,
}

-- The workers that will look at the inbox before they wait again, and the wakes not yet sent.
abbrev pub alert : List Worker → List Caller → ℕ
alert ws cs =
    total at_top ws
    + total at_found_none ws
    + total at_raised ws
    + total at_awake ws
    + total at_unparked ws
    + total to_send ws
    + total sending cs

pub record Inv (m : Shared) (ws : List Worker) (cs : List Caller) : Type 0 where
  -- the mutex has at most one holder
  pub locked :
      total at_top ws + total at_found_none ws + total at_raised ws + total at_unparked ws
      ≡ one_if m.held
  pub idle : m.idle ≡ total at_raised ws + total at_waits ws + total at_awake ws
  pub parked : m.parked ≡ m.idle
  pub waking : m.waking ≡ m.woken
  -- claimed wakes are for workers that wait or are on their way out of the wait
  pub bounded : m.woken ≤ total at_waits ws + total at_awake ws + total at_unparked ws
  -- and each is on its way
  pub covered :
      m.woken ≤ total to_send ws + total sending cs + total at_awake ws + total at_unparked ws
  -- a worker about to wait saw empty lanes, which nobody fills while it holds the mutex
  pub empty : 0 < total at_found_none ws + total at_raised ws → queued m.lanes ≡ 0
  pub served :
      m.shutdown ≡ false
      → 0 < length m.inbox + queued m.lanes
      → 0 < total at_waits ws
      → 0 < alert ws cs + total deciding cs

module _ (m : Shared) (ws : List Worker) (cs : List Caller) (v : Inv m ws cs) where
  -- Moving the inbox while no worker is about to wait.
  pub take_inbox-Inv : total at_found_none ws + total at_raised ws ≡ 0 → Inv (take_inbox m) ws cs
  unfolding take_inbox
  take_inbox-Inv none_blind = record {
    locked = v.locked;
    idle = v.idle;
    parked = v.parked;
    waking = v.waking;
    bounded = v.bounded;
    covered = v.covered;
    empty = λ h. absurd (omega arith);
    served = λ h q w. ground (arith, v, queued-take_inbox m);
  }

  after_pop-Inv :
      (i : ℕ) (o : Option (Job × Lanes))
      → get_elem? ws i ≡ some top
      → m.inbox ≡ []
      → Popped m.lanes o
      → Inv (after_pop o m).1 (set ws i (after_pop o m).0) cs
  unfolding after_pop claim
  after_pop-Inv i none at e p =
      ground (arith, v, moved ws i top found_none at, le-total at_top ws i top at)
  after_pop-Inv i (some (j, rest)) at e p = ground (
    arith,
    v,
    moved ws i top (notifying j (min (queued rest) (m.idle - m.woken))) at,
    le-total at_top ws i top at,
  )

look-Inv :
    (m : Shared) (ws : List Worker) (cs : List Caller) (i : ℕ)
    → Inv m ws cs
    → get_elem? ws i ≡ some top
    → Inv (look_for_job m).1 (set ws i (look_for_job m).0) cs
unfolding look_for_job
look-Inv m ws cs i v at =
    if_elim {A = Worker × Shared} (λ r. Inv r.1 (set ws i r.0) cs) m.shutdown _ _
      (λ shut. ground (arith, v, moved ws i top exited at, le-total at_top ws i top at))
      (λ running.
        after_pop-Inv (take_inbox m) ws cs
          (take_inbox-Inv m ws cs v (ground (arith, v, le-total at_top ws i top at))) i
          (pop (take_inbox m).lanes) at (unfold take_inbox in refl)
          (pop-Popped (take_inbox m).lanes))

pub Work-Inv :
    {m : Shared} (ws : List Worker) (cs : List Caller) (i : ℕ) {w w' : Worker} {m' : Shared}
    → Inv m ws cs
    → get_elem? ws i ≡ some w
    → Work m w w' m'
    → Inv m' (set ws i w') cs
unfolding raise lower look_again take_up leave_running publish
Work-Inv {m} ws cs i v at (lock free) = ground (arith, v, moved ws i start top at)
Work-Inv {m} ws cs i v at look = look-Inv m ws cs i v at
Work-Inv {m} ws cs i v at park =
    ground (arith, v, moved ws i found_none raised at, le-total at_found_none ws i found_none at)
Work-Inv {m} ws cs i v at recheck = ground (
  arith,
  v,
  moved ws i raised top at,
  moved ws i raised waits at,
  le-total at_raised ws i raised at,
)
Work-Inv {m} ws cs i v at spurious = ground (arith, v, moved ws i waits awake at)
Work-Inv {m} ws cs i v at (relock free) =
    ground (arith, v, moved ws i awake unparked at, le-total at_awake ws i awake at)
Work-Inv {m} ws cs i v at settle =
    ground (arith, v, moved ws i unparked top at, le-total at_unparked ws i unparked at)
Work-Inv {m} ws cs i v at (notified_all j) =
    ground (arith, v, moved ws i (notifying j 0) (runs j) at)
Work-Inv {m} ws cs i {w' = w'} v at (run j o) = ground (arith, v, moved ws i (runs j) w' at)
Work-Inv {m} ws cs i v at (leave j d free) =
    ground (arith, v, moved ws i (ran j d) (publishing d) at)
Work-Inv {m} ws cs i v at (finish d) = ground (arith, v, moved ws i (publishing d) signalling at)
Work-Inv {m} ws cs i v at (signal_marked e) = ground (arith, v, moved ws i signalling start at)
Work-Inv {m} ws cs i v at (signal_marks e) = ground (arith, v, moved ws i signalling writing at)
Work-Inv {m} ws cs i v at (signal_writes r) = ground (arith, v, moved ws i writing start at)
