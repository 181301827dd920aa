-- ===== src/Pool/Tests.antt =====
-- Small runs of the pool, and the theorems at them.
use jupynvim.Prelude.{
  ℕ, ◌+◌, ◌≤◌, ◌<◌, ◌≡◌, refl, ◌⊎◌, Bool, true, some, List, [], ◌∷◌, ◌%◌, inr, replicate, length,
  length-replicate, ltb, arith, get_elem?,
}
use jupynvim.Prelude.Threads.{total}
use jupynvim.Abi.{kind_echo, kind_nop, einval, ekind}
use jupynvim.Pool.{
  Input, borrowed, owned, background, visible, normal, Job, take_inbox, push_all, pop,
}
use jupynvim.Pool.Submit.{
  check, check_lane, lane_of, stray_bits, supported, input_of, took, wants_copy, refused, accepted,
  as_slice, resolve_workers, auto_workers, max_workers,
}
use jupynvim.Pool.Accepts.{
  FlagsOf, caller_bytes, lane_number, check-accepted, check-accepts, resolve_workers-bounds,
}
use jupynvim.Pool.Threads.{
  start, top, found_none, raised, at_rest, unit, checked, let_in, look_for_job, look_again, raise,
  read_closed, make_job, push, close_locked, Caller, Worker,
}
use jupynvim.Pool.System.{
  lock, look, park, recheck, submit, reads_closed, makes, pushes, System, init, work, call, Reach,
  here, next,
}
use jupynvim.Pool.Tally.{at_waits, at_awake, to_send, sending}
use jupynvim.Pool.Wakeups.{attends, wakes, no_lost_wake, counters_exact}
use jupynvim.Pool.Places.{of_job, of_done, of_node, of_worker, of_caller, in_lanes}
use jupynvim.Pool.Conserved.{jobs_conserved}
use jupynvim.Pool.Once.{with_id, completed_at_most_once}
use jupynvim.Pool.Order.{class, agenda, class-push, Looks, look_takes_head}
use jupynvim.Pool.Closing.{unfinished, close_starts_none}

abbrev no_bytes : ℕ → ℕ → List ℕ
no_bytes ptr len = []

abbrev always : ℕ → Bool
always n = true

abbrev Run : System → Type 0
Run = Reach no_bytes always (init 1 1)

-- The only worker finds no job and waits.
asleep : (s : System) × Run s
unfolding look_for_job look_again raise pop take_inbox push_all
asleep = (
  _,
  next
      (next (next (next here (work 0 start top _ refl (lock refl))) (work 0 top _ _ refl look))
        (work 0 found_none raised _ refl park))
      (work 0 raised _ _ refl recheck),
)

-- A submit of a borrowed input has then pushed its job, and has not yet read `parked`.
in_flight : (s : System) × Run s
unfolding asleep check read_closed make_job push
in_flight = (
  _,
  next
      (next
        (next
          (next asleep.1 (
            call 0 (at_rest unit) (checked normal kind_echo (borrowed 4096 3)) _ refl
              (submit unit kind_echo 1 4096 3 normal (borrowed 4096 3) refl)))
          (call 0 (checked normal kind_echo (borrowed 4096 3)) _ _ refl
            (reads_closed normal kind_echo (borrowed 4096 3))))
        (call 0 (let_in normal kind_echo (borrowed 4096 3)) _ _ refl
          (makes normal kind_echo (borrowed 4096 3))))
      (call 0 _ _ _ refl (pushes normal _)),
)

no_lost_wake_example :
    ((j : ℕ) × (w : Worker) × (get_elem? in_flight.0.workers j ≡ some w) × (0 < attends w))
    ⊎ ((j : ℕ) × (c : Caller) × (get_elem? in_flight.0.callers j ≡ some c) × (0 < wakes c))
unfolding in_flight
no_lost_wake_example = no_lost_wake no_bytes always 1 1 in_flight.1 refl (omega arith) 0 refl

counters_exact_example :
    (in_flight.0.shared.idle
      ≡ total at_waits in_flight.0.workers + total at_awake in_flight.0.workers)
    × (in_flight.0.shared.parked ≡ in_flight.0.shared.idle)
    × (in_flight.0.shared.woken ≤ in_flight.0.shared.idle)
    × (in_flight.0.shared.waking ≡ in_flight.0.shared.woken)
    × (in_flight.0.shared.woken
        ≤ total to_send in_flight.0.workers
          + total sending in_flight.0.callers
          + total at_awake in_flight.0.workers)
unfolding in_flight
counters_exact_example = counters_exact no_bytes always 1 1 in_flight.1 refl

jobs_conserved_example :
    total (of_job (with_id 1)) in_flight.0.shared.past.accepted
    ≡ total (of_node (with_id 1)) in_flight.0.shared.inbox
      + in_lanes (with_id 1) in_flight.0.shared.lanes
      + total (of_worker (with_id 1)) in_flight.0.workers
      + total (of_caller (with_id 1)) in_flight.0.callers
      + total (of_done (with_id 1)) in_flight.0.shared.done
      + total (of_done (with_id 1)) in_flight.0.shared.past.handed
      + total (of_job (with_id 1)) in_flight.0.shared.past.dropped
jobs_conserved_example = jobs_conserved (with_id 1) no_bytes always 1 1 in_flight.1

completed_at_most_once_example :
    (total (of_job (with_id 1)) in_flight.0.shared.past.accepted ≤ 1)
    × (total (of_done (with_id 1)) in_flight.0.shared.done
          + total (of_done (with_id 1)) in_flight.0.shared.past.handed
        ≤ 1)
unfolding in_flight
completed_at_most_once_example =
    completed_at_most_once no_bytes always 1 1 in_flight.1 (omega arith) 1

look_takes_head_example : Looks (agenda in_flight.0.shared) (look_for_job in_flight.0.shared)
unfolding in_flight
look_takes_head_example = look_takes_head in_flight.0.shared refl

abbrev some_job : Job
some_job = record { id = 9; kind = kind_echo; input = borrowed 4096 3; cancel = 9 }

class-push_example :
    class (push visible some_job in_flight.0.shared) normal ≡ class in_flight.0.shared normal
class-push_example = class-push visible some_job in_flight.0.shared normal

close_starts_none_example :
    ((close_locked in_flight.0.shared).shutdown ≡ true)
    × ((close_locked in_flight.0.shared).closed ≡ true)
    × (total (unfinished (with_id 1)) in_flight.0.workers
        ≤ total (unfinished (with_id 1)) in_flight.0.workers)
close_starts_none_example = close_starts_none (with_id 1) no_bytes always in_flight.0 here

-- The byte at an address is the address, and there is room for less than a KiB.
abbrev test_memory : ℕ → ℕ → List ℕ
test_memory ptr len = replicate len (ptr % 256)

abbrev test_room : ℕ → Bool
test_room len = ltb len 1024

refuses_lane : check test_memory test_room kind_nop 3 16 2 ≡ refused einval
unfolding check check_lane lane_of
refuses_lane = refl

refuses_kind : check test_memory test_room 9 1 16 2 ≡ refused ekind
unfolding check check_lane lane_of stray_bits supported
refuses_kind = refl

accepts_copy :
    check test_memory test_room kind_echo 258 16 2 ≡ accepted background (owned (16 ∷ 16 ∷ []))
unfolding check check_lane lane_of stray_bits supported input_of wants_copy took
accepts_copy = refl

check-accepted_example :
    FlagsOf background 258
    × (supported kind_echo ≡ true)
    × (as_slice test_memory test_room (owned (16 ∷ 16 ∷ [])) ≡ caller_bytes test_memory 16 2)
    × (length (caller_bytes test_memory 16 2) ≡ 2)
check-accepted_example =
    check-accepted test_memory test_room (λ ptr len. length-replicate len (ptr % 256)) kind_echo 258
      16 2 background (owned (16 ∷ 16 ∷ [])) accepts_copy

check-accepts_example :
    (i : Input) × (check test_memory test_room kind_echo 258 16 2 ≡ accepted background i)
unfolding supported lane_number
check-accepts_example =
    check-accepts test_memory test_room (λ ptr len. length-replicate len (ptr % 256)) kind_echo 258
      16 2 background (inr refl) refl (λ e. absurd (omega (arith, e))) refl

resolve_workers-bounds_example :
    (1 ≤ 3) × (3 ≤ max_workers) × ((◌≡◌ {A = ℕ} 0 0) × (3 ≤ 4) ⊎ (◌≡◌ {A = ℕ} 3 0))
unfolding resolve_workers auto_workers
resolve_workers-bounds_example = resolve_workers-bounds 4 0 3 refl
