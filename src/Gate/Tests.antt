-- ===== src/Gate/Tests.antt =====
-- Small runs of the gate, and the theorems at them.
use jupynvim.Prelude.{ℕ, ◌≤◌, ◌≡◌, refl, true, some, get_elem?}
use jupynvim.Prelude.Threads.{total}
use jupynvim.Gate.System.{
  writing, System, Reach, here, next, init, hold_step, drop_step, close_step, recheck_step, holds,
  drops, closes, rechecks,
}
use jupynvim.Gate.Invariant.{is_writing}
use jupynvim.Gate.Exit.{waiting_has_writer, close_zero_is_final, closed_admits_none}

-- Thread 0 writes, and thread 1 waits in `close`.
abbrev contended : System
unfolding holds closes
contended = closes 1 (holds 0 (init 2))

contended_run : Reach (init 2) contended
unfolding holds closes
contended_run = next (next here (hold_step 0 refl)) (close_step 1 refl)

-- The write ends, and the exit leaves with 0.
abbrev finished : System
unfolding holds closes drops rechecks
finished = rechecks 1 (drops 0 contended)

finished_run : Reach contended finished
unfolding holds closes drops rechecks
finished_run = next (next here (drop_step 0 refl)) (recheck_step 1 refl)

finished_from_init : Reach (init 2) finished
unfolding holds closes drops rechecks
finished_from_init = next (next contended_run (drop_step 0 refl)) (recheck_step 1 refl)

waiting_has_writer_example :
    ((j : ℕ) × (get_elem? contended.threads j ≡ some writing))
    × (contended.gate.running ≡ total is_writing contended.threads)
unfolding holds closes
waiting_has_writer_example = waiting_has_writer 2 contended_run 1 refl

close_zero_is_final_example : total is_writing finished.threads ≡ 0
unfolding holds closes drops rechecks
close_zero_is_final_example = close_zero_is_final 2 finished_from_init 1 refl here

closed_admits_none_example :
    (finished.gate.closed ≡ true) × (finished.gate.running ≤ contended.gate.running)
unfolding holds closes drops rechecks
closed_admits_none_example = closed_admits_none refl finished_run
