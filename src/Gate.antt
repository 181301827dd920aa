-- ===== src/Gate.antt =====
-- core/src/writes.rs: the gate that the backend's exit closes and then waits at. `Gate` is the
-- state behind the mutex. Each section that holds the mutex is one function, and the threads that
-- call them are interleaved by the step relation of Gate/System.antt.
pub mod System
pub mod Invariant
pub mod Exit
mod Tests
use jupynvim.Prelude.{ℕ, ◌+◌, ◌-◌, Bool, true, false, Option, none, some, if◌then◌else◌, ltb, ◌==◌}

-- `GateState`: the writes running now, and whether `close` was called.
pub record Gate : Type 0 where
  pub running : ℕ
  pub closed : Bool

-- `Gate::new`.
abbrev pub new : Gate
new = record { running = 0; closed = false }

-- `Gate::hold`: `none` is a refusal, `some tt` the hold.
unfoldable pub hold : Gate → Option (Unit {0}) × Gate
hold g = if g.closed then (none, g) else (some tt, record g { running = g.running + 1 })

-- `Hold::drop`: the new state, and whether the condition variable is notified.
unfoldable pub drop : Gate → Gate × Bool
drop g = let n = g.running - 1 in (record g { running = n }, n == 0)

-- `Gate::close` up to its loop.
unfoldable pub begin_close : Gate → Gate
begin_close g = record g { closed = true }

-- The test of the loop in `Gate::close`: `none` waits, `some n` leaves with `n` writes running.
unfoldable pub close_round : Gate → Option ℕ
close_round g = if ltb 0 g.running then none else some g.running

-- The result once the wait has timed out.
unfoldable pub timed_out : Gate → ℕ
timed_out g = g.running
