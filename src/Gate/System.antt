-- ===== src/Gate/System.antt =====
-- The gate with the threads that use it: writers between `hold` and the drop of their `Hold`, and
-- exits inside `close`. A step is one section under the mutex, or a wait that ends.
use jupynvim.Prelude.{
  ℕ, ◌≡◌, Option, none, some, List, map, get_elem?, set, replicate, if◌then◌else◌,
}
use jupynvim.Gate.{Gate, new, hold, drop, begin_close, close_round, timed_out}

pub data Thread : Type 0 where
  outside : Thread
  writing : Thread
  waiting : Thread
  woken : Thread
  closed_with : ℕ → Thread

pub record System : Type 0 where
  pub gate : Gate
  pub threads : List Thread

abbrev pub init : ℕ → System
init n = record { gate = new; threads = replicate n outside }

-- `notify_all` ends every wait.
unfoldable pub wake : Thread → Thread
wake waiting = woken
wake t = t

after_hold : Option (Unit {0}) → Thread
after_hold none = outside
after_hold (some _) = writing

after_round : Option ℕ → Thread
after_round none = waiting
after_round (some n) = closed_with n

-- A writer asks for the gate. Refused, it goes on without writing, and may ask again.
unfoldable pub holds : ℕ → System → System
unfolding after_hold hold
holds i s = let r = hold s.gate in record { gate = r.1; threads = set s.threads i (after_hold r.0) }

-- A writer is done: the hold is dropped, and the last one notifies.
unfoldable pub drops : ℕ → System → System
unfolding wake drop
drops i s =
    let r = drop s.gate in
    let left = set s.threads i outside in
    record { gate = r.0; threads = if r.1 then map wake left else left }

-- An exit takes the lock, closes the gate, and tests the writes running for the first time.
unfoldable pub closes : ℕ → System → System
unfolding after_round begin_close close_round
closes i s =
    let g = begin_close s.gate in
    record { gate = g; threads = set s.threads i (after_round (close_round g)) }

-- A wait that was notified tests again.
unfoldable pub rechecks : ℕ → System → System
unfolding after_round close_round
rechecks i s = record s { threads = set s.threads i (after_round (close_round s.gate)) }

-- A wait that reached its deadline leaves.
unfoldable pub expires : ℕ → System → System
unfolding timed_out
expires i s = record s { threads = set s.threads i (closed_with (timed_out s.gate)) }

pub data Step (s : System) : System → Type 0 where
  hold_step : (i : ℕ) → get_elem? s.threads i ≡ some outside → Step s (holds i s)
  drop_step : (i : ℕ) → get_elem? s.threads i ≡ some writing → Step s (drops i s)
  close_step : (i : ℕ) → get_elem? s.threads i ≡ some outside → Step s (closes i s)
  recheck_step : (i : ℕ) → get_elem? s.threads i ≡ some woken → Step s (rechecks i s)
  expire_step : (i : ℕ) → get_elem? s.threads i ≡ some waiting → Step s (expires i s)

pub data Reach (s : System) : System → Type 0 where
  here : Reach s s
  next : {t u : System} → Reach s t → Step t u → Reach s u
