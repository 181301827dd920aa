-- ===== src/Pool/Tally.antt =====
-- How many workers stand at each place of `worker_loop` that the counters of the pool depend on,
-- and how many wakes are still to be sent.
use jupynvim.Prelude.{ℕ, ◌+◌, ◌≡◌, some, List, get_elem?, set}
use jupynvim.Prelude.Threads.{total, total-set}
use jupynvim.Pool.Threads.{
  Worker, top, found_none, raised, waits, awake, unparked, notifying, Caller, pushed, saw_parked,
  saw_no_wake, submit_notifies,
}

abbrev pub at_top : Worker → ℕ
at_top top = 1
at_top _ = 0

abbrev pub at_found_none : Worker → ℕ
at_found_none found_none = 1
at_found_none _ = 0

abbrev pub at_raised : Worker → ℕ
at_raised raised = 1
at_raised _ = 0

abbrev pub at_waits : Worker → ℕ
at_waits waits = 1
at_waits _ = 0

abbrev pub at_awake : Worker → ℕ
at_awake awake = 1
at_awake _ = 0

abbrev pub at_unparked : Worker → ℕ
at_unparked unparked = 1
at_unparked _ = 0

abbrev pub to_send : Worker → ℕ
to_send (notifying j n) = n
to_send _ = 0

-- Between the push of a submit and its decision whether to wake a worker.
abbrev pub deciding : Caller → ℕ
deciding (pushed id) = 1
deciding (saw_parked id) = 1
deciding (saw_no_wake id) = 1
deciding _ = 0

abbrev pub sending : Caller → ℕ
sending (submit_notifies id n) = n
sending _ = 0

-- How a change of one worker moves the counts.
pub record Moved (ws : List Worker) (i : ℕ) (w w' : Worker) : Type 0 where
  pub m_top : total at_top (set ws i w') + at_top w ≡ total at_top ws + at_top w'
  pub m_found :
      total at_found_none (set ws i w') + at_found_none w
      ≡ total at_found_none ws + at_found_none w'
  pub m_raised : total at_raised (set ws i w') + at_raised w ≡ total at_raised ws + at_raised w'
  pub m_waits : total at_waits (set ws i w') + at_waits w ≡ total at_waits ws + at_waits w'
  pub m_awake : total at_awake (set ws i w') + at_awake w ≡ total at_awake ws + at_awake w'
  pub m_unparked :
      total at_unparked (set ws i w') + at_unparked w ≡ total at_unparked ws + at_unparked w'
  pub m_send : total to_send (set ws i w') + to_send w ≡ total to_send ws + to_send w'

pub moved : (ws : List Worker) (i : ℕ) (w w' : Worker) → get_elem? ws i ≡ some w → Moved ws i w w'
moved ws i w w' at = record {
  m_top = total-set at_top ws i w w' at;
  m_found = total-set at_found_none ws i w w' at;
  m_raised = total-set at_raised ws i w w' at;
  m_waits = total-set at_waits ws i w w' at;
  m_awake = total-set at_awake ws i w w' at;
  m_unparked = total-set at_unparked ws i w w' at;
  m_send = total-set to_send ws i w w' at;
}

pub record CallMoved (cs : List Caller) (i : ℕ) (c c' : Caller) : Type 0 where
  pub m_deciding : total deciding (set cs i c') + deciding c ≡ total deciding cs + deciding c'
  pub m_sending : total sending (set cs i c') + sending c ≡ total sending cs + sending c'

pub call_moved :
    (cs : List Caller) (i : ℕ) (c c' : Caller) → get_elem? cs i ≡ some c → CallMoved cs i c c'
call_moved cs i c c' at = record {
  m_deciding = total-set deciding cs i c c' at;
  m_sending = total-set sending cs i c c' at;
}
