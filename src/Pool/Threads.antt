-- ===== src/Pool/Threads.antt =====
-- The program counters of the pool's threads, and what each does in one atomic section. A section
-- is one operation on an atomic that other threads see without the mutex, or what happens between
-- two such operations; what `look_for_job` and `close_locked` do under the mutex is one section.
use jupynvim.Prelude.{
  ℕ, ◌+◌, ◌-◌, ◌^◌, ◌%◌, Bool, true, false, Option, none, some, List, [], ◌∷◌, ◌++◌, length, map,
  set, take, drop, if◌then◌else◌, ◌==◌, ltb,
}
use jupynvim.Abi.{status_ok, status_err, status_panic, status_cancelled, eshutdown, enojob}
use jupynvim.Pool.{
  Done, Input, Job, Lane, Lanes, no_lanes, Shared, take_inbox, pop, queued, claim, remove_queued,
  running_insert, running_remove, running_get,
}

-- How `jobs::run` under the panic guard ends.
pub data Outcome : Type 0 where
  finished : Option (List ℕ) → Outcome
  job_error : List ℕ → Outcome
  job_cancelled : Outcome
  panicked : List ℕ → Outcome

-- The text "cancelled".
abbrev pub cancelled_text : List ℕ
cancelled_text = b'c' ∷ b'a' ∷ b'n' ∷ b'c' ∷ b'e' ∷ b'l' ∷ b'l' ∷ b'e' ∷ b'd' ∷ []

-- The completion of a job that ran.
unfoldable pub completion : Job → Outcome → Done
completion j (finished v) = record { job = j.id; kind = j.kind; status = status_ok; result = v }
completion j (job_error m) = record {
  job = j.id;
  kind = j.kind;
  status = status_err;
  result = some m;
}
completion j job_cancelled = record {
  job = j.id;
  kind = j.kind;
  status = status_cancelled;
  result = some cancelled_text;
}
completion j (panicked m) = record {
  job = j.id;
  kind = j.kind;
  status = status_panic;
  result = some m;
}

-- Where a worker is in `worker_loop`.
pub data Worker : Type 0 where
  -- about to take the mutex at the top of the outer loop
  start : Worker
  -- the next three hold the mutex: at the top of the inner loop; with no job found; counted idle
  top : Worker
  found_none : Worker
  raised : Worker
  -- waiting on the condition variable
  waits : Worker
  -- out of the wait, about to take the mutex again
  awake : Worker
  -- holds the mutex, no longer counted idle, with its claim not yet given up
  unparked : Worker
  -- has a job and so many notifies to send
  notifying : Job → ℕ → Worker
  runs : Job → Worker
  ran : Job → Done → Worker
  publishing : Done → Worker
  signalling : Worker
  writing : Worker
  exited : Worker

unfoldable pub release : Shared → Shared
release s = record s { held = false }

-- A job was popped: it is entered as running, wakes are claimed for the rest, the mutex is freed.
unfoldable pub start_job : Job → Lanes → Shared → Worker × Shared
unfolding release
start_job j rest s =
    let s' = record s { lanes = rest; running = running_insert j.id j.cancel s.running } in
    let (k, s'') = claim (queued rest) s' in (notifying j k, release s'')

unfoldable pub after_pop : Option (Job × Lanes) → Shared → Worker × Shared
unfolding start_job
after_pop none s = (found_none, s)
after_pop (some (j, rest)) s = start_job j rest s

-- The inner loop of `worker_loop` from its top: leave, or move the inbox and take a job.
unfoldable pub look_for_job : Shared → Worker × Shared
unfolding release after_pop
look_for_job s =
    if s.shutdown then (exited, release s) else let s' = take_inbox s in after_pop (pop s'.lanes) s'

-- No job was found: the worker counts itself idle, and parked.
unfoldable pub raise : Shared → Shared
raise s = record s { idle = s.idle + 1; parked = s.parked + 1 }

unfoldable pub lower : Shared → Shared
lower s = record s { idle = s.idle - 1; parked = s.parked - 1 }

-- The last look at the inbox: back to the top, or into the wait, which frees the mutex.
unfoldable pub look_again : Shared → Worker × Shared
unfolding release lower
look_again s = elim s.inbox [ [] ↦ (waits, release s) | n ∷ rest ↦ (top, lower s) ]

-- A claimed wake is taken up.
unfoldable pub take_up : Shared → Shared
take_up s = if ltb 0 s.woken then record s { woken = s.woken - 1; waking = s.woken - 1 } else s

-- `running.remove(&job.id)`.
unfoldable pub leave_running : Job → Shared → Shared
leave_running j s = record s { running = running_remove j.id s.running }

-- `done.push_back(..)`.
unfoldable pub publish : Done → Shared → Shared
publish d s = record s { done = s.done ++ d ∷ [] }

-- What a call of the pool returned.
pub data Reply : Type 0 where
  status : ℕ → Reply
  job_id : ℕ → Reply
  dones : List Done → Reply
  unit : Reply

-- Where a caller is in `submit`, `cancel`, `poll` or `close`.
pub data Caller : Type 0 where
  at_rest : Reply → Caller
  -- submit: checked; let in; with its job made; pushed; parked was not 0; waking was 0; notifying
  checked : Lane → ℕ → Input → Caller
  let_in : Lane → ℕ → Input → Caller
  made : Lane → Job → Caller
  pushed : ℕ → Caller
  saw_parked : ℕ → Caller
  saw_no_wake : ℕ → Caller
  submit_notifies : ℕ → ℕ → Caller
  -- cancel: with a completion to publish; then the wake
  cancel_publishes : Done → Caller
  cancel_signals : Caller
  cancel_writes : Caller
  -- poll: the wake was re-armed
  collecting : ℕ → Caller
  -- close: to notify all; to close the wake socket
  close_notifies : Caller
  close_wakes : Caller

-- `submit` reads `closed`.
unfoldable pub read_closed : Lane → ℕ → Input → Shared → Caller
read_closed l kind i s = if s.closed then at_rest (status eshutdown) else let_in l kind i

-- The id is taken (`fetch_add` on 64 bits), and the node is made with a flag of its own.
unfoldable pub make_job : Lane → ℕ → Input → Shared → Caller × Shared
make_job l kind i s =
    let j : Job = record { id = s.next_id; kind = kind; input = i; cancel = length s.flags } in
    (made l j, record s { next_id = (s.next_id + 1) % 2 ^ 64; flags = s.flags ++ false ∷ [] })

-- The compare-and-swap that succeeds. (One that fails changes nothing and is tried again.)
unfoldable pub push : Lane → Job → Shared → Shared
push l j s = record s {
  inbox = (l, j) ∷ s.inbox;
  past = record (s.past) { accepted = j ∷ s.past.accepted };
}

unfoldable pub read_parked : ℕ → Shared → Caller
read_parked id s = if ltb 0 s.parked then saw_parked id else at_rest (job_id id)

unfoldable pub read_waking : ℕ → Shared → Caller
read_waking id s = if s.waking == 0 then saw_no_wake id else at_rest (job_id id)

-- Under the mutex: a wake is claimed unless one is on its way.
unfoldable pub claim_one : ℕ → Shared → Caller × Shared
claim_one id s =
    if s.woken == 0
    then (let (k, s') = claim 1 s in
        if ltb 0 k
        then (submit_notifies id k, record s' { notifies = s'.notifies + 1 })
        else (at_rest (job_id id), s'))
    else (at_rest (job_id id), s)

-- The completion of a job that was cancelled while it was queued.
unfoldable pub cancelled_done : Job → Done
cancelled_done j = record {
  job = j.id;
  kind = j.kind;
  status = status_cancelled;
  result = some cancelled_text;
}

-- The end of `cancel`: the flag of a running job is set.
unfoldable pub cancel_running : ℕ → Shared → Caller × Shared
cancel_running id s = elim (running_get id s.running) [
  | none ↦ (at_rest (status enojob), s)
  | some f ↦ (at_rest (status status_ok), record s { flags = set s.flags f true })
]

unfoldable pub after_remove : Option (Job × Lanes) → ℕ → Shared → Caller × Shared
unfolding cancelled_done cancel_running
after_remove none id s = cancel_running id s
after_remove (some (j, rest)) id s =
    (cancel_publishes (cancelled_done j), record s { lanes = rest })

-- `cancel` under the mutex.
unfoldable pub cancel_locked : ℕ → Shared → Caller × Shared
unfolding after_remove
cancel_locked id s =
    if s.shutdown
    then (at_rest (status eshutdown), s)
    else let s' = take_inbox s in after_remove (remove_queued id s'.lanes) id s'

-- `poll` collects.
unfoldable pub collect : ℕ → Shared → Caller × Shared
collect max s =
    let out = take max s.done in
    (
      at_rest (dones out),
      record s { done = drop max s.done; past = record (s.past) { handed = s.past.handed ++ out } },
    )

-- Every flag of a running job is set.
unfoldable pub flag_all : List (ℕ × ℕ) → List Bool → List Bool
flag_all [] flags = flags
flag_all ((id, f) ∷ rest) flags = flag_all rest (set flags f true)

-- `close` under the mutex.
unfoldable pub close_locked : Shared → Shared
unfolding flag_all
close_locked s = record s {
  shutdown = true;
  closed = true;
  inbox = [];
  lanes = no_lanes;
  flags = flag_all s.running s.flags;
  past = record (s.past) {
    dropped =
        map (λ n. n.1) s.inbox
        ++ (s.lanes.lane_visible
            ++ (s.lanes.lane_normal ++ (s.lanes.lane_background ++ s.past.dropped)));
  };
}
