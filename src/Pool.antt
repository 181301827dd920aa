-- ===== src/Pool.antt =====
-- core/native/src/pool.rs: the worker pool. This file holds its data and the functions that run
-- under the queue's mutex; the threads that call them are in Pool/Threads.antt and
-- Pool/System.antt.
pub mod Submit
pub mod Accepts
pub mod Threads
pub mod Queued
pub mod Tally
pub mod Invariant
pub mod Notify
pub mod Calls
pub mod Wakeups
pub mod Places
pub mod Conserved
pub mod Once
pub mod Order
pub mod Closing
mod Tests
pub mod System
use mathlib.Core.List.{reverse}
use jupynvim.Prelude.{
  ℕ, ◌+◌, ◌-◌, Bool, true, false, Option, none, some, List, [], ◌∷◌, ◌++◌, length, min,
  if◌then◌else◌, ◌==◌,
}
use jupynvim.Wake.{Wake}
use jupynvim.Wake

-- `Done`: one finished job, as `poll` hands it over.
pub record Done : Type 0 where
  pub job : ℕ
  pub kind : ℕ
  pub status : ℕ
  pub result : Option (List ℕ)

-- `Input`: the caller's pointer and length, or a copy.
pub data Input : Type 0 where
  borrowed : ℕ → ℕ → Input
  owned : List ℕ → Input

-- `Job`. The cancel flag is shared, so it is the address of a flag in `Shared.flags`.
pub record Job : Type 0 where
  pub id : ℕ
  pub kind : ℕ
  pub input : Input
  pub cancel : ℕ

-- An index below `LANES`.
pub data Lane : Type 0 where
  visible normal background : Lane

pub record Lanes : Type 0 where
  pub lane_visible : List Job
  pub lane_normal : List Job
  pub lane_background : List Job

abbrev pub no_lanes : Lanes
no_lanes = record { lane_visible = []; lane_normal = []; lane_background = [] }

-- What happened so far. The program keeps no such record: it is here for what is said of runs.
pub record History : Type 0 where
  pub accepted : List Job
  pub handed : List Done
  pub dropped : List Job

-- `Shared`, with the `Queues` behind its mutex. `held` is the mutex: true while a worker holds it
-- from one step to the next. A node of the inbox is a lane with its job, the newest first.
pub record Shared : Type 0 where
  pub lanes : Lanes
  pub running : List (ℕ × ℕ)
  pub idle : ℕ
  pub woken : ℕ
  pub shutdown : Bool
  pub held : Bool
  pub inbox : List (Lane × Job)
  pub parked : ℕ
  pub waking : ℕ
  pub closed : Bool
  pub done : List Done
  pub wake : Wake
  pub next_id : ℕ
  pub notifies : ℕ
  pub flags : List Bool
  pub past : History

-- The shared state that `Pool::new` makes.
abbrev pub new : Shared
new = record {
  lanes = no_lanes;
  running = [];
  idle = 0;
  woken = 0;
  shutdown = false;
  held = false;
  inbox = [];
  parked = 0;
  waking = 0;
  closed = false;
  done = [];
  wake = Wake.new;
  next_id = 1;
  notifies = 0;
  flags = [];
  past = record { accepted = []; handed = []; dropped = [] };
}

-- `q.lanes[prio].push_back(job)`.
unfoldable pub push_back : Lanes → Lane → Job → Lanes
push_back l visible j = record l { lane_visible = l.lane_visible ++ j ∷ [] }
push_back l normal j = record l { lane_normal = l.lane_normal ++ j ∷ [] }
push_back l background j = record l { lane_background = l.lane_background ++ j ∷ [] }

-- The second loop of `take_inbox`, over the nodes from the oldest on.
unfoldable pub push_all : Lanes → List (Lane × Job) → Lanes
push_all l [] = l
push_all l ((p, j) ∷ rest) = push_all (push_back l p j) rest

-- `take_inbox`: the stack is reversed, and its jobs go into their lanes.
unfoldable pub take_inbox : Shared → Shared
take_inbox s = record s { inbox = []; lanes = push_all s.lanes (reverse s.inbox) }

pop_background : Lanes → List Job → Option (Job × Lanes)
pop_background l [] = none
pop_background l (j ∷ rest) = some (j, record l { lane_background = rest })

pop_normal : Lanes → List Job → Option (Job × Lanes)
pop_normal l [] = pop_background l l.lane_background
pop_normal l (j ∷ rest) = some (j, record l { lane_normal = rest })

pop_visible : Lanes → List Job → Option (Job × Lanes)
pop_visible l [] = pop_normal l l.lane_normal
pop_visible l (j ∷ rest) = some (j, record l { lane_visible = rest })

-- `Queues::pop`: the first job of the first lane that has one.
unfoldable pub pop : Lanes → Option (Job × Lanes)
unfolding pop_background pop_normal pop_visible
pop l = pop_visible l l.lane_visible

-- The number of jobs in the lanes.
unfoldable pub queued : Lanes → ℕ
queued l = length l.lane_visible + length l.lane_normal + length l.lane_background

-- `Queues::claim`: how many wakes are claimed, and the state after it.
unfoldable pub claim : ℕ → Shared → ℕ × Shared
claim n s =
    let k = min n (s.idle - s.woken) in
    (k, record s { woken = s.woken + k; waking = if k == 0 then s.waking else s.woken + k })

-- A removal further down the list, seen from one job before it.
unfoldable pub keep_front : Job → Option (Job × List Job) → Option (Job × List Job)
keep_front j none = none
keep_front j (some (found, left)) = some (found, j ∷ left)

-- `lane.iter().position(..)` and `lane.remove(at)`: the first job with the id, and the rest.
unfoldable pub remove_job : ℕ → List Job → Option (Job × List Job)
unfolding keep_front
remove_job id [] = none
remove_job id (j ∷ rest) = if j.id == id then some (j, rest) else keep_front j (remove_job id rest)

-- The loop of `cancel` over the lanes.
unfoldable pub remove_queued : ℕ → Lanes → Option (Job × Lanes)
unfolding remove_job
remove_queued id l = elim (remove_job id l.lane_visible) [
  | some (j, left) ↦ some (j, record l { lane_visible = left })
  | none ↦ elim (remove_job id l.lane_normal) [
    | some (j, left) ↦ some (j, record l { lane_normal = left })
    | none ↦ elim (remove_job id l.lane_background) [
      | some (j, left) ↦ some (j, record l { lane_background = left })
      | none ↦ none
    ]
  ]
]

-- The map of running jobs: an insert replaces an entry with the same id.
unfoldable pub running_remove : ℕ → List (ℕ × ℕ) → List (ℕ × ℕ)
running_remove id [] = []
running_remove id ((k, f) ∷ rest) =
    let left = running_remove id rest in if k == id then left else (k, f) ∷ left

unfoldable pub running_insert : ℕ → ℕ → List (ℕ × ℕ) → List (ℕ × ℕ)
unfolding running_remove
running_insert id f m = (id, f) ∷ running_remove id m

unfoldable pub running_get : ℕ → List (ℕ × ℕ) → Option ℕ
running_get id [] = none
running_get id ((k, f) ∷ rest) = if k == id then some f else running_get id rest
