-- ===== src/Guard/Backend.antt =====
-- The backend's side of core/src/guard.rs: the registered groups, the pipe to the guard that runs,
-- and the starts of a new one. A pipe is the bytes written to the guard so far.
use jupynvim.Prelude.{
  ℕ, Bool, true, false, ◌||◌, not, Option, none, some, List, [], ◌∷◌, ◌++◌, leb, ◌==◌,
  if◌then◌else◌,
}
use jupynvim.Guard.{contains, insert, remove, to_kill}
use jupynvim.Guard.Line.{format_line}
use jupynvim.Guard.Respawn.{may_respawn}

pub record State : Type 0 where
  -- whether `start` was called
  pub dir : Bool
  pub stdin : Option (List ℕ)
  pub pid : Option ℕ
  pub groups : List ℕ
  pub finishing : Bool
  pub respawns : List ℕ

-- What the system answers during one call: the caller's own group, the pid of a guard that is
-- started (`none` where none can be), whether writes to its pipe succeed, and the time.
pub record Env : Type 0 where
  pub own : ℕ
  pub spawned : Option ℕ
  pub accepts : Bool
  pub now : ℕ

abbrev pub idle : State
idle = record {
  dir = false;
  stdin = none;
  pid = none;
  groups = [];
  finishing = false;
  respawns = [];
}

-- The lines for several groups.
unfoldable pub lines : Bool → List ℕ → List ℕ
lines add [] = []
lines add (g ∷ rest) = format_line add g ++ lines add rest

unfoldable pub is_some : Option (List ℕ) → Bool
is_some none = false
is_some (some w) = true

unfoldable pub send_to : Env → List ℕ → State → Option (List ℕ) → State
send_to e text st none = st
send_to e text st (some w) =
    if e.accepts then record st { stdin = some (w ++ text) } else record st { stdin = none }

-- `State::send`.
unfoldable pub send : Env → List ℕ → State → State
unfolding send_to
send e text st = send_to e text st st.stdin

-- The lines for the groups that are registered, where there are any.
unfoldable pub greet : Env → Bool → List ℕ → State → State
unfolding send lines
greet e add [] st = st
greet e add (g ∷ gs) st = send e (lines add (g ∷ gs)) st

unfoldable pub spawn_with : Env → State → Option ℕ → State
unfolding greet
spawn_with e st none = st
spawn_with e st (some new_pid) =
    let st' : State = record st { stdin = some []; pid = some new_pid } in
    greet e true st.groups st'

-- `spawn_locked`. The thread that waits for the guard calls `on_exit` later.
unfoldable pub spawn : Env → State → State
unfolding spawn_with
spawn e st = if st.dir then spawn_with e st e.spawned else st

-- `may_respawn` on the state, and the start that it allows.
unfoldable pub respawn : Env → State → State
unfolding spawn
respawn e st =
    let r = may_respawn e.now st.respawns in
    let st' : State = record st { respawns = r.1 } in if r.0 then spawn e st' else st'

-- The end of `register_in`, for a group that is new.
unfoldable pub announce : Env → ℕ → State → State
unfolding is_some send respawn
announce e pgid st =
    if is_some st.stdin
    then send e (format_line true pgid) st
    else if st.dir
    then respawn e st
    else st

-- `State::register_in`: the new state, and the groups sent SIGKILL.
unfoldable pub register_in : Env → ℕ → State → State × List ℕ
unfolding announce
register_in e pgid st =
    if leb pgid 1
    then (st, [])
    else if st.finishing
    then (st, to_kill e.own (pgid ∷ []))
    else if contains pgid st.groups
    then (st, [])
    else (announce e pgid (record st { groups = insert pgid st.groups }), [])

unfoldable pub is_pid : ℕ → Option ℕ → Bool
is_pid p none = false
is_pid p (some q) = q == p

-- `State::on_exit_in`.
unfoldable pub on_exit_in : Env → ℕ → State → State
unfolding respawn is_pid
on_exit_in e pid st =
    if not (is_pid pid st.pid) || st.finishing
    then st
    else respawn e (record st { stdin = none; pid = none })

-- `State::unregister_in`.
unfoldable pub unregister_in : Env → ℕ → State → State
unfolding send
unregister_in e pgid st =
    if contains pgid st.groups
    then send e (format_line false pgid) (record st { groups = remove pgid st.groups })
    else st

-- `State::finish_in` up to the pipe's end: what is written last, with every group taken.
unfoldable pub take_leave : Env → State → State
unfolding greet
take_leave e st =
    let st' : State = record st { finishing = true; groups = [] } in greet e false st.groups st'

-- `State::finish_in`: the new state, and the groups sent SIGKILL.
unfoldable pub finish_in : Env → State → State × List ℕ
unfolding take_leave
finish_in e st = (record (take_leave e st) { stdin = none }, to_kill e.own st.groups)

-- `start`.
unfoldable pub start : Env → State → State
unfolding spawn
start e st = if st.finishing || st.dir then st else spawn e (record st { dir = true })

-- A call of the backend's side.
pub data Op : Type 0 where
  starts : Op
  registers : ℕ → Op
  unregisters : ℕ → Op
  exits : ℕ → Op
  finishes : Op

unfoldable pub step : State → Env × Op → State
unfolding start register_in unregister_in on_exit_in finish_in
step st (e, starts) = start e st
step st (e, registers g) = (register_in e g st).0
step st (e, unregisters g) = unregister_in e g st
step st (e, exits pid) = on_exit_in e pid st
step st (e, finishes) = (finish_in e st).0

unfoldable pub run : State → List (Env × Op) → State
unfolding step
run st [] = st
run st (op ∷ rest) = run (step st op) rest
