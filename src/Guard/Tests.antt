-- ===== src/Guard/Tests.antt =====
-- Runs of the guard's lines and of the backend's calls, and the theorems at concrete inputs.
use jupynvim.Prelude.{ℕ, ◌≡◌, ◌≤◌, refl, true, false, none, some, List, [], ◌∷◌, ◌++◌, arith}
use jupynvim.Prelude.Threads.{total}
use jupynvim.Guard.{serve, to_kill, parse_line, newline, contains, insert, remove, act}
use jupynvim.Guard.Line.{format_line, parse_line-format_line}
use jupynvim.Guard.Respawn.{InOrder, granted, in_window, may_respawn, respawns_bounded, respawn_max}
use jupynvim.Guard.Backend.{
  Env, idle, run, starts, registers, unregisters, exits, Op, finish_in, take_leave, register_in,
}
use jupynvim.Guard.Sync.{Fits}
use jupynvim.Guard.Decimal.{print}
use jupynvim.Guard.Promise.{guard_kills_registered, finished_guard_spares, finish_is_final}

abbrev works : Env
works = record { own = 40; spawned = some 900; accepts = true; now = 5_000 }

abbrev fails : Env
fails = record { own = 40; spawned = some 901; accepts = false; now = 9_000 }

abbrev a_line : List ℕ
a_line = b'+' ∷ b' ' ∷ b'4' ∷ b'2' ∷ []

guard_reads : serve 40 (a_line ++ newline ∷ []) ≡ 42 ∷ []
unfolding serve act
guard_reads = refl

guard_waits : serve 40 a_line ≡ []
unfolding serve act
guard_waits = refl

refuses_one : parse_line (b'+' ∷ b' ' ∷ b'1' ∷ newline ∷ []) ≡ none
unfolding parse_line
refuses_one = refl

refuses_sign : parse_line (b'+' ∷ b' ' ∷ b'+' ∷ b'9' ∷ newline ∷ []) ≡ none
unfolding parse_line
refuses_sign = refl

six_asked : granted [] (1 ∷ 2 ∷ 3 ∷ 4 ∷ 5 ∷ 6 ∷ 60_003 ∷ []) ≡ 1 ∷ 2 ∷ 3 ∷ 4 ∷ 5 ∷ 60_003 ∷ []
unfolding granted
six_asked = refl

-- A guard starts, takes two groups, loses its pipe on the third, exits, and a new one starts.
abbrev calls : List (Env × Op)
calls =
    (works, starts)
    ∷ (works, registers 42)
    ∷ (works, registers 40)
    ∷ (fails, registers 57)
    ∷ (works, exits 900)
    ∷ (works, unregisters 42)
    ∷ []

abbrev pipe : List ℕ
pipe = format_line true 40 ++ format_line true 42 ++ format_line true 57 ++ format_line false 42

calls-groups : (run idle calls).groups ≡ 40 ∷ 57 ∷ []
unfolding run contains insert remove may_respawn
calls-groups = refl

calls-pipe : (run idle calls).stdin ≡ some pipe
unfolding run format_line contains insert remove may_respawn print
calls-pipe = refl

parse_line-format_line_example :
    parse_line (format_line false 2_147_483_647) ≡ some (false, 2_147_483_647)
parse_line-format_line_example =
    parse_line-format_line false 2_147_483_647 (omega arith) (omega arith)

asked-InOrder : InOrder 0 (1 ∷ 2 ∷ 3 ∷ 4 ∷ 5 ∷ 6 ∷ 60_003 ∷ [])
asked-InOrder = (
  omega arith,
  (omega arith, (omega arith, (omega arith, (omega arith, (omega arith, (omega arith, tt)))))),
)

respawns_bounded_example :
    total (in_window 2) (granted [] (1 ∷ 2 ∷ 3 ∷ 4 ∷ 5 ∷ 6 ∷ 60_003 ∷ [])) ≤ respawn_max
respawns_bounded_example = respawns_bounded (1 ∷ 2 ∷ 3 ∷ 4 ∷ 5 ∷ 6 ∷ 60_003 ∷ []) asked-InOrder 2

calls-Fits : Fits calls
calls-Fits = (omega arith, (omega arith, (omega arith, tt)))

guard_kills_registered_example :
    serve 40 (pipe ++ b'+' ∷ b' ' ∷ b'8' ∷ []) ≡ to_kill 40 (run idle calls).groups
unfolding contains
guard_kills_registered_example =
    guard_kills_registered calls 40 pipe (b'+' ∷ b' ' ∷ b'8' ∷ []) calls-Fits calls-pipe refl

abbrev last_pipe : List ℕ
last_pipe = pipe ++ format_line false 40 ++ format_line false 57

last_write : (take_leave works (run idle calls)).stdin ≡ some last_pipe
unfolding run take_leave format_line contains insert remove may_respawn print
last_write = refl

finished_guard_spares_example : serve 7 last_pipe ≡ []
finished_guard_spares_example = finished_guard_spares calls works 7 last_pipe calls-Fits last_write

finish_is_final_example :
    let done = run (finish_in works (run idle calls)).0 calls in
    (done.groups ≡ []) × (done.stdin ≡ none) × (register_in works 77 done ≡ (done, 77 ∷ []))
finish_is_final_example = finish_is_final (run idle calls) works calls works 77
