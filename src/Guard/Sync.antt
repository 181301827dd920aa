-- ===== src/Guard/Sync.antt =====
-- The guard that runs knows the groups that the backend has registered, whatever happened to
-- earlier guards.
use jupynvim.Prelude.{
  ℕ, ◌≤◌, ◌≡◌, refl, sym, ap, ◌∙◌, subst, Bool, true, false, ◌||◌, Option, none, some, List, [],
  ◌∷◌, arith, if◌then◌else◌, if_elim, leb,
}
use jupynvim.Guard.{i32_max, insert, remove, contains, new_reader, read_all}
use jupynvim.Guard.Line.{format_line}
use jupynvim.Guard.Respawn.{may_respawn}
use jupynvim.Guard.Backend.{
  State, Env, idle, lines, send, send_to, greet, spawn_with, is_some, spawn, respawn, announce,
  register_in, on_exit_in, unregister_in, take_leave, finish_in, start, Op, starts, registers,
  unregisters, exits, finishes, step, run,
}
use jupynvim.Guard.Told.{
  Ascends, insert-Ascends, remove-Ascends, at_boundary, read_all-lines, read_all-append, Reads,
  read_all-one, contains-bounds, read_all-farewell,
}

pub record Synced (st : State) : Type 0 where
  pub ordered : Ascends 1 st.groups
  pub reads : Reads st.stdin st.groups

-- A text that takes the guard from one set of groups to the one registered.
send-Synced :
    (e : Env) (text : List ℕ) (st : State) (gs : List ℕ)
    → Ascends 1 st.groups
    → Reads st.stdin gs
    → read_all (at_boundary gs) text ≡ at_boundary st.groups
    → Synced (send e text st)
unfolding send send_to
send-Synced e text st gs a r t = go st.stdin refl r
  where
    go : (o : Option (List ℕ)) → st.stdin ≡ o → Reads o gs → Synced (send_to e text st o)
    go none p q = record { ordered = a; reads = subst (λ x. Reads x st.groups) (sym p) tt }
    go (some w) p q =
        if_elim Synced e.accepts _ _
          (λ _. record {
            ordered = a;
            reads = read_all-append new_reader w text ∙ ap (λ x. read_all x text) q ∙ t;
          })
          (λ _. record { ordered = a; reads = tt })

greet-Synced :
    (e : Env) (add : Bool) (more : List ℕ) (st : State) (gs : List ℕ)
    → Ascends 1 st.groups
    → Reads st.stdin gs
    → read_all (at_boundary gs) (lines add more) ≡ at_boundary st.groups
    → Synced (greet e add more st)
unfolding greet lines read_all
greet-Synced e add [] st gs a r t = record {
  ordered = a;
  reads = subst (Reads st.stdin) (ap (λ x. x.groups) t) r;
}
greet-Synced e add (g ∷ more) st gs a r t = send-Synced e (lines add (g ∷ more)) st gs a r t

spawn-Synced : (e : Env) (st : State) → Synced st → Synced (spawn e st)
unfolding spawn spawn_with read_all
spawn-Synced e st s = if_elim Synced st.dir _ _ (λ _. go e.spawned) (λ _. s)
  where
    go : (o : Option ℕ) → Synced (spawn_with e st o)
    go none = s
    go (some new_pid) =
        let st' : State = record st { stdin = some []; pid = some new_pid } in
        greet-Synced e true st.groups st' [] s.ordered refl (read_all-lines [] st.groups s.ordered)

respawn-Synced : (e : Env) (st : State) → Synced st → Synced (respawn e st)
unfolding respawn
respawn-Synced e st s =
    let st' : State = record st { respawns = (may_respawn e.now st.respawns).1 } in
    let s' : Synced st' = record { ordered = s.ordered; reads = s.reads } in
    if_elim Synced (may_respawn e.now st.respawns).0 _ _ (λ _. spawn-Synced e st' s') (λ _. s')

announce-Synced :
    (e : Env) (pgid : ℕ) (st : State) (gs : List ℕ)
    → Ascends 1 st.groups
    → Reads st.stdin gs
    → read_all (at_boundary gs) (format_line true pgid) ≡ at_boundary st.groups
    → Synced (announce e pgid st)
unfolding announce
announce-Synced e pgid st gs a r t = go st.stdin refl
  where
    rest : State
    rest = if st.dir then respawn e st else st

    go :
        (o : Option (List ℕ))
        → st.stdin ≡ o
        → Synced (if is_some o then send e (format_line true pgid) st else rest)
    go none p =
        let s : Synced st = record {
          ordered = a;
          reads = subst (λ x. Reads x st.groups) (sym p) tt;
        } in
        if_elim Synced st.dir _ _ (λ _. respawn-Synced e st s) (λ _. s)
    go (some w) p = send-Synced e (format_line true pgid) st gs a r t

register_in-Synced :
    (e : Env) (pgid : ℕ) (st : State)
    → pgid ≤ i32_max
    → Synced st
    → Synced (register_in e pgid st).0
unfolding register_in
register_in-Synced e pgid st fits s =
    if_elim {A = State × List ℕ} (λ r. Synced r.0) (leb pgid 1) _ _ (λ _. s)
      (λ big.
        if_elim {A = State × List ℕ} (λ r. Synced r.0) st.finishing _ _ (λ _. s)
          (λ _.
            if_elim {A = State × List ℕ} (λ r. Synced r.0) (contains pgid st.groups) _ _ (λ _. s)
              (λ _.
                announce-Synced e pgid (record st { groups = insert pgid st.groups }) st.groups
                  (insert-Ascends 1 pgid st.groups (ground arith) fits s.ordered) s.reads
                  (read_all-one true pgid st.groups (ground arith) fits))))

unregister_in-Synced :
    (e : Env) (pgid : ℕ) (st : State) → Synced st → Synced (unregister_in e pgid st)
unfolding unregister_in
unregister_in-Synced e pgid st s =
    if_elim Synced (contains pgid st.groups) _ _
      (λ h.
        let (big, fits) = contains-bounds 1 pgid st.groups s.ordered h in
        send-Synced e (format_line false pgid) (record st { groups = remove pgid st.groups })
          st.groups (remove-Ascends 1 pgid st.groups s.ordered) s.reads
          (read_all-one false pgid st.groups big fits))
      (λ _. s)

on_exit_in-Synced : (e : Env) (pid : ℕ) (st : State) → Synced st → Synced (on_exit_in e pid st)
unfolding on_exit_in
on_exit_in-Synced e pid st s =
    if_elim Synced _ _ _ (λ _. s)
      (λ _.
        respawn-Synced e (record st { stdin = none; pid = none })
          (record { ordered = s.ordered; reads = tt }))

start-Synced : (e : Env) (st : State) → Synced st → Synced (start e st)
unfolding start
start-Synced e st s =
    if_elim Synced (st.finishing || st.dir) _ _ (λ _. s)
      (λ _.
        spawn-Synced e (record st { dir = true }) (record { ordered = s.ordered; reads = s.reads }))

pub take_leave-Synced : (e : Env) (st : State) → Synced st → Synced (take_leave e st)
unfolding take_leave
take_leave-Synced e st s =
    greet-Synced e false st.groups (record st { finishing = true; groups = [] }) st.groups tt
      s.reads (read_all-farewell 1 st.groups (omega arith) s.ordered)

finish_in-Synced : (e : Env) (st : State) → Synced st → Synced (finish_in e st).0
unfolding finish_in
finish_in-Synced e st s = record { ordered = (take_leave-Synced e st s).ordered; reads = tt }

-- The ids that the calls register are `i32`s.
abbrev pub Fits : List (Env × Op) → Type 0
Fits [] = Unit
Fits ((e, registers g) ∷ rest) = (g ≤ i32_max) × Fits rest
Fits ((e, starts) ∷ rest) = Fits rest
Fits ((e, unregisters g) ∷ rest) = Fits rest
Fits ((e, exits pid) ∷ rest) = Fits rest
Fits ((e, finishes) ∷ rest) = Fits rest

pub run-Synced : (st : State) (ops : List (Env × Op)) → Fits ops → Synced st → Synced (run st ops)
unfolding run step
run-Synced st [] f s = s
run-Synced st ((e, starts) ∷ rest) f s = run-Synced (start e st) rest f (start-Synced e st s)
run-Synced st ((e, registers g) ∷ rest) f s =
    run-Synced (register_in e g st).0 rest f.1 (register_in-Synced e g st f.0 s)
run-Synced st ((e, unregisters g) ∷ rest) f s =
    run-Synced (unregister_in e g st) rest f (unregister_in-Synced e g st s)
run-Synced st ((e, exits pid) ∷ rest) f s =
    run-Synced (on_exit_in e pid st) rest f (on_exit_in-Synced e pid st s)
run-Synced st ((e, finishes) ∷ rest) f s =
    run-Synced (finish_in e st).0 rest f (finish_in-Synced e st s)

pub idle-Synced : Synced idle
idle-Synced = record { ordered = tt; reads = tt }
