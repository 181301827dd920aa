-- ===== src/Guard/Promise.antt =====
-- What the guard does for the backend: a backend that is gone leaves no kernel behind, and one that
-- has left in order leaves none to its guard.
use jupynvim.Prelude.{
  ℕ, ◌≡◌, refl, sym, ap, subst, ◌∙◌, Bool, true, false, ◌||◌, not, Option, none, some, List, [],
  ◌∷◌, ◌++◌, arith, append-nil, if◌then◌else◌, if_elim, leb, ◌==◌,
}
use jupynvim.Guard.{newline, contains, Reader, new_reader, read_byte, read_all, to_kill, serve}
use jupynvim.Guard.Backend.{
  State, Env, idle, register_in, unregister_in, on_exit_in, start, take_leave, finish_in, Op,
  starts, registers, unregisters, exits, finishes, step, run, greet, lines, is_pid, send, send_to,
}
use jupynvim.Guard.Told.{read_all-append, Reads}
use jupynvim.Guard.Sync.{Fits, run-Synced, idle-Synced, take_leave-Synced}

-- Bytes of a line that is not ended leave the groups as they are.
partial-groups :
    (r : Reader) (bytes : List ℕ)
    → contains newline bytes ≡ false
    → (read_all r bytes).groups ≡ r.groups
unfolding read_all read_byte contains
partial-groups r [] h = refl
partial-groups r (b ∷ bytes) h = ground (arith, partial-groups (read_byte r b) bytes)

serve-Reads :
    (own : ℕ) (w partial gs : List ℕ)
    → Reads (some w) gs
    → contains newline partial ≡ false
    → serve own (w ++ partial) ≡ to_kill own gs
unfolding serve
serve-Reads own w partial gs r h =
    ap (λ x. to_kill own x.groups) (read_all-append new_reader w partial)
    ∙ ap (to_kill own) (partial-groups (read_all new_reader w) partial h)
    ∙ ap (λ x. to_kill own x.groups) r

-- After any calls of the backend that register ids within `i32`, whatever guards exited and were
-- started, however their pipes failed: a guard that is running and reads the end of its input, at
-- most a part of a line behind the backend's last write, stops the registered groups, all of them
-- but its own, and no others.
pub guard_kills_registered :
    (ops : List (Env × Op)) (own : ℕ) (w partial : List ℕ)
    → Fits ops
    → (run idle ops).stdin ≡ some w
    → contains newline partial ≡ false
    → serve own (w ++ partial) ≡ to_kill own (run idle ops).groups
guard_kills_registered ops own w partial f e h =
    serve-Reads own w partial (run idle ops).groups
      (subst (λ x. Reads x (run idle ops).groups) e (run-Synced idle ops f idle-Synced).reads) h

-- What holds for good once `finish` ran.
record Finished (st : State) : Type 0 where
  f_finishing : st.finishing ≡ true
  f_groups : st.groups ≡ []
  f_stdin : st.stdin ≡ none

send-fields :
    (e : Env) (text : List ℕ) (st : State)
    → ((send e text st).groups ≡ st.groups) × ((send e text st).finishing ≡ st.finishing)
unfolding send send_to
send-fields e text st = go st.stdin
  where
    go :
        (o : Option (List ℕ))
        → ((send_to e text st o).groups ≡ st.groups)
          × ((send_to e text st o).finishing ≡ st.finishing)
    go none = (refl, refl)
    go (some w) =
        if_elim {A = State} (λ s. (s.groups ≡ st.groups) × (s.finishing ≡ st.finishing)) e.accepts _
          _ (λ _. (refl, refl)) (λ _. (refl, refl))

greet-fields :
    (e : Env) (add : Bool) (gs : List ℕ) (st : State)
    → ((greet e add gs st).groups ≡ st.groups) × ((greet e add gs st).finishing ≡ st.finishing)
unfolding greet
greet-fields e add [] st = (refl, refl)
greet-fields e add (g ∷ gs) st = send-fields e (lines add (g ∷ gs)) st

finish_in-Finished : (e : Env) (st : State) → Finished (finish_in e st).0
unfolding finish_in take_leave
finish_in-Finished e st =
    let st' : State = record st { finishing = true; groups = [] } in
    let (g, f) = greet-fields e false st.groups st' in
    record { f_finishing = f; f_groups = g; f_stdin = refl }

unregister_in-Finished :
    (e : Env) (g : ℕ) (st : State) → Finished st → Finished (unregister_in e g st)
unfolding unregister_in contains
unregister_in-Finished e g st fin =
    let empty : contains g st.groups ≡ false = ap (contains g) fin.f_groups in
    if_elim Finished (contains g st.groups) _ _ (λ h. absurd (ground arith)) (λ _. fin)

start-Finished : (e : Env) (st : State) → Finished st → Finished (start e st)
unfolding start
start-Finished e st fin =
    if_elim Finished (st.finishing || st.dir) _ _ (λ _. fin)
      (λ running. absurd (ground (arith, fin.f_finishing)))

on_exit_in-Finished :
    (e : Env) (pid : ℕ) (st : State) → Finished st → Finished (on_exit_in e pid st)
unfolding on_exit_in
on_exit_in-Finished e pid st fin =
    if_elim Finished (not (is_pid pid st.pid) || st.finishing) _ _ (λ _. fin)
      (λ running. absurd (ground (arith, fin.f_finishing)))

one_group :
    (own g : ℕ)
    → leb g 1 ≡ false
    → to_kill own (g ∷ []) ≡ (if leb g 1 || g == own then [] else g ∷ [])
unfolding to_kill
one_group own g big = ground arith

register_in-late :
    (e : Env) (g : ℕ) (st : State)
    → Finished st
    → register_in e g st ≡ (st, if leb g 1 || g == e.own then [] else g ∷ [])
unfolding register_in to_kill
register_in-late e g st fin =
    if_elim (λ r. r ≡ (st, if leb g 1 || g == e.own then [] else g ∷ [])) (leb g 1) _ _
      (λ small. rw small refl)
      (λ big.
        if_elim (λ r. r ≡ (st, if leb g 1 || g == e.own then [] else g ∷ [])) st.finishing _ _
          (λ _. ap (λ l. (st, l)) (one_group e.own g big))
          (λ running. absurd (ground (arith, fin.f_finishing))))

step-Finished : (st : State) (op : Env × Op) → Finished st → Finished (step st op)
unfolding step
step-Finished st (e, starts) fin = start-Finished e st fin
step-Finished st (e, registers g) fin =
    subst Finished (sym (ap (λ r. r.0) (register_in-late e g st fin))) fin
step-Finished st (e, unregisters g) fin = unregister_in-Finished e g st fin
step-Finished st (e, exits pid) fin = on_exit_in-Finished e pid st fin
step-Finished st (e, finishes) fin = finish_in-Finished e st

run-Finished : (st : State) (ops : List (Env × Op)) → Finished st → Finished (run st ops)
unfolding run
run-Finished st [] fin = fin
run-Finished st (op ∷ ops) fin = run-Finished (step st op) ops (step-Finished st op fin)

-- Whatever happened before: the guard that is running while `finish` leaves, and that reads what
-- was written to it to the end, stops no group.
pub finished_guard_spares :
    (ops : List (Env × Op)) (e : Env) (own : ℕ) (w : List ℕ)
    → Fits ops
    → (take_leave e (run idle ops)).stdin ≡ some w
    → serve own w ≡ []
unfolding to_kill contains take_leave finish_in
finished_guard_spares ops e own w f p =
    let st = run idle ops in
    let s = take_leave-Synced e st (run-Synced idle ops f idle-Synced) in
    let r = subst (λ x. Reads x (take_leave e st).groups) p s.reads in
    ap (serve own) (sym (append-nil w))
    ∙ serve-Reads own w [] (take_leave e st).groups r refl
    ∙ ap (to_kill own) (finish_in-Finished e st).f_groups

-- After `finish`, whatever calls follow: no group is registered, no guard is connected, and a
-- group that is registered late is stopped at once, unless it is the backend's own or not above 1.
pub finish_is_final :
    (st : State) (e : Env) (later : List (Env × Op)) (e' : Env) (g : ℕ)
    → let done = run (finish_in e st).0 later in
      (done.groups ≡ [])
      × (done.stdin ≡ none)
      × (register_in e' g done ≡ (done, if leb g 1 || g == e'.own then [] else g ∷ []))
finish_is_final st e later e' g =
    let fin = run-Finished (finish_in e st).0 later (finish_in-Finished e st) in
    (fin.f_groups, fin.f_stdin, register_in-late e' g (run (finish_in e st).0 later) fin)
