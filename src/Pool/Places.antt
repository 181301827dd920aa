-- ===== src/Pool/Places.antt =====
-- Where a job can be: on the inbox, in a lane, with a worker or a caller, among the completions,
-- handed to a caller, or dropped. Jobs and completions are weighed by a test on id and kind.
use mathlib.Core.List.{reverse}
use jupynvim.Prelude.{
  ℕ, ◌+◌, ◌≡◌, refl, sym, ◌∙◌, Bool, Option, none, some, List, [], ◌∷◌, ◌++◌, arith, map, if_elim,
  ◌==◌,
}
use jupynvim.Prelude.Threads.{
  one_if, total, total-append, total-reverse, total-nil, total-cons, total-take-drop,
}
use jupynvim.Pool.{
  Done, Job, Lane, visible, normal, background, Lanes, Shared, push_back, push_all, take_inbox, pop,
  pop_background, pop_normal, pop_visible, keep_front, remove_job, remove_queued,
}
use jupynvim.Pool.Threads.{
  Outcome, finished, job_error, job_cancelled, panicked, completion, Worker, notifying, runs, ran,
  publishing, Caller, cancel_publishes, collect, close_locked,
}

module _ (p : ℕ → ℕ → Bool) where
  abbrev pub of_job : Job → ℕ
  of_job j = one_if (p j.id j.kind)

  abbrev pub of_node : Lane × Job → ℕ
  of_node n = of_job n.1

  abbrev pub of_done : Done → ℕ
  of_done d = one_if (p d.job d.kind)

  abbrev pub of_worker : Worker → ℕ
  of_worker (notifying j n) = of_job j
  of_worker (runs j) = of_job j
  of_worker (ran j d) = of_done d
  of_worker (publishing d) = of_done d
  of_worker _ = 0

  abbrev pub of_caller : Caller → ℕ
  of_caller (cancel_publishes d) = of_done d
  of_caller _ = 0

  abbrev pub in_lanes : Lanes → ℕ
  in_lanes l =
      total of_job l.lane_visible + total of_job l.lane_normal + total of_job l.lane_background

  -- Everything that the shared state holds of the jobs accepted so far.
  abbrev pub in_shared : Shared → ℕ
  in_shared m =
      total of_node m.inbox
      + in_lanes m.lanes
      + total of_done m.done
      + total of_done m.past.handed
      + total of_job m.past.dropped

  pub of_done-completion : (j : Job) (o : Outcome) → of_done (completion j o) ≡ of_job j
  unfolding completion
  of_done-completion j (finished r) = refl
  of_done-completion j (job_error e) = refl
  of_done-completion j job_cancelled = refl
  of_done-completion j (panicked e) = refl

  total-snoc : (js : List Job) (j : Job) → total of_job (js ++ j ∷ []) ≡ total of_job js + of_job j
  total-snoc js j =
      omega (arith, total-append of_job js (j ∷ []), total-cons of_job j [], total-nil of_job)

  in_lanes-push_back :
      (l : Lanes) (a : Lane) (j : Job) → in_lanes (push_back l a j) ≡ in_lanes l + of_job j
  unfolding push_back
  in_lanes-push_back l visible j = omega (arith, total-snoc l.lane_visible j)
  in_lanes-push_back l normal j = omega (arith, total-snoc l.lane_normal j)
  in_lanes-push_back l background j = omega (arith, total-snoc l.lane_background j)

  in_lanes-push_all :
      (l : Lanes) (ns : List (Lane × Job))
      → in_lanes (push_all l ns) ≡ in_lanes l + total of_node ns
  unfolding push_all
  in_lanes-push_all l [] = omega (arith, total-nil of_node)
  in_lanes-push_all l ((a, j) ∷ rest) = omega (
    arith,
    in_lanes-push_back l a j,
    in_lanes-push_all (push_back l a j) rest,
    total-cons of_node (a, j) rest,
  )

  -- The inbox moves into the lanes whole.
  pub in_shared-take_inbox : (m : Shared) → in_shared (take_inbox m) ≡ in_shared m
  unfolding take_inbox
  in_shared-take_inbox m = omega (
    arith,
    in_lanes-push_all m.lanes (reverse m.inbox),
    total-reverse of_node m.inbox,
    total-nil of_node,
  )

  abbrev pub Took : Lanes → Option (Job × Lanes) → Type 0
  Took l none = Unit
  Took l (some (j, rest)) = in_lanes l ≡ in_lanes rest + of_job j

  background-Took :
      (l : Lanes) (js : List Job) → l.lane_background ≡ js → Took l (pop_background l js)
  unfolding pop_background
  background-Took l [] e = tt
  background-Took l (j ∷ rest) e = ground (arith, total-cons of_job j rest)

  normal-Took : (l : Lanes) (js : List Job) → l.lane_normal ≡ js → Took l (pop_normal l js)
  unfolding pop_normal
  normal-Took l [] e = background-Took l l.lane_background refl
  normal-Took l (j ∷ rest) e = ground (arith, total-cons of_job j rest)

  visible-Took : (l : Lanes) (js : List Job) → l.lane_visible ≡ js → Took l (pop_visible l js)
  unfolding pop_visible
  visible-Took l [] e = normal-Took l l.lane_normal refl
  visible-Took l (j ∷ rest) e = ground (arith, total-cons of_job j rest)

  pub pop-Took : (l : Lanes) → Took l (pop l)
  unfolding pop
  pop-Took l = visible-Took l l.lane_visible refl

  abbrev TookOne : List Job → Option (Job × List Job) → Type 0
  TookOne js none = Unit
  TookOne js (some (j, rest)) = total of_job js ≡ total of_job rest + of_job j

  keep_front-TookOne :
      (k : Job) (js : List Job) (found : Option (Job × List Job))
      → TookOne js found
      → TookOne (k ∷ js) (keep_front k found)
  unfolding keep_front
  keep_front-TookOne k js none h = tt
  keep_front-TookOne k js (some (j, left)) h =
      omega (arith, total-cons of_job k js, total-cons of_job k left)

  remove_job-TookOne : (id : ℕ) (js : List Job) → TookOne js (remove_job id js)
  unfolding remove_job
  remove_job-TookOne id [] = tt
  remove_job-TookOne id (k ∷ js) =
      if_elim (TookOne (k ∷ js)) (k.id == id) (some (k, js)) (keep_front k (remove_job id js))
        (λ _. omega (arith, total-cons of_job k js))
        (λ _. keep_front-TookOne k js (remove_job id js) (remove_job-TookOne id js))

  pub remove_queued-Took : (id : ℕ) (l : Lanes) → Took l (remove_queued id l)
  unfolding remove_queued
  remove_queued-Took id l = ground (
    arith,
    remove_job-TookOne id l.lane_visible,
    remove_job-TookOne id l.lane_normal,
    remove_job-TookOne id l.lane_background,
  )

  total-map_snd : (ns : List (Lane × Job)) → total of_job (map (λ n. n.1) ns) ≡ total of_node ns
  total-map_snd [] = total-nil of_job ∙ sym (total-nil of_node)
  total-map_snd (n ∷ ns) =
      omega (
        arith,
        total-cons of_node n ns,
        total-map_snd ns,
        total-cons of_job n.1 (map (λ x. x.1) ns),
      )

  pub in_shared-close_locked : (m : Shared) → in_shared (close_locked m) ≡ in_shared m
  unfolding close_locked
  in_shared-close_locked m = omega (
    arith,
    total-nil of_node,
    total-nil of_job,
    total-map_snd m.inbox,
    total-append of_job (map (λ n. n.1) m.inbox),
    total-append of_job m.lanes.lane_visible,
    total-append of_job m.lanes.lane_normal,
    total-append of_job m.lanes.lane_background,
  )

  pub in_shared-collect : (max : ℕ) (m : Shared) → in_shared (collect max m).1 ≡ in_shared m
  unfolding collect
  in_shared-collect max m =
      omega (arith, total-take-drop of_done max m.done, total-append of_done m.past.handed)
