-- ===== src/Pool/Queued.antt =====
-- The lanes as a queue: what `take_inbox`, `pop` and the removal of a queued job do to them.
use mathlib.Core.List.{reverse, reverse-cons}
use jupynvim.Prelude.{
  ℕ, ◌+◌, ◌≡◌, refl, ap, Option, none, some, List, [], ◌∷◌, arith, length, length-append,
}
use jupynvim.Pool.{
  Job, Lane, visible, normal, background, Lanes, Shared, push_back, push_all, take_inbox, pop,
  queued, remove_job, remove_queued,
}

pub length-reverse {ℓ} : {A : Type ℓ} (xs : List A) → length (reverse xs) ≡ length xs
length-reverse [] = refl
length-reverse (x ∷ xs) =
    omega
      (arith, ap length (reverse-cons x xs), length-append (reverse xs) (x ∷ []), length-reverse xs)

queued-push_back : (l : Lanes) (p : Lane) (j : Job) → queued (push_back l p j) ≡ queued l + 1
unfolding queued push_back
queued-push_back l visible j = omega (arith, length-append l.lane_visible (j ∷ []))
queued-push_back l normal j = omega (arith, length-append l.lane_normal (j ∷ []))
queued-push_back l background j = omega (arith, length-append l.lane_background (j ∷ []))

queued-push_all :
    (l : Lanes) (ns : List (Lane × Job)) → queued (push_all l ns) ≡ queued l + length ns
unfolding push_all
queued-push_all l [] = omega arith
queued-push_all l ((p, j) ∷ rest) =
    omega (arith, queued-push_back l p j, queued-push_all (push_back l p j) rest)

-- Moving the inbox loses no job.
pub queued-take_inbox : (s : Shared) → queued (take_inbox s).lanes ≡ queued s.lanes + length s.inbox
unfolding take_inbox
queued-take_inbox s =
    omega (arith, queued-push_all s.lanes (reverse s.inbox), length-reverse s.inbox)

-- `pop` finds nothing in empty lanes only, and else takes one job out.
abbrev pub Popped : Lanes → Option (Job × Lanes) → Type 0
Popped l none = queued l ≡ 0
Popped l (some (j, rest)) = queued l ≡ queued rest + 1

pub pop-Popped : (l : Lanes) → Popped l (pop l)
unfolding pop queued
pop-Popped l = ground arith

-- A removal, if it finds the job, takes one job out.
abbrev pub Shorter : List Job → Option (Job × List Job) → Type 0
Shorter js none = Unit
Shorter js (some (j, rest)) = length js ≡ length rest + 1

remove_job-Shorter : (id : ℕ) (js : List Job) → Shorter js (remove_job id js)
unfolding remove_job
remove_job-Shorter id [] = tt
remove_job-Shorter id (k ∷ js) = ground (arith, remove_job-Shorter id js)

abbrev pub Removed : Lanes → Option (Job × Lanes) → Type 0
Removed l none = Unit
Removed l (some (j, rest)) = queued l ≡ queued rest + 1

pub remove_queued-Removed : (id : ℕ) (l : Lanes) → Removed l (remove_queued id l)
unfolding remove_queued queued
remove_queued-Removed id l = ground (
  arith,
  remove_job-Shorter id l.lane_visible,
  remove_job-Shorter id l.lane_normal,
  remove_job-Shorter id l.lane_background,
)
