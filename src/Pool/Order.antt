-- ===== src/Pool/Order.antt =====
-- The queue as its callers see it: three classes, each first in first out, the most urgent first.
-- The inbox, which no lock guards, and the lanes are two halves of each class.
use mathlib.Core.List.{reverse, reverse-cons}
use jupynvim.Prelude.{
  ℕ, ◌≡◌, refl, sym, ap, ◌∙◌, ◌⊎◌, inl, inr, Bool, true, false, Option, none, some, List, [], ◌∷◌,
  ◌++◌, append_assoc, append-nil, subst, arith, if_elim, if◌then◌else◌,
}
use jupynvim.Pool.{
  Job, Lane, visible, normal, background, Lanes, Shared, push_back, push_all, take_inbox, claim,
  pop,
}
use jupynvim.Pool.Threads.{Worker, notifying, found_none, after_pop, look_for_job, push}

abbrev pub lane_jobs : Lanes → Lane → List Job
lane_jobs l visible = l.lane_visible
lane_jobs l normal = l.lane_normal
lane_jobs l background = l.lane_background

abbrev pub same_lane : Lane → Lane → Bool
same_lane visible visible = true
same_lane normal normal = true
same_lane background background = true
same_lane _ _ = false

-- The jobs of one class among nodes, in the nodes' order.
abbrev pub of_class : Lane → List (Lane × Job) → List Job
of_class a [] = []
of_class a ((b, j) ∷ rest) = let left = of_class a rest in if same_lane b a then j ∷ left else left

-- One class of the queue, the oldest job first.
abbrev pub class : Shared → Lane → List Job
class m a = lane_jobs m.lanes a ++ of_class a (reverse m.inbox)

-- The whole queue, in the order in which workers take it.
abbrev pub agenda : Shared → List Job
agenda m = class m visible ++ (class m normal ++ class m background)

of_class-append :
    (a : Lane) (ns ms : List (Lane × Job)) → of_class a (ns ++ ms) ≡ of_class a ns ++ of_class a ms
of_class-append a [] ms = refl
of_class-append a ((b, j) ∷ ns) ms = ground (arith, of_class-append a ns ms)

lane_jobs-push_back :
    (l : Lanes) (b : Lane) (j : Job) (a : Lane)
    → lane_jobs (push_back l b j) a
      ≡ (if same_lane b a then lane_jobs l a ++ j ∷ [] else lane_jobs l a)
unfolding push_back
lane_jobs-push_back l b j a = ground arith

lane_jobs-push_all :
    (l : Lanes) (ns : List (Lane × Job)) (a : Lane)
    → lane_jobs (push_all l ns) a ≡ lane_jobs l a ++ of_class a ns
unfolding push_all
lane_jobs-push_all l [] a = sym (append-nil (lane_jobs l a))
lane_jobs-push_all l ((b, j) ∷ rest) a = ground (
  arith,
  lane_jobs-push_all (push_back l b j) rest a,
  lane_jobs-push_back l b j a,
  append_assoc (lane_jobs l a) (j ∷ []) (of_class a rest),
)

-- Moving the inbox changes no class.
lane_jobs-take_inbox : (m : Shared) (a : Lane) → lane_jobs (take_inbox m).lanes a ≡ class m a
unfolding take_inbox
lane_jobs-take_inbox m a = lane_jobs-push_all m.lanes (reverse m.inbox) a

class-taken : (m : Shared) (a : Lane) → class (take_inbox m) a ≡ class m a
unfolding take_inbox
class-taken m a = ap (λ js. js ++ []) (lane_jobs-take_inbox m a) ∙ append-nil (class m a)

of_class-snoc :
    (a l : Lane) (j : Job) (ns : List (Lane × Job))
    → of_class a (ns ++ (l, j) ∷ [])
      ≡ (if same_lane l a then of_class a ns ++ j ∷ [] else of_class a ns)
of_class-snoc a l j [] = ground arith
of_class-snoc a l j ((b, k) ∷ ns) = ground (arith, of_class-snoc a l j ns)

append-if :
    (b : Bool) (xs ys : List Job) (j : Job)
    → xs ++ (if b then ys ++ j ∷ [] else ys) ≡ (if b then (xs ++ ys) ++ j ∷ [] else xs ++ ys)
append-if true xs ys j = sym (append_assoc xs ys (j ∷ []))
append-if false xs ys j = refl

-- A submit puts its job at the end of its own class and leaves the others as they are.
pub class-push :
    (l : Lane) (j : Job) (m : Shared) (a : Lane)
    → class (push l j m) a ≡ (if same_lane l a then class m a ++ j ∷ [] else class m a)
unfolding push
class-push l j m a =
    ap (λ ns. lane_jobs m.lanes a ++ of_class a ns) (reverse-cons (l, j) m.inbox)
    ∙ ap (λ js. lane_jobs m.lanes a ++ js) (of_class-snoc a l j (reverse m.inbox))
    ∙ append-if (same_lane l a) (lane_jobs m.lanes a) (of_class a (reverse m.inbox)) j

abbrev lane_agenda : Lanes → List Job
lane_agenda l = l.lane_visible ++ (l.lane_normal ++ l.lane_background)

-- `pop` takes the head of the agenda.
abbrev TakesHead : Lanes → Option (Job × Lanes) → Type 0
TakesHead l none = lane_agenda l ≡ []
TakesHead l (some (j, rest)) = lane_agenda l ≡ j ∷ lane_agenda rest

pop-TakesHead : (l : Lanes) → TakesHead l (pop l)
unfolding pop
pop-TakesHead l = ground arith

-- With an empty inbox the agenda is what the lanes hold.
agenda-lanes : (m : Shared) → m.inbox ≡ [] → agenda m ≡ lane_agenda m.lanes
agenda-lanes m e = ground (
  arith,
  append-nil m.lanes.lane_visible,
  append-nil m.lanes.lane_normal,
  append-nil m.lanes.lane_background,
)

agenda-take_inbox : (m : Shared) → lane_agenda (take_inbox m).lanes ≡ agenda m
agenda-take_inbox m = cc (
  lane_jobs-take_inbox m visible,
  lane_jobs-take_inbox m normal,
  lane_jobs-take_inbox m background,
)

-- What a worker at the top of its loop does to an agenda: nothing is there, or it leaves with the
-- head.
abbrev pub Looks : List Job → Worker × Shared → Type 0
Looks jobs r =
    ((r.0 ≡ found_none) × (jobs ≡ []) × (agenda r.1 ≡ []))
    ⊎ ((j : Job) × (k : ℕ) × (r.0 ≡ notifying j k) × (jobs ≡ j ∷ agenda r.1))

after_pop-Looks :
    (m : Shared) (found : Option (Job × Lanes))
    → m.inbox ≡ []
    → TakesHead m.lanes found
    → Looks (lane_agenda m.lanes) (after_pop found m)
unfolding after_pop claim
after_pop-Looks m none e h = inl (refl, h, agenda-lanes m e ∙ h)
after_pop-Looks m (some (j, rest)) e h =
    inr (j, _, refl, h ∙ ap (λ js. j ∷ js) (sym (agenda-lanes (after_pop (some (j, rest)) m).1 e)))

-- A worker of an open pool that looks for a job finds none exactly when the queue is empty, inbox
-- included; else it leaves with the head of the agenda, the oldest job of the most urgent class,
-- and the rest of the agenda stays in order.
pub look_takes_head : (m : Shared) → m.shutdown ≡ false → Looks (agenda m) (look_for_job m)
unfolding look_for_job
look_takes_head m on =
    if_elim (Looks (agenda m)) m.shutdown _ _ (λ shut. absurd (ground arith))
      (λ _.
        subst (λ js. Looks js (after_pop (pop (take_inbox m).lanes) (take_inbox m)))
          (agenda-take_inbox m)
          (after_pop-Looks (take_inbox m) (pop (take_inbox m).lanes) (unfold take_inbox in refl)
            (pop-TakesHead (take_inbox m).lanes)))
