-- ===== src/Pool/Notify.antt =====
-- `notify_one` and `notify_all` against the invariant.
use jupynvim.Prelude.{
  ℕ, suc, ◌+◌, ◌≡◌, ◌≢◌, refl, ap, ◌∙◌, some, List, arith, get_elem?, set, get_elem?-set_ne, map,
}
use jupynvim.Prelude.Threads.{total, total-eq-zero, total-map, total-add}
use jupynvim.Pool.{Shared, Job}
use jupynvim.Pool.Threads.{
  Worker, waits, awake, notifying, Caller, submit_notifies, close_notifies, close_wakes,
}
use jupynvim.Pool.System.{rouse}
use jupynvim.Pool.Tally.{
  at_top, at_found_none, at_raised, at_waits, at_awake, at_unparked, to_send, moved, call_moved,
}
use jupynvim.Pool.Invariant.{Inv}

-- The worker that sends a notify is not the one that waits for it.
pub sender-set :
    (ws : List Worker) (i k : ℕ) (j : Job) (n : ℕ)
    → get_elem? ws i ≡ some (notifying j (suc n))
    → get_elem? ws k ≡ some waits
    → get_elem? (set ws k awake) i ≡ some (notifying j (suc n))
sender-set ws i k j n at_i at_k =
    let apart : k ≢ i = λ e. ground arith in get_elem?-set_ne ws awake apart ∙ at_i

-- A worker that waits is told so by the notify of another thread.
pub notify-Inv :
    {m : Shared} (ws : List Worker) (cs : List Caller) (i k : ℕ) (j : Job) (n : ℕ)
    → Inv m ws cs
    → get_elem? ws i ≡ some (notifying j (suc n))
    → get_elem? ws k ≡ some waits
    → Inv m (set (set ws k awake) i (notifying j n)) cs
notify-Inv ws cs i k j n v at_i at_k = ground (
  arith,
  v,
  moved ws k waits awake at_k,
  moved (set ws k awake) i (notifying j (suc n)) (notifying j n) (sender-set ws i k j n at_i at_k),
)

-- Where no worker waits, a notify is lost, and no claim depended on it.
none_waits : (ws : List Worker) → ((k : ℕ) → get_elem? ws k ≢ some waits) → total at_waits ws ≡ 0
none_waits ws h = total-eq-zero at_waits ws λ i w e. zero_unless w (λ p. h i (e ∙ ap some p))
  where
    zero_unless : (w : Worker) → w ≢ waits → at_waits w ≡ 0
    zero_unless waits n = absurd (n refl)
    zero_unless _ n = refl

pub notify_none-Inv :
    {m : Shared} (ws : List Worker) (cs : List Caller) (i : ℕ) (j : Job) (n : ℕ)
    → Inv m ws cs
    → get_elem? ws i ≡ some (notifying j (suc n))
    → ((k : ℕ) → get_elem? ws k ≢ some waits)
    → Inv m (set ws i (notifying j n)) cs
notify_none-Inv ws cs i j n v at nobody =
    ground (arith, v, none_waits ws nobody, moved ws i (notifying j (suc n)) (notifying j n) at)

pub call_notify-Inv :
    {m : Shared} (ws : List Worker) (cs : List Caller) (i k id n : ℕ)
    → Inv m ws cs
    → get_elem? cs i ≡ some (submit_notifies id (suc n))
    → get_elem? ws k ≡ some waits
    → Inv m (set ws k awake) (set cs i (submit_notifies id n))
call_notify-Inv ws cs i k id n v at_i at_k = ground (
  arith,
  v,
  moved ws k waits awake at_k,
  call_moved cs i (submit_notifies id (suc n)) (submit_notifies id n) at_i,
)

pub call_notify_none-Inv :
    {m : Shared} (ws : List Worker) (cs : List Caller) (i id n : ℕ)
    → Inv m ws cs
    → get_elem? cs i ≡ some (submit_notifies id (suc n))
    → ((k : ℕ) → get_elem? ws k ≢ some waits)
    → Inv m ws (set cs i (submit_notifies id n))
call_notify_none-Inv ws cs i id n v at nobody = ground (
  arith,
  v,
  none_waits ws nobody,
  call_moved cs i (submit_notifies id (suc n)) (submit_notifies id n) at,
)

-- `notify_all` turns every waiting worker into one that is awake.
record Roused (ws : List Worker) : Type 0 where
  r_top : total at_top (map rouse ws) ≡ total at_top ws
  r_found : total at_found_none (map rouse ws) ≡ total at_found_none ws
  r_raised : total at_raised (map rouse ws) ≡ total at_raised ws
  r_waits : total at_waits (map rouse ws) ≡ 0
  r_awake : total at_awake (map rouse ws) ≡ total at_awake ws + total at_waits ws
  r_unparked : total at_unparked (map rouse ws) ≡ total at_unparked ws
  r_send : total to_send (map rouse ws) ≡ total to_send ws

record RousedOne (w : Worker) : Type 0 where
  o_top : at_top (rouse w) ≡ at_top w
  o_found : at_found_none (rouse w) ≡ at_found_none w
  o_raised : at_raised (rouse w) ≡ at_raised w
  o_waits : at_waits (rouse w) ≡ 0
  o_awake : at_awake (rouse w) ≡ at_awake w + at_waits w
  o_unparked : at_unparked (rouse w) ≡ at_unparked w
  o_send : to_send (rouse w) ≡ to_send w

roused_one : (w : Worker) → RousedOne w
unfolding rouse
roused_one waits = ground arith
roused_one _ = ground arith

none_at_all : (ws : List Worker) → total (λ _. 0) ws ≡ 0
none_at_all ws = total-eq-zero (λ _. 0) ws λ i w e. refl

roused : (ws : List Worker) → Roused ws
roused ws = record {
  r_top = total-map at_top at_top rouse (λ w. (roused_one w).o_top) ws;
  r_found = total-map at_found_none at_found_none rouse (λ w. (roused_one w).o_found) ws;
  r_raised = total-map at_raised at_raised rouse (λ w. (roused_one w).o_raised) ws;
  r_waits = total-map at_waits (λ _. 0) rouse (λ w. (roused_one w).o_waits) ws ∙ none_at_all ws;
  r_awake =
      total-map at_awake (λ w. at_awake w + at_waits w) rouse (λ w. (roused_one w).o_awake) ws
      ∙ total-add at_awake at_waits ws;
  r_unparked = total-map at_unparked at_unparked rouse (λ w. (roused_one w).o_unparked) ws;
  r_send = total-map to_send to_send rouse (λ w. (roused_one w).o_send) ws;
}

pub call_notify_all-Inv :
    {m : Shared} (ws : List Worker) (cs : List Caller) (i : ℕ)
    → Inv m ws cs
    → get_elem? cs i ≡ some close_notifies
    → Inv m (map rouse ws) (set cs i close_wakes)
call_notify_all-Inv ws cs i v at =
    ground (arith, v, roused ws, call_moved cs i close_notifies close_wakes at)
