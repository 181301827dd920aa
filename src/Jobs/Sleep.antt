-- ===== src/Jobs/Sleep.antt =====
-- The loop of `sleep`, on a clock that a pause moves on by at least its length.
use jupynvim.Prelude.{
  ℕ, zero, suc, ◌+◌, ◌-◌, ◌*◌, ◌/◌, ◌<◌, ◌≤◌, min, ◌⊎◌, inl, inr, ◌≡◌, refl, ap, ◌∙◌, sym, subst,
  true, false, Option, none, some, List, arith, length, ltb, ◌==◌, Bool-cases, ltb→lt, if_elim,
}
use jupynvim.Abi.{kind_sleep}
use jupynvim.Jobs.{
  to_le, from_le, pause, milli, u32_max, Look, sleep_loop, sleep, slept_result, run, Host, ok,
  fails, cancelled, err, sleep_wants_4,
}
use jupynvim.Jobs.Words.{from_le-to_le, length-to_le}

-- The time since the start when so many pauses are over, of a millisecond each, or of what is left
-- of the time to sleep.
unfoldable pub slept_at : (ℕ → Look) → ℕ → ℕ → ℕ
slept_at looks total zero = 0
slept_at looks total (suc i) =
    let before = slept_at looks total i in (looks i).wakes before (min milli (total - before))

-- `thread::sleep` lasts as long as it is told, or longer.
abbrev pub Paces : (ℕ → Look) → Type 0
Paces looks = (i slept asked : ℕ) → slept + asked ≤ (looks i).wakes slept asked

-- The loop goes on after the first `k` pauses: before each of them the time is not over, and there
-- is no cancel.
abbrev pub GoesOn : (ℕ → Look) → ℕ → ℕ → Type 0
GoesOn looks total k =
    (i : ℕ) → i < k → (slept_at looks total i < total) × ((looks i).cancel ≡ false)

-- How the loop may end.
abbrev Ends : (ℕ → Look) → ℕ → ℕ → Option (Option ℕ) → Type 0
Ends looks total last r =
    ((k : ℕ) × (r ≡ some none)
      × (k < last)
      × GoesOn looks total k
      × (slept_at looks total k < total)
      × ((looks k).cancel ≡ true))
    ⊎ ((k : ℕ) × (r ≡ some (some (slept_at looks total k)))
        × (k ≤ last)
        × GoesOn looks total k
        × (total ≤ slept_at looks total k))

module _ (looks : ℕ → Look) (total : ℕ) where
  stop :
      (rounds i slept : ℕ)
      → ltb slept total ≡ false
      → sleep_loop looks total rounds i slept ≡ some (some slept)
  unfolding sleep_loop
  stop zero i slept h = rw (sleep_loop, h) refl
  stop (suc rounds) i slept h = rw (sleep_loop, h) refl

  noticed :
      (rounds i slept : ℕ)
      → ltb slept total ≡ true
      → (looks i).cancel ≡ true
      → sleep_loop looks total (suc rounds) i slept ≡ some none
  unfolding sleep_loop
  noticed rounds i slept h c = rw (sleep_loop, h, c) refl

  pauses :
      (rounds i slept : ℕ)
      → ltb slept total ≡ true
      → (looks i).cancel ≡ false
      → sleep_loop looks total (suc rounds) i slept
        ≡ sleep_loop looks total rounds (suc i) ((looks i).wakes slept (pause total slept))
  unfolding sleep_loop
  pauses rounds i slept h c = rw (sleep_loop, h, c) refl

  one_more :
      (k : ℕ)
      → GoesOn looks total k
      → slept_at looks total k < total
      → (looks k).cancel ≡ false
      → GoesOn looks total (suc k)
  one_more k on lt c i less = elim (Bool-cases (ltb i k)) [
    | inl e ↦ on i (ltb→lt i k e)
    | inr e ↦
        let same : k ≡ i = ground arith in
        subst (λ n. (slept_at looks total n < total) × ((looks n).cancel ≡ false)) same (lt, c)
  ]

  module _ (paces : Paces looks) where
    sleep_loop-Ends :
        (rounds i : ℕ)
        → GoesOn looks total i
        → total ≤ slept_at looks total i + rounds * milli
        → Ends looks total (i + rounds) (sleep_loop looks total rounds i (slept_at looks total i))
    unfolding slept_at pause
    sleep_loop-Ends zero i on enough =
        let slept = slept_at looks total i in
        inr (i, stop zero i slept (ground arith), omega arith, on, omega arith)
    sleep_loop-Ends (suc rounds) i on enough =
        let slept = slept_at looks total i in
        elim (Bool-cases (ltb slept total)) [
          | inr done ↦ inr (i, stop (suc rounds) i slept done, omega arith, on, ground arith)
          | inl short ↦
              let lt = ltb→lt slept total short in
              elim (Bool-cases (looks i).cancel) [
                | inl c ↦ inl (i, noticed rounds i slept short c, omega arith, on, lt, c)
                | inr c ↦
                    let paced = paces i slept (min milli (total - slept)) in
                    let e : i + suc rounds ≡ suc i + rounds = omega arith in
                    let later = sleep_loop-Ends rounds (suc i) (one_more i on lt c) (omega arith) in
                    subst (λ n. Ends looks total n (sleep_loop looks total (suc rounds) i slept))
                      (sym e)
                      (subst (Ends looks total (suc i + rounds))
                        (sym (pauses rounds i slept short c)) later)
              ]
        ]

sleep_word :
    (looks : ℕ → Look) (rounds ms : ℕ)
    → ms ≤ u32_max
    → sleep looks rounds (to_le 4 ms) ≡ slept_result (sleep_loop looks (ms * milli) rounds 0 0)
unfolding sleep
sleep_word looks rounds ms fits =
    if_elim (λ x. x ≡ slept_result (sleep_loop looks (ms * milli) rounds 0 0))
      (length (to_le 4 ms) == 4) _ (some (fails (err sleep_wants_4)))
      (λ _.
        ap (λ n. slept_result (sleep_loop looks (n * milli) rounds 0 0))
          (from_le-to_le 4 ms (omega arith)))
      (λ no. absurd (ground (arith, length-to_le 4 ms)))

-- The kind that sleeps, given `ms` milliseconds, with at least as many rounds, on a clock that a
-- pause moves on by at least its length: it ends, either cancelled, by the first flag that is set
-- before a pause while the time is not over, or when the time is over for the first time, with the
-- milliseconds on the clock, or the largest `u32` where they are more.
pub sleep-Ends :
    (h : Host) (rounds ms : ℕ)
    → ms ≤ u32_max
    → Paces h.looks
    → ms ≤ rounds
    → ((k : ℕ) × (run h rounds kind_sleep (to_le 4 ms) ≡ some (fails cancelled))
        × (k < rounds)
        × GoesOn h.looks (ms * milli) k
        × (slept_at h.looks (ms * milli) k < ms * milli)
        × ((h.looks k).cancel ≡ true))
      ⊎ ((k : ℕ) × (r : List ℕ) × (run h rounds kind_sleep (to_le 4 ms) ≡ some (ok (some r)))
          × (length r ≡ 4)
          × (from_le r ≡ min u32_max (slept_at h.looks (ms * milli) k / milli))
          × (k ≤ rounds)
          × GoesOn h.looks (ms * milli) k
          × (ms * milli ≤ slept_at h.looks (ms * milli) k))
unfolding run slept_at slept_result
sleep-Ends h rounds ms fits paces enough =
    elim (sleep_loop-Ends h.looks (ms * milli) paces rounds 0 (λ i lt. absurd (omega (arith, lt)))
      (omega arith)) [
        | inl (k, e, less, on, lt, c) ↦ inl (k, lands none e, omega (arith, less), on, lt, c)
        | inr (k, e, most, on, over) ↦
            let t = min u32_max (slept_at h.looks (ms * milli) k / milli) in
            inr (
              k,
              to_le 4 t,
              lands (some (slept_at h.looks (ms * milli) k)) e,
              length-to_le 4 t,
              from_le-to_le 4 t (omega arith),
              omega (arith, most),
              on,
              over,
            )
      ]
  where
    lands :
        (r : Option ℕ)
        → sleep_loop h.looks (ms * milli) rounds 0 0 ≡ some r
        → run h rounds kind_sleep (to_le 4 ms) ≡ slept_result (some r)
    lands r e = sleep_word h.looks rounds ms fits ∙ ap slept_result e
