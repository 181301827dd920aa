-- ===== src/Jobs/Tests.antt =====
-- Runs of jobs, and the theorems at concrete inputs.
use jupynvim.Prelude.{
  ℕ, ◌+◌, ◌*◌, ◌/◌, ◌%◌, min, ◌^◌, ◌<◌, ◌≤◌, ◌≡◌, ◌⊎◌, inl, inr, refl, true, false, none, some,
  List, [], ◌∷◌, arith, length, get_elem?, ltb, if◌then◌else◌,
}
use jupynvim.Prelude.Threads.{total}
use jupynvim.Abi.{kind_bytesum, kind_sleep, kind_fill}
use jupynvim.Jobs.{
  to_le, from_le, milli, u32_max, Look, Host, run, ok, fails, cancelled, err, unknown_kind,
  fill_too_long, byte_sum, fill, sleep,
}
use jupynvim.Jobs.Words.{bytesum-total}
use jupynvim.Jobs.Fill.{fill-bytes}
use jupynvim.Jobs.Sleep.{Paces, GoesOn, sleep-Ends, slept_at}

-- A clock that a pause moves on by its length and 0.5 ms, and a cancel flag that is never set.
abbrev slow_looks : ℕ → Look
slow_looks i = record { cancel = false; wakes = λ slept asked. slept + asked + 500_000 }

abbrev slow_host : Host
slow_host = record {
  room = λ n. true;
  looks = slow_looks;
  address = 4096;
  derive = λ input. inr input;
  schema = [];
  readable = λ input. inl input;
}

sums :
    run slow_host 0 kind_bytesum (200 ∷ 100 ∷ [])
    ≡ some (ok (some (44 ∷ 1 ∷ 0 ∷ 0 ∷ 0 ∷ 0 ∷ 0 ∷ 0 ∷ [])))
unfolding run byte_sum to_le
sums = refl

fills : run slow_host 3 kind_fill (to_le 8 3) ≡ some (ok (some (0 ∷ 1 ∷ 2 ∷ [])))
unfolding run to_le fill
fills = refl

refuses_long :
    run slow_host 3 kind_fill (to_le 8 1_073_741_825)
    ≡ some (fails (err (fill_too_long 1_073_741_825)))
unfolding run to_le fill
refuses_long = refl

sleeps : run slow_host 5 kind_sleep (to_le 4 5) ≡ some (ok (some (to_le 4 5)))
unfolding run to_le sleep
sleeps = refl

unknown : run slow_host 5 9 [] ≡ some (fails (err (unknown_kind 9)))
unfolding run
unknown = refl

bytesum-total_example :
    (r : List ℕ) × (run slow_host 0 kind_bytesum (200 ∷ 100 ∷ []) ≡ some (ok (some r)))
    × (length r ≡ 8)
    × (from_le r ≡ total (λ b. b) (200 ∷ 100 ∷ []) % 2 ^ 64)
bytesum-total_example = bytesum-total slow_host 0 (200 ∷ 100 ∷ [])

fill-bytes_example :
    (r : List ℕ) × (run slow_host 600 kind_fill (to_le 8 600) ≡ some (ok (some r)))
    × (length r ≡ 600)
    × (get_elem? r 599 ≡ (if ltb 599 600 then some (599 % 251) else none))
fill-bytes_example = fill-bytes slow_host 600 600 599 (omega arith) refl (omega arith)

slow-Paces : Paces slow_looks
slow-Paces i slept asked = omega arith

sleep-Ends_example :
    ((k : ℕ) × (run slow_host 5 kind_sleep (to_le 4 5) ≡ some (fails cancelled))
      × (k < 5)
      × GoesOn slow_looks (5 * milli) k
      × (slept_at slow_looks (5 * milli) k < 5 * milli)
      × ((slow_looks k).cancel ≡ true))
    ⊎ ((k : ℕ) × (r : List ℕ) × (run slow_host 5 kind_sleep (to_le 4 5) ≡ some (ok (some r)))
        × (length r ≡ 4)
        × (from_le r ≡ min u32_max (slept_at slow_looks (5 * milli) k / milli))
        × (k ≤ 5)
        × GoesOn slow_looks (5 * milli) k
        × (5 * milli ≤ slept_at slow_looks (5 * milli) k))
sleep-Ends_example = sleep-Ends slow_host 5 5 (omega arith) slow-Paces (omega arith)
