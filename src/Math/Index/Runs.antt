-- ===== src/Math/Index/Runs.antt =====
-- core/native/src/mathgrammar/index.rs: the runs of backticks lie in the segment.
use jupynvim.Prelude.{
  ℕ, zero, suc, ◌+◌, ◌-◌, ◌≤◌, ◌≡◌, refl, ap, subst, ◌⊎◌, inl, inr, if◌then◌else◌, Bool, true,
  false, ◌&&◌, not, Option, none, some, List, [], ◌∷◌, ltb, ◌==◌, length, get_elem?, arith, if_elim,
}
use mathlib.Core.Option.{none-ne-some, some-injective}
use jupynvim.Math.{Bytes}
use jupynvim.Math.Lookahead.{starts_from, build_runs, partition_point}
use jupynvim.Math.Index.{EnvIndex, SegIndex, close_at, unless_from, backtick_close}

first_or_later {ℓ} :
    {A : Type ℓ} (c : Bool) (y : A) (xs : List A) (n : ℕ) (x : A)
    → get_elem? (y ∷ xs) (if c then suc n else 0) ≡ some x
    → (get_elem? xs n ≡ some x) ⊎ ((y ≡ x) × (c ≡ false))
first_or_later true y xs n x h = inl h
first_or_later false y xs n x h = inr (some-injective y x h, refl)

pub partition_point-get {ℓ} :
    {A : Type ℓ} (below : A → Bool) (xs : List A) (x : A)
    → get_elem? xs (partition_point below xs) ≡ some x
    → below x ≡ false
unfolding partition_point
partition_point-get below [] x h = absurd (none-ne-some x h)
partition_point-get below (y ∷ xs) x h = elim (first_or_later (below y) y xs _ x h) [
  | inl later ↦ partition_point-get below xs x later
  | inr (same, e) ↦ subst (λ z. below z ≡ false) same e
]

Fitting : ℕ → ℕ → List ℕ → Type 0
Fitting len bound [] = Unit
Fitting len bound (st ∷ more) = (st + len ≤ bound) × Fitting len bound more

Fitting-get :
    (len bound : ℕ) (xs : List ℕ) (n st : ℕ)
    → Fitting len bound xs
    → get_elem? xs n ≡ some st
    → st + len ≤ bound
unfolding Fitting
Fitting-get len bound [] n st h e = ground arith
Fitting-get len bound (x ∷ xs) zero st (le, _) e = ground arith
Fitting-get len bound (x ∷ xs) (suc n) st (_, more) e = Fitting-get len bound xs n st more e

starts_from-Fitting :
    (len run i bound : ℕ) (s : Bytes)
    → run ≤ i
    → i + length s ≤ bound
    → Fitting len bound (starts_from len run i s)
unfolding starts_from Fitting
starts_from-Fitting len run i bound [] le size =
    if_elim (Fitting len bound) (not (run == 0) && run == len) ((i - run) ∷ []) []
      (λ h. (ground (arith, le, size), tt)) (λ _. tt)
starts_from-Fitting len run i bound (b ∷ s) le size =
    let in_run =
      starts_from-Fitting len (suc run) (suc i) bound s (omega (arith, le)) (omega (arith, size)) in
    let later = starts_from-Fitting len 0 (suc i) bound s (omega arith) (omega (arith, size)) in
    if_elim (Fitting len bound) (b == b'`') _ _ (λ _. in_run)
      (λ _.
        if_elim (Fitting len bound) (not (run == 0) && run == len)
          ((i - run) ∷ starts_from len 0 (suc i) s) (starts_from len 0 (suc i) s)
          (λ h. (ground (arith, le, size), later)) (λ _. later))

unless_from-same : (st e : ℕ) (p : Option ℕ) → unless_from st p ≡ some e → st ≡ e
unfolding unless_from
unless_from-same st e none h = ground arith
unless_from-same st e (some p) h = ground arith

close_at-same :
    {E : EnvIndex} (s : Bytes) (ix : SegIndex E) (r e : ℕ) (o : Option ℕ)
    → (close_at s ix r o).1 ≡ some e
    → o ≡ some e
unfolding close_at
close_at-same s ix r e none h = h
close_at-same s ix r e (some st) h = ap some (unless_from-same st e _ h)

-- The closing run of a run of backticks lies after that run, in the segment.
pub backtick_close-bounds :
    {E : EnvIndex} (s : Bytes) (ix : SegIndex E) (r len e : ℕ)
    → (backtick_close s ix r len).1 ≡ some e
    → (r ≤ e) × (e + len ≤ length s)
unfolding backtick_close build_runs
backtick_close-bounds s ix r len e h =
    let starts = build_runs s len in
    let at_point =
      close_at-same s ix r e (get_elem? starts (partition_point (λ p. ltb p r) starts)) h in
    (
      ground (arith, partition_point-get (λ p. ltb p r) starts e at_point),
      Fitting-get len (length s) starts _ e
          (starts_from-Fitting len 0 0 (length s) s (omega arith) (omega arith)) at_point,
    )
