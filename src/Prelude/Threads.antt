-- ===== src/Prelude/Threads.antt =====
-- Threads as a list of program counters: a step replaces one entry, and an invariant counts the
-- entries by a weight.
use Prim.Native.Nat.{ℕ, zero, suc, ◌+◌, ◌≤◌, ◌<◌}
use mathlib.Core.Path.{◌≡◌, refl, sym, ap, ◌∙◌}
use mathlib.Core.Bool.{Bool, true, false}
use mathlib.Core.List.{List, [], ◌∷◌, ◌++◌, map, reverse, reverse-cons}
use mathlib.Core.Option.{some}
use native.Mathlib.Omega.{arith}
use jupynvim.Prelude.Lists.{get_elem?, set, replicate, take, drop, take-append-drop}

-- A test as a weight.
abbrev pub one_if : Bool → ℕ
one_if true = 1
one_if false = 0

module _ {ℓ} {A : Type ℓ} (w : A → ℕ) where
  pub total : List A → ℕ
  total [] = 0
  total (x ∷ xs) = w x + total xs

  pub total-nil : total [] ≡ 0
  unfolding total
  total-nil = refl

  pub total-cons : (x : A) (xs : List A) → total (x ∷ xs) ≡ w x + total xs
  unfolding total
  total-cons x xs = refl

  -- Replacing the entry at `i` moves the total by the difference of the two weights.
  pub total-set :
      (xs : List A) (i : ℕ) (x y : A)
      → get_elem? xs i ≡ some x
      → total (set xs i y) + w x ≡ total xs + w y
  unfolding total
  total-set [] i x y h = ground arith
  total-set (z ∷ xs) zero x y h = ground arith
  total-set (z ∷ xs) (suc i) x y h = omega (arith, total-set xs i x y h)

  -- One entry weighs no more than all.
  pub le-total : (xs : List A) (i : ℕ) (x : A) → get_elem? xs i ≡ some x → w x ≤ total xs
  unfolding total
  le-total [] i x h = ground arith
  le-total (z ∷ xs) zero x h = ground arith
  le-total (z ∷ xs) (suc i) x h = omega (arith, le-total xs i x h)

  pub total-append : (xs ys : List A) → total (xs ++ ys) ≡ total xs + total ys
  unfolding total
  total-append [] ys = omega arith
  total-append (x ∷ xs) ys = omega (arith, total-append xs ys)

  pub total-reverse : (xs : List A) → total (reverse xs) ≡ total xs
  unfolding total
  total-reverse [] = refl
  total-reverse (x ∷ xs) =
      omega
        (arith, ap total (reverse-cons x xs), total-append (reverse xs) (x ∷ []), total-reverse xs)

  pub total-take-drop : (n : ℕ) (xs : List A) → total (take n xs) + total (drop n xs) ≡ total xs
  total-take-drop n xs =
      sym (total-append (take n xs) (drop n xs)) ∙ ap total (take-append-drop n xs)

  pub total-replicate_zero : (n : ℕ) (x : A) → w x ≡ 0 → total (replicate n x) ≡ 0
  unfolding total
  total-replicate_zero zero x h = refl
  total-replicate_zero (suc n) x h = omega (arith, total-replicate_zero n x h)

  -- Where no entry weighs anything, the total is zero.
  pub total-eq-zero :
      (xs : List A) → ((i : ℕ) (x : A) → get_elem? xs i ≡ some x → w x ≡ 0) → total xs ≡ 0
  unfolding total
  total-eq-zero [] h = refl
  total-eq-zero (x ∷ xs) h = omega (arith, h 0 x refl, total-eq-zero xs (λ i y e. h (suc i) y e))

  abbrev Heavy : List A → Type ℓ
  Heavy xs = (i : ℕ) × (x : A) × (get_elem? xs i ≡ some x) × (0 < w x)

  Heavy-cons : (x : A) (xs : List A) (n : ℕ) → w x ≡ n → (w x ≡ 0 → Heavy xs) → Heavy (x ∷ xs)
  Heavy-cons x xs zero e rest = let (i, y, at, pos) = rest e in (suc i, y, at, pos)
  Heavy-cons x xs (suc n) e rest = (0, x, refl, omega arith)

  -- Where the total is positive, some entry weighs something.
  pub total-pos :
      (xs : List A) → 0 < total xs → (i : ℕ) × (x : A) × (get_elem? xs i ≡ some x) × (0 < w x)
  unfolding total
  total-pos [] h = absurd (omega arith)
  total-pos (x ∷ xs) h = Heavy-cons x xs (w x) refl λ e. total-pos xs (omega arith)

module _ {ℓ} {A : Type ℓ} (w v : A → ℕ) where
  -- Entry by entry smaller weights have a smaller total.
  pub total_mono : ((x : A) → w x ≤ v x) → (xs : List A) → total w xs ≤ total v xs
  unfolding total
  total_mono h [] = omega arith
  total_mono h (x ∷ xs) = omega (arith, h x, total_mono h xs)

  -- The total of a sum of weights.
  pub total-add : (xs : List A) → total (λ x. w x + v x) xs ≡ total w xs + total v xs
  unfolding total
  total-add [] = refl
  total-add (x ∷ xs) = omega (arith, total-add xs)

  -- A map moves the total as it moves the weights.
  pub total-map :
      (f : A → A) → ((x : A) → w (f x) ≡ v x) → (xs : List A) → total w (map f xs) ≡ total v xs
  unfolding total
  total-map f h [] = refl
  total-map f h (x ∷ xs) = omega (arith, h x, total-map f h xs)
