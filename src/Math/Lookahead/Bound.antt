-- ===== src/Math/Lookahead/Bound.antt =====
-- core/native/src/mathgrammar/index.rs: the search of `lower_bound`, from its hint on.
use jupynvim.Prelude.{
  ℕ, zero, suc, ◌+◌, ◌-◌, ◌≤◌, ◌≡◌, Bool, false, List, [], ◌∷◌, ltb, length, get_elem?, drop, take,
  min, arith,
}
use jupynvim.Math.Lookahead.{partition_point, satisfies, forward, lower_bound}

module _ {ℓ} {A : Type ℓ} (below : A → Bool) where
  -- The items for which `below` holds come first.
  unfoldable pub Parted : List A → Type ℓ
  Parted [] = Unit
  Parted (x ∷ xs) = (below x ≡ false → partition_point below xs ≡ 0) × Parted xs

  satisfies-partition_point :
      (v : List A) (i : ℕ)
      → Parted v
      → satisfies below (get_elem? v i) ≡ ltb i (partition_point below v)
  unfolding satisfies partition_point Parted
  satisfies-partition_point [] i parted = ground arith
  satisfies-partition_point (x ∷ xs) zero (first, parted) = ground arith
  satisfies-partition_point (x ∷ xs) (suc i) (first, parted) =
      let later = satisfies-partition_point xs i parted in ground (arith, first, later)

  partition_point-take :
      (v : List A) (n : ℕ) → partition_point below (take n v) ≡ min n (partition_point below v)
  unfolding partition_point
  partition_point-take v zero = omega arith
  partition_point-take [] (suc n) = omega arith
  partition_point-take (x ∷ xs) (suc n) = ground (arith, partition_point-take xs n)

  partition_point-drop :
      (v : List A) (n : ℕ)
      → n ≤ partition_point below v
      → n + partition_point below (drop n v) ≡ partition_point below v
  unfolding partition_point
  partition_point-drop v zero h = omega arith
  partition_point-drop [] (suc n) h = ground arith
  partition_point-drop (x ∷ xs) (suc n) h = ground (arith, partition_point-drop xs n)

  forward-bound :
      (v : List A) (steps i : ℕ)
      → Parted v
      → i ≤ partition_point below v
      → forward below v steps i ≤ partition_point below v
  unfolding forward
  forward-bound v zero i parted h = h
  forward-bound v (suc steps) i parted h =
      ground (arith, satisfies-partition_point v i parted, forward-bound v steps (suc i) parted)

  -- On items of which those with a property come first, the search finds how many these are, wherever
  -- its hint lies.
  pub lower_bound-partition_point :
      (v : List A) (hint : ℕ) → Parted v → lower_bound below v hint ≡ partition_point below v
  unfolding lower_bound
  lower_bound-partition_point v hint parted =
      let i = min hint (length v) in
      let j = forward below v 8 i in
      ground (
        arith,
        satisfies-partition_point v (i - 1) parted,
        partition_point-take v i,
        forward-bound v 8 i parted,
        satisfies-partition_point v j parted,
        partition_point-drop v j,
      )
