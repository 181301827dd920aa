-- ===== src/Math/Index/Blanks.antt =====
-- core/native/src/mathgrammar/index.rs: the question for a blank line in a range.
use jupynvim.Prelude.{
  ℕ, suc, ◌+◌, ◌≤◌, ◌<◌, ◌≡◌, refl, ap, ◌∙◌, Bool, false, ◌&&◌, ◌||◌, List, [], ◌∷◌, ltb, leb, ◌==◌,
  get_elem?, arith, if_elim,
}
use jupynvim.Math.{Bytes, sub}
use jupynvim.Math.Delims.{quote_blank}
use jupynvim.Math.Lookahead.{partition_point, pairs_from, pairs_before, build_b1}
use jupynvim.Math.Lookahead.Bound.{Parted, lower_bound-partition_point}
use jupynvim.Math.Index.{EnvIndex, SegIndex, ends_before, b1_index, has_b1}

-- Whether one of the newline pairs lies in a range.
unfoldable pub any_inside : ℕ → ℕ → List (ℕ × ℕ) → Bool
any_inside from to [] = false
any_inside from to ((p, q) ∷ pairs) = (leb from p && ltb q to) || any_inside from to pairs

-- Pairs one after another, from a place on.
Apart : ℕ → List (ℕ × ℕ) → Type 0
Apart lo [] = Unit
Apart lo ((p, q) ∷ pairs) = (lo ≤ p) × (p < q) × Apart q pairs

Apart-lower :
    (lo lower : ℕ) (pairs : List (ℕ × ℕ)) → lower ≤ lo → Apart lo pairs → Apart lower pairs
unfolding Apart
Apart-lower lo lower [] le h = tt
Apart-lower lo lower ((p, q) ∷ pairs) le (a, b, c) = (omega (arith, le, a), b, c)

pairs_from-Apart : (s : Bytes) (p i : ℕ) (rest : Bytes) → p < i → Apart p (pairs_from s p i rest)
unfolding pairs_from Apart
pairs_from-Apart s p i [] h = tt
pairs_from-Apart s p i (b ∷ rest) h =
    let later = pairs_from-Apart s i (suc i) rest (omega arith) in
    if_elim (Apart p) (b == b'\n') _ (pairs_from s p (suc i) rest)
      (λ _.
        if_elim (Apart p) (quote_blank (sub s (p + 1) i) false)
          ((p, i) ∷ pairs_from s i (suc i) rest) (pairs_from s i (suc i) rest)
          (λ _. (omega arith, h, later)) (λ _. Apart-lower i p _ (omega (arith, h)) later))
      (λ _. pairs_from-Apart s p (suc i) rest (omega (arith, h)))

pairs_before-Apart : (s : Bytes) (i : ℕ) (rest : Bytes) → Apart 0 (pairs_before s i rest)
unfolding pairs_before Apart
pairs_before-Apart s i [] = tt
pairs_before-Apart s i (b ∷ rest) =
    if_elim (Apart 0) (b == b'\n') (pairs_from s i (suc i) rest) (pairs_before s (suc i) rest)
      (λ _. Apart-lower i 0 _ (omega arith) (pairs_from-Apart s i (suc i) rest (omega arith)))
      (λ _. pairs_before-Apart s (suc i) rest)

none_before :
    (lo from : ℕ) (pairs : List (ℕ × ℕ))
    → Apart lo pairs
    → from ≤ lo
    → partition_point (λ pair. ltb pair.0 from) pairs ≡ 0
unfolding partition_point Apart
none_before lo from [] apart h = refl
none_before lo from ((p, q) ∷ pairs) (a, b, c) h = ground (arith, a, h)

Apart-Parted :
    (lo from : ℕ) (pairs : List (ℕ × ℕ)) → Apart lo pairs → Parted (λ pair. ltb pair.0 from) pairs
unfolding Parted Apart
Apart-Parted lo from [] apart = tt
Apart-Parted lo from ((p, q) ∷ pairs) (a, b, c) =
    (λ h. none_before q from pairs c (ground (arith, b, h)), Apart-Parted q from pairs c)

none_inside :
    (lo from to : ℕ) (pairs : List (ℕ × ℕ))
    → Apart lo pairs
    → to ≤ lo
    → any_inside from to pairs ≡ false
unfolding any_inside Apart
none_inside lo from to [] apart h = refl
none_inside lo from to ((p, q) ∷ pairs) (a, b, c) h =
    ground (arith, a, b, none_inside q from to pairs c)

first_inside :
    (lo from to : ℕ) (pairs : List (ℕ × ℕ))
    → Apart lo pairs
    → ends_before to (get_elem? pairs (partition_point (λ pair. ltb pair.0 from) pairs))
      ≡ any_inside from to pairs
unfolding ends_before partition_point any_inside Apart
first_inside lo from to [] apart = refl
first_inside lo from to ((p, q) ∷ pairs) (a, b, c) =
    ground (arith, b, first_inside q from to pairs c, none_inside q from to pairs c)

-- Whatever was asked before, the index says whether one of the blank lines of the segment, a pair of
-- newlines of `build_b1`, lies in the range.
pub has_b1-any_inside :
    {E : EnvIndex} (s : Bytes) (ix : SegIndex E) (from to : ℕ)
    → (has_b1 s ix from to).1 ≡ any_inside from to (build_b1 s)
unfolding has_b1 b1_index build_b1
has_b1-any_inside s ix from to =
    let apart = pairs_before-Apart s 0 s in
    ap (λ i. ends_before to (get_elem? (build_b1 s) i))
      (lower_bound-partition_point (λ pair. ltb pair.0 from) (build_b1 s) ix.b1_hint
        (Apart-Parted 0 from (build_b1 s) apart))
    ∙ first_inside 0 from to (build_b1 s) apart
