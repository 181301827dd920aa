-- ===== src/Math/Index/Walks.antt =====
-- core/native/src/mathgrammar/index.rs: a walk that gave up answers every walk that starts on its way.
use jupynvim.Prelude.{
  ℕ, zero, suc, ◌+◌, ◌≤◌, ◌<◌, ◌≡◌, ◌≢◌, refl, sym, ap, ◌∙◌, ◌⊎◌, inl, inr, Bool, true, false, ◌||◌,
  ◌==◌, length, arith, Bool-cases,
}
use jupynvim.Math.{Bytes, at}
use jupynvim.Math.Bytes.{at-inside}
use jupynvim.Math.Lookahead.{gave_up, walk_from, walk_direct}

-- Rounds beyond the end of the text change nothing.
walk_from-rounds :
    (f g : ℕ) (s : Bytes) (close j : ℕ)
    → length s ≤ j + f
    → length s ≤ j + g
    → walk_from f s close j ≡ walk_from g s close j
unfolding walk_from
walk_from-rounds zero zero s close j h k = refl
walk_from-rounds zero (suc g) s close j h k = ground arith
walk_from-rounds (suc f) zero s close j h k = ground arith
walk_from-rounds (suc f) (suc g) s close j h k =
    ground (arith, walk_from-rounds f g s close (j + 1), walk_from-rounds f g s close (j + 2))

walk_from-here :
    (f : ℕ) (s : Bytes) (close j q e : ℕ)
    → length s ≤ j + f
    → (j == q + 1) ≡ true
    → walk_from f s close j ≡ gave_up e
    → walk_from (length s) s close (q + 1) ≡ gave_up e
walk_from-here f s close j q e h here w =
    let same : j ≡ q + 1 = ground arith in
    walk_from-rounds (length s) f s close (q + 1) (omega arith) (omega (arith, h, same))
    ∙ ap (walk_from f s close) (sym same)
    ∙ w

-- A walk passes every place before its end that no backslash stands before.
walk_from-passes :
    (f : ℕ) (s : Bytes) (close j q e : ℕ)
    → length s ≤ j + f
    → j ≤ q + 1
    → q < e
    → (at s q == b'\\') ≡ false
    → walk_from f s close j ≡ gave_up e
    → walk_from (length s) s close (q + 1) ≡ gave_up e
unfolding walk_from
walk_from-passes zero s close j q e h le lt plain w = elim (Bool-cases (j == q + 1)) [
  | inl here ↦ walk_from-here zero s close j q e h here w
  | inr there ↦ ground arith
]
walk_from-passes (suc f) s close j q e h le lt plain w = elim (Bool-cases (j == q + 1)) [
  | inl here ↦ walk_from-here (suc f) s close j q e h here w
  | inr there ↦
      ground (arith, walk_from-passes f s close (j + 1) q e, walk_from-passes f s close (j + 2) q e)
]

gave_up-place :
    (f : ℕ) (s : Bytes) (close j e : ℕ)
    → walk_from f s close j ≡ gave_up e
    → (e ≡ length s) ⊎ ((at s e == b'\n') ≡ true)
unfolding walk_from
gave_up-place zero s close j e w = inl (ground arith)
gave_up-place (suc f) s close j e w =
    ground (arith, gave_up-place f s close (j + 1) e, gave_up-place f s close (j + 2) e)

abbrev pub opens : ℕ → Bool
opens b = b == b'(' || b == b'['

apart : (b : ℕ) → opens b ≡ true → (b == b'\n') ≢ true
apart b h k = absurd (ground arith)

before_end :
    (s : Bytes) (k e : ℕ)
    → opens (at s (k + 1)) ≡ true
    → k < e
    → (e ≡ length s) ⊎ ((at s e == b'\n') ≡ true)
    → k + 1 < e
before_end s k e o lt (inl end) = ground (arith, at-inside s (k + 1))
before_end s k e o lt (inr newline) = elim (Bool-cases (e == k + 1)) [
  | inl same ↦
      let here : e ≡ k + 1 = ground arith in
      absurd (apart (at s (k + 1)) o (ap (λ x. at s x == b'\n') (sym here) ∙ newline))
  | inr other ↦ ground arith
]

-- After a walk from `k0` gave up at `e`, a walk from an opening delimiter between the two gives up
-- there as well.
pub walk_direct-later :
    (s : Bytes) (close k0 k e : ℕ)
    → opens (at s (k + 1)) ≡ true
    → walk_direct s (k0 + 2) close ≡ gave_up e
    → k0 < k
    → k < e
    → walk_direct s (k + 2) close ≡ gave_up e
unfolding walk_direct
walk_direct-later s close k0 k e o w h lt =
    let inside = before_end s k e o lt (gave_up-place (length s) s close (k0 + 2) e w) in
    let there : k + 1 + 1 ≡ k + 2 = omega arith in
    ap (walk_from (length s) s close) (sym there)
    ∙ walk_from-passes (length s) s close (k0 + 2) (k + 1) e (omega arith) (omega (arith, h)) inside
        (ground arith) w
