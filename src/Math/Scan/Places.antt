-- ===== src/Math/Scan/Places.antt =====
-- core/native/src/mathgrammar/scan.rs: the state of a scan that has copied or replaced everything
-- before a place, and what writing to its output does.
use jupynvim.Prelude.{
  ℕ, ◌+◌, ◌≤◌, ◌<◌, ◌≡◌, refl, sym, ap, subst, ◌∙◌, Bool, [], ◌∷◌, ◌++◌, length, take, append_assoc,
  length-append, length-take, arith,
}
use jupynvim.Math.{Bytes, at, sub}
use jupynvim.Math.Bytes.{take-sub, sub-one, sub-length_inside}
use jupynvim.Math.Output.{Kind, push_escaped}
use jupynvim.Math.Pieces.{
  copied, escaped, piece_source, emit, Kept, Pieced, Pieced-emit, push_found-Pieced,
}
use jupynvim.Math.Index.{EnvIndex}
use jupynvim.Math.Index.Right.{IndexRight}
use jupynvim.Math.Scan.{Scan, flush, push_math, escape_dollar}

-- The output so far is that of `pre`, the source before the segment, and of the segment up to `run`;
-- `k` is where the scan is.
unfoldable pub Ready : {E : EnvIndex} → Bytes → Bytes → Scan E → ℕ → Type 0
Ready s pre st k =
    (st.run ≤ k) × (k ≤ length s) × IndexRight s st.ix × Pieced st.out (pre ++ take st.run s)

pub flush-Pieced :
    (E : EnvIndex) (s pre : Bytes) (base : ℕ) (st : Scan E) (upto : ℕ)
    → st.run ≤ upto
    → upto ≤ length s
    → Pieced st.out (pre ++ take st.run s)
    → Pieced (flush E s base st upto).out (pre ++ take upto s)
unfolding flush emit Kept piece_source
flush-Pieced E s pre base st upto le inside pieced =
    let c = sub s st.run upto in
    subst (Pieced (flush E s base st upto).out)
      (append_assoc pre (take st.run s) c ∙ ap (λ xs. pre ++ xs) (take-sub s st.run upto le inside))
      (Pieced-emit st.out (pre ++ take st.run s) (copied c) tt pieced)

length-before : (s pre : Bytes) (k : ℕ) → k ≤ length s → length (pre ++ take k s) ≡ length pre + k
length-before s pre k h = omega (arith, length-append pre (take k s), length-take k s, h)

-- A math over `start..end`.
pub push_math-Ready :
    (E : EnvIndex) (s pre : Bytes) (base : ℕ) (st : Scan E) (tex : Bytes) (display block : Bool)
    (kind : Kind) (start end : ℕ)
    → base ≡ length pre
    → start ≤ end
    → end ≤ length s
    → Ready s pre st start
    → Ready s pre (push_math E s base st tex display block kind start end) end
unfolding push_math flush Ready
push_math-Ready E s pre base st tex display block kind start end here le inside
      (run, _, right, pieced) =
    let flushed = flush-Pieced E s pre base st start run (omega (arith, le, inside)) pieced in
    let size = sub-length_inside s start end le inside in
    let before = length-before s pre start (omega (arith, le, inside)) in
    (
      omega arith,
      inside,
      right,
      subst (Pieced _)
          (append_assoc pre (take start s) (sub s start end)
            ∙ ap (λ xs. pre ++ xs) (take-sub s start end le inside))
          (push_found-Pieced _ (pre ++ take start s) (sub s start end) _ (base + start) (base + end)
            (omega (arith, here, before)) (omega (arith, here, before, size, le)) ([], refl)
            flushed),
    )

-- An escaped `$` at `k`.
pub escape_dollar-Ready :
    (E : EnvIndex) (s pre : Bytes) (base : ℕ) (st : Scan E) (k : ℕ)
    → base ≡ length pre
    → k < length s
    → at s k ≡ b'$'
    → Ready s pre st k
    → Ready s pre (escape_dollar E s base st k) (k + 1)
unfolding escape_dollar flush Ready emit Kept piece_source
escape_dollar-Ready E s pre base st k here inside byte (run, _, right, pieced) =
    let flushed = flush-Pieced E s pre base st k run (omega (arith, inside)) pieced in
    let before = length-before s pre k (omega (arith, inside)) in
    let dollar : sub s k (k + 1) ≡ b'$' ∷ [] = sub-one s k inside ∙ ap (λ b. b ∷ []) byte in
    let next : (pre ++ take k s) ++ b'$' ∷ [] ≡ pre ++ take (k + 1) s =
      append_assoc pre (take k s) (b'$' ∷ [])
      ∙ ap (λ xs. pre ++ (take k s ++ xs)) (sym dollar)
      ∙ ap (λ xs. pre ++ xs) (take-sub s k (k + 1) (omega arith) (omega (arith, inside))) in
    let place : length (pre ++ take k s) ≡ base + k = omega (arith, here, before) in
    (
      omega arith,
      omega (arith, inside),
      right,
      subst (λ x. Pieced (push_escaped (flush E s base st k).out x) (pre ++ take (k + 1) s)) place
          (subst (Pieced _) next (Pieced-emit _ (pre ++ take k s) escaped tt flushed)),
    )
