-- ===== src/Math/Index/Doubled.antt =====
-- core/native/src/mathgrammar/index.rs: the search for `\\\\)` and `\\\\]`, started at one place or
-- another.
use jupynvim.Prelude.{
  ℕ, zero, suc, ◌+◌, ◌-◌, ◌≤◌, ◌<◌, ◌≡◌, ◌≢◌, refl, sym, ap, subst, ◌∙◌, inl, inr, Bool, true,
  false, Option, none, some, [], ◌∷◌, leb, length, drop, length-drop, arith, Bool-cases,
  Option-cases,
}
use jupynvim.Math.{Bytes}
use jupynvim.Math.Bytes.{at-inside}
use jupynvim.Math.Index.{reaches}
use jupynvim.Math.Lookahead.{doubled_from, search_doubled}

doubled_from-bounds :
    (close i : ℕ) (s : Bytes) (e : ℕ)
    → 0 < close
    → doubled_from close i s ≡ some e
    → (i ≤ e) × (e + 3 ≤ i + length s)
unfolding doubled_from
doubled_from-bounds close i [] e pos h = ground arith
doubled_from-bounds close i (b ∷ s) e pos h =
    ground (arith, at-inside s 1, doubled_from-bounds close (suc i) s e pos)

-- What the search finds lies in the text, from its start on.
pub search_doubled-bounds :
    (s : Bytes) (from close e : ℕ)
    → 0 < close
    → search_doubled s from close ≡ some e
    → (from ≤ e) × (e + 3 ≤ length s)
unfolding search_doubled
search_doubled-bounds s from close e pos h =
    ground (arith, doubled_from-bounds close from (drop from s) e pos, length-drop from s)

not_here :
    (c : Bool) (n : ℕ) (later : Option ℕ)
    → elim c [ true ↦ some n | false ↦ later ] ≢ some n
    → elim c [ true ↦ some n | false ↦ later ] ≡ later
not_here true n later ne = absurd (ne refl)
not_here false n later ne = refl

doubled_from-next :
    (close n i : ℕ) (s : Bytes)
    → i < length s
    → doubled_from close n (drop i s) ≢ some n
    → doubled_from close n (drop i s) ≡ doubled_from close (suc n) (drop (suc i) s)
unfolding doubled_from
doubled_from-next close n i [] h ne = ground arith
doubled_from-next close n zero (b ∷ s) h ne = not_here _ n _ ne
doubled_from-next close n (suc i) (b ∷ s) h ne = doubled_from-next close n i s (omega (arith, h)) ne

search_doubled-next :
    (s : Bytes) (from close : ℕ)
    → from < length s
    → search_doubled s from close ≢ some from
    → search_doubled s from close ≡ search_doubled s (suc from) close
unfolding search_doubled
search_doubled-next s from close h ne =
    let here : search_doubled s from close ≡ doubled_from close from (drop from s) = ground arith in
    let next : search_doubled s (suc from) close
        ≡ doubled_from close (suc from) (drop (suc from) s) =
      ground arith in
    here ∙ doubled_from-next close from from s h (λ q. ne (here ∙ q)) ∙ sym next

late : (from d : ℕ) → reaches (from + suc d) (some from) ≢ true
unfolding reaches
late from d h = absurd (ground arith)

search_doubled-step :
    (s : Bytes) (from d close : ℕ)
    → from + d ≤ length s
    → reaches (from + d) (search_doubled s from close) ≡ true
    → search_doubled s (from + d) close ≡ search_doubled s from close
unfolding reaches
search_doubled-step s from zero close h r = ap (λ k. search_doubled s k close) (omega arith)
search_doubled-step s from (suc d) close h r =
    let moved : suc from + d ≡ from + suc d = omega arith in
    let ne : search_doubled s from close ≢ some from =
      λ e. late from d (subst (λ o. reaches (from + suc d) o ≡ true) e r) in
    let same = search_doubled-next s from close (omega (arith, h)) ne in
    let r' : reaches (suc from + d) (search_doubled s (suc from) close) ≡ true =
      ap (λ k. reaches k (search_doubled s (suc from) close)) moved
      ∙ ap (reaches (from + suc d)) (sym same)
      ∙ r in
    ap (λ k. search_doubled s k close) (sym moved)
    ∙ search_doubled-step s (suc from) d close (omega (arith, h)) r'
    ∙ sym same

past_end :
    (s : Bytes) (from close : ℕ) → leb from (length s) ≡ false → search_doubled s from close ≡ none
unfolding search_doubled
past_end s from close h = rw h refl

beyond : (from x size : ℕ) → leb from size ≡ false → x + 3 ≤ size → reaches from (some x) ≢ true
unfolding reaches
beyond from x size h k r = absurd (ground arith)

-- A search that started earlier answers a later one, when what it found is not before that.
pub search_doubled-later :
    (s : Bytes) (searched from close : ℕ)
    → 0 < close
    → searched ≤ from
    → reaches from (search_doubled s searched close) ≡ true
    → search_doubled s from close ≡ search_doubled s searched close
unfolding reaches
search_doubled-later s searched from close pos h r = elim (Bool-cases (leb from (length s))) [
  | inl le ↦
      let there : searched + (from - searched) ≡ from = omega (arith, h) in
      ap (λ k. search_doubled s k close) (sym there)
      ∙ search_doubled-step s searched (from - searched) close (ground arith)
          (ap (λ k. reaches k (search_doubled s searched close)) there ∙ r)
  | inr gt ↦ elim (Option-cases (search_doubled s searched close)) [
    | inl e ↦ past_end s from close gt ∙ sym e
    | inr (x, e) ↦
        let (_, inside) = search_doubled-bounds s searched close x pos e in
        absurd (beyond from x (length s) gt inside (subst (λ o. reaches from o ≡ true) e r))
  ]
]
