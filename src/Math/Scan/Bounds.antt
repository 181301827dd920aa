-- ===== src/Math/Scan/Bounds.antt =====
-- core/native/src/mathgrammar/scan.rs and index.rs: what the searches find lies ahead, in the segment.
use jupynvim.Prelude.{
  ℕ, zero, suc, ◌+◌, ◌≤◌, ◌<◌, ◌≡◌, ◌≢◌, refl, subst, ◌⊎◌, inl, inr, Bool, true, false, ◌&&◌,
  Option, none, some, [], ◌∷◌, if◌then◌else◌, leb, ◌==◌, length, drop, length-drop, arith, if_elim,
  Bool-cases,
}
use jupynvim.Math.{Bytes, at, sub, run_length, skip, is_ws, js_ws_len}
use jupynvim.Math.Fences.{same_bytes}
use jupynvim.Math.Bytes.{at-inside}
use jupynvim.Math.Delims.{
  closing_angle, tag_end, scheme_end, link_end, or_match, match_tag, match_markup, comment_end,
  or_default, is_tag_byte, is_scheme_byte, not_angle,
}
use jupynvim.Math.Dollars.{display_from, display_close, inline_from, inline_dollar}
use jupynvim.Math.Lookahead.{closed, walk_from, walk_direct}

run_length-bound : (p : ℕ → Bool) (s : Bytes) → run_length p s ≤ length s
unfolding run_length
run_length-bound p [] = omega arith
run_length-bound p (b ∷ s) = ground (arith, run_length-bound p s)

pub skip-forward : (p : ℕ → Bool) (s : Bytes) (i : ℕ) → i ≤ skip p s i
unfolding skip
skip-forward p s i = omega arith

pub skip-inside : (p : ℕ → Bool) (s : Bytes) (i : ℕ) → i ≤ length s → skip p s i ≤ length s
unfolding skip
skip-inside p s i h = omega (arith, h, run_length-bound p (drop i s), length-drop i s)

-- An end after a place, in the text.
abbrev pub Ahead : Bytes → ℕ → ℕ → Type 0
Ahead s k e = (k < e) × (e ≤ length s)

closing_angle-Ahead : (s : Bytes) (k t e : ℕ) → k ≤ t → closing_angle s t ≡ some e → Ahead s k e
unfolding closing_angle
closing_angle-Ahead s k t e h found = ground (arith, at-inside s t)

link_end-forward : (f : ℕ) (s : Bytes) (t : ℕ) → t ≤ link_end f s t
unfolding link_end
link_end-forward zero s t = omega arith
link_end-forward (suc f) s t = ground (arith, link_end-forward f s (suc t))

tag_end-Ahead : (s : Bytes) (p e : ℕ) → tag_end s p ≡ some e → Ahead s p e
unfolding tag_end
tag_end-Ahead s p e found =
    let q = if at s p == b'/' then p + 1 else p in
    let r = skip is_tag_byte s (q + 1) in
    let t = skip not_angle s (r + js_ws_len s r) in
    let u = if at s r == b'/' then r + 1 else r in
    ground (
      arith,
      skip-forward is_tag_byte s (q + 1),
      skip-forward not_angle s (r + js_ws_len s r),
      closing_angle-Ahead s p t e,
      closing_angle-Ahead s p u e,
    )

scheme_end-Ahead : (s : Bytes) (p e : ℕ) → scheme_end s p ≡ some e → Ahead s p e
unfolding scheme_end
scheme_end-Ahead s p e found =
    let r = skip is_scheme_byte s (p + 1) in
    let t = link_end (length s) s (r + 1) in
    ground (
      arith,
      skip-forward is_scheme_byte s (p + 1),
      link_end-forward (length s) s (r + 1),
      closing_angle-Ahead s p t e,
    )

comment_end-bounds :
    (i : ℕ) (s : Bytes) (e : ℕ) → comment_end i s ≡ some e → (i < e) × (e ≤ i + length s)
unfolding comment_end
comment_end-bounds i [] e found = ground arith
comment_end-bounds i (b ∷ s) e found = ground (arith, at-inside s 1, comment_end-bounds (suc i) s e)

or_match-cases : (a b : Option ℕ) (e : ℕ) → or_match a b ≡ some e → (a ≡ some e) ⊎ (b ≡ some e)
unfolding or_match
or_match-cases none b e h = inr h
or_match-cases (some x) b e h = inl h

match_tag-Ahead : (s : Bytes) (k e : ℕ) → match_tag s k ≡ some e → Ahead s k e
unfolding match_tag
match_tag-Ahead s k e found =
    elim (or_match-cases (tag_end s (k + 1)) (scheme_end s (k + 1)) e found) [
      | inl h ↦ let (low, high) = tag_end-Ahead s (k + 1) e h in (omega (arith, low), high)
      | inr h ↦ let (low, high) = scheme_end-Ahead s (k + 1) e h in (omega (arith, low), high)
    ]

out_of_range : (s : Bytes) (a e : ℕ) → (leb a e && leb e (length s)) ≡ false → sub s a e ≡ []
unfolding sub
out_of_range s a e h = rw h refl

no_text : (t : Bytes) → same_bytes [] (b'<' ∷ t) ≢ true
unfolding same_bytes
no_text t h = ground arith

-- The four bytes of `<!--` are there.
comment_inside :
    (s : Bytes) (k : ℕ) (t : Bytes)
    → same_bytes (sub s k (k + 4)) (b'<' ∷ t) ≡ true
    → k + 4 ≤ length s
unfolding same_bytes sub
comment_inside s k t h = elim (Bool-cases (leb k (k + 4) && leb (k + 4) (length s))) [
  | inl e ↦ ground arith
  | inr e ↦
      absurd
        (no_text t (subst (λ xs. same_bytes xs (b'<' ∷ t) ≡ true) (out_of_range s k (k + 4) e) h))
]

comment_Ahead :
    (s : Bytes) (k : ℕ) (o : Option ℕ)
    → k + 4 ≤ length s
    → ((e : ℕ) → o ≡ some e → (k + 4 < e) × (e ≤ k + 4 + length (drop (k + 4) s)))
    → Ahead s k (or_default o (length s))
unfolding or_default
comment_Ahead s k none h found = (omega (arith, h), omega arith)
comment_Ahead s k (some e) h found =
    let (low, high) = found e refl in
    (omega (arith, low), omega (arith, high, h, length-drop (k + 4) s))

tag_Ahead :
    (s : Bytes) (k : ℕ) (o : Option ℕ)
    → k < length s
    → ((e : ℕ) → o ≡ some e → Ahead s k e)
    → Ahead s k (or_default o (k + 1))
unfolding or_default
tag_Ahead s k none h found = (omega arith, omega (arith, h))
tag_Ahead s k (some e) h found = found e refl

pub match_markup-Ahead :
    (s : Bytes) (k : ℕ) → k < length s → Ahead s k (or_default (match_markup s k) (k + 1))
unfolding match_markup
match_markup-Ahead s k inside =
    let mark = b'<' ∷ b'!' ∷ b'-' ∷ b'-' ∷ [] in
    if_elim (λ o. Ahead s k (or_default o (k + 1))) (same_bytes (sub s k (k + 4)) mark) _ _
      (λ h.
        comment_Ahead s k (comment_end (k + 4) (drop (k + 4) s)) (comment_inside s k _ h)
          (λ e. comment_end-bounds (k + 4) (drop (k + 4) s) e))
      (λ _. tag_Ahead s k (match_tag s k) inside (λ e. match_tag-Ahead s k e))

display_from-bounds :
    (f : ℕ) (s : Bytes) (j e : ℕ) → display_from f s j ≡ some e → (j ≤ e) × (e + 2 ≤ length s)
unfolding display_from
display_from-bounds zero s j e h = ground arith
display_from-bounds (suc f) s j e h = ground (
  arith,
  at-inside s (j + 1),
  display_from-bounds f s (j + 1) e,
  display_from-bounds f s (j + 2) e,
)

pub display_close-bounds :
    (s : Bytes) (from e : ℕ) → display_close s from ≡ some e → (from ≤ e) × (e + 2 ≤ length s)
unfolding display_close
display_close-bounds s from e h = display_from-bounds (length s) s from e h

inline_from-bounds :
    (f : ℕ) (s : Bytes) (j e : ℕ) → inline_from f s j ≡ some e → (j ≤ e) × (e < length s)
unfolding inline_from
inline_from-bounds zero s j e h = ground arith
inline_from-bounds (suc f) s j e h = ground (
  arith,
  skip-forward is_ws s j,
  inline_from-bounds f s (j + 1) e,
  inline_from-bounds f s (j + 2) e,
  inline_from-bounds f s (skip is_ws s j) e,
)

pub inline_dollar-bounds :
    (s : Bytes) (k e : ℕ) → inline_dollar s k ≡ some e → (k < e) × (e < length s)
unfolding inline_dollar
inline_dollar-bounds s k e h =
    let j = if at s (k + 1) == b'\\' then k + 1 + 2 else k + 1 + 1 in
    ground (arith, inline_from-bounds (length s) s j e)

walk_from-bounds :
    (f : ℕ) (s : Bytes) (close j e : ℕ)
    → 0 < close
    → walk_from f s close j ≡ closed e
    → (j ≤ e) × (e + 2 ≤ length s)
unfolding walk_from
walk_from-bounds zero s close j e pos h = ground arith
walk_from-bounds (suc f) s close j e pos h = ground (
  arith,
  at-inside s (j + 1),
  walk_from-bounds f s close (j + 1) e,
  walk_from-bounds f s close (j + 2) e,
)

pub walk_direct-bounds :
    (s : Bytes) (from close e : ℕ)
    → 0 < close
    → walk_direct s from close ≡ closed e
    → (from ≤ e) × (e + 2 ≤ length s)
unfolding walk_direct
walk_direct-bounds s from close e pos h = walk_from-bounds (length s) s close from e pos h
