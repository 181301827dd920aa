-- ===== src/Math/Bytes.antt =====
-- Lemmas on core/native/src/mathgrammar/jsstr.rs and on the byte ranges of scan.rs.
use jupynvim.Prelude.{
  ℕ, zero, suc, ◌+◌, ◌-◌, ◌≤◌, ◌<◌, ◌≡◌, refl, sym, true, false, [], ◌∷◌, ◌==◌, length, take, drop,
  length-take, length-drop, ap, ◌∙◌, ◌++◌, arith,
}
use jupynvim.Math.{Bytes, at, sub, is_blank, skip1, skip3, quote_prefix_from, quote_prefix_len}

-- A place with a byte other than 0 is in the text.
pub at-inside : (s : Bytes) (i : ℕ) → (at s i == 0) ≡ false → i < length s
unfolding at
at-inside [] i h = ground arith
at-inside (b ∷ s) zero h = omega arith
at-inside (b ∷ s) (suc i) h = omega (arith, at-inside s i h)

pub sub-length : (s : Bytes) (a e : ℕ) → length (sub s a e) ≤ e - a
unfolding sub
sub-length s a e = ground (arith, length-take (e - a) (drop a s))

is_blank-inside : (s : Bytes) (i : ℕ) → is_blank (at s i) ≡ true → i < length s
unfolding is_blank
is_blank-inside s i h = ground (arith, at-inside s i)

skip1-bound : (s : Bytes) (p : ℕ) → p ≤ length s → skip1 s p ≤ length s
unfolding skip1
skip1-bound s p h = ground (arith, is_blank-inside s p)

quote_prefix_from-bound :
    (f : ℕ) (s : Bytes) (p : ℕ) → p ≤ length s → quote_prefix_from f s p ≤ length s
unfolding quote_prefix_from
quote_prefix_from-bound zero s p h = h
quote_prefix_from-bound (suc f) s p h = ground (
  arith,
  at-inside s (skip3 s p),
  skip1-bound s (skip3 s p + 1),
  quote_prefix_from-bound f s (skip1 s (skip3 s p + 1)),
)

-- The quote prefix of a line is a part of it.
pub quote_prefix_len-bound : (s : Bytes) → quote_prefix_len s ≤ length s
unfolding quote_prefix_len
quote_prefix_len-bound s = quote_prefix_from-bound (length s) s 0 (omega arith)

take-empty : (n : ℕ) → take {A = ℕ} n [] ≡ []
take-empty zero = refl
take-empty (suc n) = refl

take-drop : (a n : ℕ) (s : Bytes) → take a s ++ take n (drop a s) ≡ take (a + n) s
take-drop zero n s = ap (λ k. take k s) (omega arith)
take-drop (suc a) n [] = take-empty n ∙ sym (take-empty (suc a + n))
take-drop (suc a) n (b ∷ s) =
    let moved : suc (a + n) ≡ suc a + n = omega arith in
    ap (λ xs. b ∷ xs) (take-drop a n s) ∙ ap (λ k. take k (b ∷ s)) moved

pub sub-inside : (s : Bytes) (a e : ℕ) → a ≤ e → e ≤ length s → sub s a e ≡ take (e - a) (drop a s)
unfolding sub
sub-inside s a e h k = ground arith

-- A range after what stands before it.
pub take-sub : (s : Bytes) (a e : ℕ) → a ≤ e → e ≤ length s → take a s ++ sub s a e ≡ take e s
take-sub s a e h k =
    ap (λ xs. take a s ++ xs) (sub-inside s a e h k)
    ∙ take-drop a (e - a) s
    ∙ ap (λ n. take n s) (omega (arith, h))

pub sub-length_inside : (s : Bytes) (a e : ℕ) → a ≤ e → e ≤ length s → length (sub s a e) ≡ e - a
sub-length_inside s a e h k =
    ap length (sub-inside s a e h k)
    ∙ omega (arith, length-take (e - a) (drop a s), length-drop a s, h, k)

take-one : (s : Bytes) (i : ℕ) → i < length s → take 1 (drop i s) ≡ at s i ∷ []
unfolding at
take-one [] i h = ground arith
take-one (b ∷ s) zero h = refl
take-one (b ∷ s) (suc i) h = take-one s i (omega (arith, h))

-- A range of one byte.
pub sub-one : (s : Bytes) (i : ℕ) → i < length s → sub s i (i + 1) ≡ at s i ∷ []
sub-one s i h =
    let one : i + 1 - i ≡ 1 = omega arith in
    sub-inside s i (i + 1) (omega arith) (omega (arith, h))
    ∙ ap (λ n. take n (drop i s)) one
    ∙ take-one s i h

pub take-length : (s : Bytes) → take (length s) s ≡ s
take-length [] = refl
take-length (b ∷ s) = ap (λ xs. b ∷ xs) (take-length s)

drop-empty : (n : ℕ) → drop {A = ℕ} n [] ≡ []
drop-empty zero = refl
drop-empty (suc n) = refl

drop-drop : (a n : ℕ) (s : Bytes) → drop n (drop a s) ≡ drop (a + n) s
drop-drop zero n s = ap (λ k. drop k s) (omega arith)
drop-drop (suc a) n [] = drop-empty n ∙ sym (drop-empty (suc a + n))
drop-drop (suc a) n (b ∷ s) =
    let moved : suc (a + n) ≡ suc a + n = omega arith in
    drop-drop a n s ∙ ap (λ k. drop k (b ∷ s)) moved

-- A range in two parts.
pub sub-split :
    (s : Bytes) (a m e : ℕ) → a ≤ m → m ≤ e → e ≤ length s → sub s a m ++ sub s m e ≡ sub s a e
sub-split s a m e h k inside =
    let there : a + (m - a) ≡ m = omega (arith, h) in
    let whole : m - a + (e - m) ≡ e - a = omega (arith, h, k) in
    ap (λ xs. xs ++ sub s m e) (sub-inside s a m h (omega (arith, k, inside)))
    ∙ ap (λ xs. take (m - a) (drop a s) ++ xs) (sub-inside s m e k inside)
    ∙ ap (λ n. take (m - a) (drop a s) ++ take (e - m) (drop n s)) (sym there)
    ∙ ap (λ xs. take (m - a) (drop a s) ++ take (e - m) xs) (sym (drop-drop a (m - a) s))
    ∙ take-drop (m - a) (e - m) (drop a s)
    ∙ ap (λ n. take n (drop a s)) whole
    ∙ sym (sub-inside s a e (omega (arith, h, k)) inside)
