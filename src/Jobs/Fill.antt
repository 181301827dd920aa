-- ===== src/Jobs/Fill.antt =====
-- The doubling loop of `fill` against the bytes it is to make.
use jupynvim.Prelude.{
  ℕ, zero, suc, ◌+◌, ◌-◌, ◌%◌, ◌<◌, ◌≤◌, min, ◌⊎◌, inl, inr, ◌≡◌, refl, ap, ◌∙◌, sym, subst, true,
  false, none, some, List, ◌∷◌, ◌++◌, arith, length, take, if◌then◌else◌, ltb, get_elem?,
}
use native.Mathlib.Decide.{dec_lt}
use jupynvim.Abi.{kind_fill}
use jupynvim.Jobs.{to_le, bytes_from, fill_loop, fill_to, fill, filled, fill_max, run, Host, ok}
use jupynvim.Jobs.Words.{from_le-to_le, length-to_le}

length-bytes_from : (i k : ℕ) → length (bytes_from i k) ≡ k
unfolding bytes_from
length-bytes_from i zero = refl
length-bytes_from i (suc k) = ap suc (length-bytes_from (suc i) k)

take-bytes_from : (i j k : ℕ) → j ≤ k → take j (bytes_from i k) ≡ bytes_from i j
unfolding bytes_from
take-bytes_from i zero k h = refl
take-bytes_from i (suc j) zero h = absurd (omega arith)
take-bytes_from i (suc j) (suc k) h =
    ap (λ t. i % 251 ∷ t) (take-bytes_from (suc i) j k (omega arith))

bytes_from-append : (i j k : ℕ) → bytes_from i j ++ bytes_from (i + j) k ≡ bytes_from i (j + k)
unfolding bytes_from
bytes_from-append i zero k =
    let e : i + 0 ≡ i = omega arith in ap (λ x. bytes_from x k) e ∙ ap (bytes_from i) (omega arith)
bytes_from-append i (suc j) k =
    let e : i + suc j ≡ suc i + j = omega arith in
    let e' : suc j + k ≡ suc (j + k) = omega arith in
    ap (λ x. bytes_from i (suc j) ++ bytes_from x k) e
    ∙ ap (λ t. i % 251 ∷ t) (bytes_from-append (suc i) j k)
    ∙ ap (bytes_from i) (sym e')

-- Bytes repeat after a period.
bytes_from-period : (i i' k : ℕ) → i % 251 ≡ i' % 251 → bytes_from i k ≡ bytes_from i' k
unfolding bytes_from
bytes_from-period i i' zero h = refl
bytes_from-period i i' (suc k) h =
    let next : suc i % 251 ≡ suc i' % 251 = omega arith in
    rw h (ap (λ t. i' % 251 ∷ t) (bytes_from-period (suc i) (suc i') k next))

-- One round of the loop: the made bytes, a whole number of periods, are doubled up to `n`.
double :
    (n m : ℕ)
    → m ≤ n
    → m % 251 ≡ 0
    → bytes_from 0 m ++ take (min m (n - m)) (bytes_from 0 m) ≡ bytes_from 0 (m + min m (n - m))
double n m le whole =
    let k = min m (n - m) in
    ap (λ t. bytes_from 0 m ++ t)
      (take-bytes_from 0 k m (omega arith) ∙ bytes_from-period 0 (0 + m) k (omega arith))
    ∙ bytes_from-append 0 m k

more :
    (n rounds : ℕ) (v : List ℕ)
    → ltb (length v) n ≡ true
    → fill_loop n (suc rounds) v ≡ fill_loop n rounds (v ++ take (min (length v) (n - length v)) v)
unfolding fill_loop
more n rounds v h = rw (fill_loop, h) refl

stop : (n rounds : ℕ) (v : List ℕ) → ltb (length v) n ≡ false → fill_loop n rounds v ≡ some v
unfolding fill_loop
stop n zero v h = rw (fill_loop, h) refl
stop n (suc rounds) v h = rw (fill_loop, h) refl

round :
    (n rounds m : ℕ)
    → m < n
    → fill_loop n (suc rounds) (bytes_from 0 m)
      ≡ fill_loop n rounds (bytes_from 0 m ++ take (min m (n - m)) (bytes_from 0 m))
round n rounds m h =
    let e = length-bytes_from 0 m in
    more n rounds (bytes_from 0 m) (ground arith)
    ∙ ap (λ k. fill_loop n rounds (bytes_from 0 m ++ take (min k (n - k)) (bytes_from 0 m))) e

finished : (n rounds : ℕ) → fill_loop n rounds (bytes_from 0 n) ≡ some (bytes_from 0 n)
finished n rounds = let e = length-bytes_from 0 n in stop n rounds (bytes_from 0 n) (ground arith)

whole_or_end :
    (n m : ℕ)
    → m ≤ n
    → 0 < m
    → m % 251 ≡ 0
    → ((0 < m + min m (n - m)) × ((m + min m (n - m)) % 251 ≡ 0)) ⊎ (m + min m (n - m) ≡ n)
whole_or_end n m le pos whole = elim (dec_lt (n - m) m) [
  | yes h ↦ inr (omega arith)
  | no h ↦ inl (omega arith)
]

at_end : (n rounds m : ℕ) → m ≡ n → fill_loop n rounds (bytes_from 0 m) ≡ some (bytes_from 0 n)
at_end n rounds m e =
    subst (λ x. fill_loop n rounds (bytes_from 0 x) ≡ some (bytes_from 0 n)) (sym e)
      (finished n rounds)

fill_loop-bytes_from :
    (n rounds m : ℕ)
    → m ≤ n
    → n ≤ m + rounds
    → ((0 < m) × (m % 251 ≡ 0)) ⊎ (m ≡ n)
    → fill_loop n rounds (bytes_from 0 m) ≡ some (bytes_from 0 n)
fill_loop-bytes_from n zero m le enough p = at_end n zero m (omega arith)
fill_loop-bytes_from n (suc rounds) m le enough (inr e) = at_end n (suc rounds) m e
fill_loop-bytes_from n (suc rounds) m le enough (inl (pos, whole)) = elim (dec_lt m n) [
  | yes more ↦
      round n rounds m more
      ∙ ap (fill_loop n rounds) (double n m le whole)
      ∙ fill_loop-bytes_from n rounds (m + min m (n - m)) (omega arith) (omega arith)
          (whole_or_end n m le pos whole)
  | no done ↦ at_end n (suc rounds) m (omega arith)
]

get_elem?-bytes_from :
    (j k i : ℕ) → get_elem? (bytes_from j k) i ≡ (if ltb i k then some ((j + i) % 251) else none)
unfolding bytes_from
get_elem?-bytes_from j zero i = ground arith
get_elem?-bytes_from j (suc k) zero = ground arith
get_elem?-bytes_from j (suc k) (suc i) =
    let e : suc j + i ≡ j + suc i = omega arith in get_elem?-bytes_from (suc j) k i ∙ ground arith

-- Where memory for `n` bytes is given, `n` at most 1 GiB, the kind that fills makes `n` bytes of
-- which byte `i` is `i % 251`, its loop ending within as many rounds as bytes.
pub fill-bytes :
    (h : Host) (rounds n i : ℕ)
    → n ≤ fill_max
    → h.room n ≡ true
    → n ≤ rounds
    → (r : List ℕ) × (run h rounds kind_fill (to_le 8 n) ≡ some (ok (some r)))
      × (length r ≡ n)
      × (get_elem? r i ≡ (if ltb i n then some (i % 251) else none))
unfolding run fill fill_to filled
fill-bytes h rounds n i fits room enough =
    let start = take-bytes_from 0 (min n 251) 251 (omega arith) in
    let loop = fill_loop-bytes_from n rounds (min n 251) (omega arith) (omega arith) (first n) in
    let small : ltb fill_max n ≡ false = ground arith in
    (
      bytes_from 0 n,
      rw (length-to_le 8 n, from_le-to_le 8 n (omega arith), small, room, start, loop) refl,
      length-bytes_from 0 n,
      get_elem?-bytes_from 0 n i ∙ ground arith,
    )
  where
    first : (n : ℕ) → ((0 < min n 251) × (min n 251 % 251 ≡ 0)) ⊎ (min n 251 ≡ n)
    first n = elim (dec_lt n 251) [ yes h ↦ inr (omega arith) | no h ↦ inl (omega arith) ]
