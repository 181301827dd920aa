-- ===== src/Guard/Decimal.antt =====
-- The decimal text of a number, as `format!("{pgid}")` writes it, against the parser of ids.
use jupynvim.Prelude.{
  ℕ, zero, suc, ◌+◌, ◌-◌, ◌*◌, ◌/◌, ◌%◌, ◌≤◌, ◌<◌, ◌≡◌, refl, true, some, List, [], ◌∷◌, ◌++◌,
  arith, ltb, if_elim, if◌then◌else◌,
}
use jupynvim.Guard.{is_digit, all_digits, decimal_value, parse_i32, i32_max}

digits : ℕ → ℕ → List ℕ
digits zero n = []
digits (suc f) n =
    let high = digits f (n / 10) in
    if ltb n 10 then (b'0' + n) ∷ [] else high ++ (b'0' + n % 10) ∷ []

-- One more round than the number itself is more rounds than it has digits.
unfoldable pub print : ℕ → List ℕ
unfolding digits
print n = digits (suc n) n

decimal_value-append :
    (acc : ℕ) (xs ys : List ℕ)
    → decimal_value acc (xs ++ ys) ≡ decimal_value (decimal_value acc xs) ys
unfolding decimal_value
decimal_value-append acc [] ys = refl
decimal_value-append acc (x ∷ xs) ys = decimal_value-append (acc * 10 + (x - b'0')) xs ys

decimal_value-digits : (f n : ℕ) → n < f → decimal_value 0 (digits f n) ≡ n
unfolding digits decimal_value
decimal_value-digits zero n h = absurd (omega arith)
decimal_value-digits (suc f) n h = ground (
  arith,
  decimal_value-append 0 (digits f (n / 10)) ((b'0' + n % 10) ∷ []),
  decimal_value-digits f (n / 10),
)

all_digits-append :
    (xs : List ℕ) (d : ℕ)
    → all_digits xs ≡ true
    → is_digit d ≡ true
    → all_digits (xs ++ d ∷ []) ≡ true
unfolding all_digits
all_digits-append [] d h e = ground arith
all_digits-append (x ∷ xs) d h e = ground (arith, all_digits-append xs d)

all_digits-digits : (f n : ℕ) → all_digits (digits f n) ≡ true
unfolding digits all_digits
all_digits-digits zero n = refl
all_digits-digits (suc f) n =
    ground
      (arith, all_digits-append (digits f (n / 10)) (b'0' + n % 10), all_digits-digits f (n / 10))

pub all_digits-print : (n : ℕ) → all_digits (print n) ≡ true
unfolding print
all_digits-print n = all_digits-digits (suc n) n

pub decimal_value-print : (n : ℕ) → decimal_value 0 (print n) ≡ n
unfolding print
decimal_value-print n = decimal_value-digits (suc n) n (omega arith)

pub parse_i32-print : (n : ℕ) → n ≤ i32_max → parse_i32 (print n) ≡ some n
unfolding parse_i32
parse_i32-print n h = ground (arith, decimal_value-print n)

abbrev IsCons : List ℕ → Type 0
IsCons xs = (d : ℕ) × (ds : List ℕ) × (xs ≡ d ∷ ds)

append-IsCons : (xs : List ℕ) (d : ℕ) → IsCons (xs ++ d ∷ [])
append-IsCons [] d = (d, [], refl)
append-IsCons (x ∷ xs) d = (x, xs ++ d ∷ [], refl)

-- The text of a number has a digit.
pub print-cons : (n : ℕ) → (d : ℕ) × (ds : List ℕ) × (print n ≡ d ∷ ds)
unfolding print
print-cons n =
    if_elim IsCons (ltb n 10) _ _ (λ _. (b'0' + n, [], refl))
      (λ _. append-IsCons (digits n (n / 10)) (b'0' + n % 10))
