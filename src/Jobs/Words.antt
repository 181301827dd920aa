-- ===== src/Jobs/Words.antt =====
-- Little-endian words, and the sum of bytes.
use jupynvim.Prelude.{
  ℕ, zero, suc, ◌+◌, ◌/◌, ◌%◌, ◌^◌, ◌<◌, ◌≡◌, refl, ap, ◌∙◌, some, List, [], ◌∷◌, arith, length,
}
use jupynvim.Prelude.Threads.{total, total-nil, total-cons}
use jupynvim.Abi.{kind_bytesum}
use jupynvim.Jobs.{to_le, from_le, byte_sum, run, Host, ok}

pub from_le-to_le : (k n : ℕ) → n < 256 ^ k → from_le (to_le k n) ≡ n
unfolding from_le to_le
from_le-to_le zero n h = omega arith
from_le-to_le (suc k) n h = omega (arith, from_le-to_le k (n / 256) (omega arith))

pub length-to_le : (k n : ℕ) → length (to_le k n) ≡ k
unfolding to_le
length-to_le zero n = refl
length-to_le (suc k) n = ap suc (length-to_le k (n / 256))

byte_sum-total :
    (a : ℕ) (input : List ℕ) → a < 2 ^ 64 → byte_sum a input ≡ (a + total (λ b. b) input) % 2 ^ 64
unfolding byte_sum
byte_sum-total a [] h = omega (arith, total-nil (λ (b : ℕ). b))
byte_sum-total a (b ∷ input) h =
    byte_sum-total ((a + b) % 2 ^ 64) input (omega arith)
    ∙ omega (arith, total-cons (λ (x : ℕ). x) b input)

-- The kind of the sum answers with eight bytes, which as a little-endian word are the sum of the
-- input's bytes modulo 2^64.
pub bytesum-total :
    (h : Host) (rounds : ℕ) (input : List ℕ)
    → (r : List ℕ) × (run h rounds kind_bytesum input ≡ some (ok (some r)))
      × (length r ≡ 8)
      × (from_le r ≡ total (λ b. b) input % 2 ^ 64)
unfolding run
bytesum-total h rounds input =
    let s : byte_sum 0 input ≡ total (λ b. b) input % 2 ^ 64 =
      omega (arith, byte_sum-total 0 input (omega arith)) in
    (
      to_le 8 (byte_sum 0 input),
      refl,
      length-to_le 8 (byte_sum 0 input),
      from_le-to_le 8 (byte_sum 0 input) (omega (arith, s)) ∙ s,
    )
