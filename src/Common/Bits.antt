-- ===== src/Common/Bits.antt =====
-- `&` with a mask of low ones and `|` of parts that share no digit, at variables.
use Prim.Native.Nat.{
  ℕ, zero, suc, ◌+◌, ◌*◌, ◌/◌, ◌%◌, ◌^◌, ◌≤◌, ◌<◌, min, max, bit_and, bit_or, digits,
  bit_and-bitwise, bit_or-bitwise,
}
use mathlib.Core.Path.{◌≡◌, refl, ap, ◌∙◌}
use native.Mathlib.Omega.{arith}
use native.Mathlib.Nat.{pow-suc, mod-add-div}

-- any two counts that cover the first number give the same digits
module _ (z : ℕ → ℕ) (f : ℕ → ℕ → ℕ) where
  digits_count : (n m a b : ℕ) → a ≤ n → a ≤ m → digits z f n a b ≡ digits z f m a b
  digits_count zero zero a b p q = refl
  digits_count zero (suc m) zero b p q = refl
  digits_count zero (suc m) (suc a) b p q = absurd (omega arith)
  digits_count (suc n) zero zero b p q = refl
  digits_count (suc n) zero (suc a) b p q = absurd (omega arith)
  digits_count (suc n) (suc m) zero b p q = refl
  digits_count (suc n) (suc m) (suc a) b p q =
      omega (arith, digits_count n m (suc a / 2) (b / 2) (omega arith) (omega arith))

bit_and_split : (a b : ℕ) → bit_and a b ≡ bit_and (a / 2) (b / 2) * 2 + min (a % 2) (b % 2)
bit_and_split zero b = omega (arith, bit_and-bitwise 0 b, bit_and-bitwise 0 (b / 2))
bit_and_split (suc a) b = omega (
  arith,
  bit_and-bitwise (suc a) b,
  bit_and-bitwise (suc a / 2) (b / 2),
  digits_count (λ _. 0) min a (suc a / 2) (suc a / 2) (b / 2) (omega arith) (omega arith),
)

bit_or_split : (a b : ℕ) → bit_or a b ≡ bit_or (a / 2) (b / 2) * 2 + max (a % 2) (b % 2)
bit_or_split zero b = omega (arith, bit_or-bitwise 0 b, bit_or-bitwise 0 (b / 2))
bit_or_split (suc a) b = omega (
  arith,
  bit_or-bitwise (suc a) b,
  bit_or-bitwise (suc a / 2) (b / 2),
  digits_count (λ d. d) max a (suc a / 2) (suc a / 2) (b / 2) (omega arith) (omega arith),
)

-- the number of k ones, and the k lowest digits
ones : ℕ → ℕ
ones zero = 0
ones (suc k) = ones k * 2 + 1

low : ℕ → ℕ → ℕ
low zero n = 0
low (suc k) n = low k (n / 2) * 2 + n % 2

bit_and-ones : (k n : ℕ) → bit_and (ones k) n ≡ low k n
unfolding ones low
bit_and-ones zero n = bit_and-bitwise 0 n
bit_and-ones (suc k) n = omega (arith, bit_and_split (ones k * 2 + 1) n, e, bit_and-ones k (n / 2))
  where
    e : bit_and ((ones k * 2 + 1) / 2) (n / 2) ≡ bit_and (ones k) (n / 2)
    e = let h : (ones k * 2 + 1) / 2 ≡ ones k = omega arith in rw h

low-mod : (k n : ℕ) → low k n ≡ n % 2 ^ k
unfolding low
low-mod zero n = omega arith
low-mod (suc k) n = rw (pow-suc 2 k) (grind (arith, low-mod k (n / 2), mod-add-div))

bit_or-zero_count : (n a : ℕ) → a ≤ n → bit_or a 0 ≡ a
bit_or-zero_count n zero h = refl
bit_or-zero_count zero (suc a) h = absurd (omega arith)
bit_or-zero_count (suc n) (suc a) h =
    omega (arith, bit_or_split (suc a) 0, bit_or-zero_count n (suc a / 2) (omega arith))

pub bit_or-zero : (a : ℕ) → bit_or a 0 ≡ a
bit_or-zero a = bit_or-zero_count a a (omega arith)

-- A word put above k low digits.
pub bit_or_disjoint : (k c r : ℕ) → r < 2 ^ k → bit_or (c * 2 ^ k) r ≡ c * 2 ^ k + r
bit_or_disjoint zero c r h =
    let e : r ≡ 0 = omega arith in rw (e) (omega (arith, bit_or-zero (c * 1)))
bit_or_disjoint (suc k) c r h = omega (
  arith,
  pow-suc 2 k,
  ap (λ (t : ℕ). c * t) (pow-suc 2 k),
  bit_or_split (c * 2 ^ suc k) r,
  e,
  bit_or_disjoint k c (r / 2) (omega (arith, pow-suc 2 k)),
)
  where
    e : bit_or (c * 2 ^ suc k / 2) (r / 2) ≡ bit_or (c * 2 ^ k) (r / 2)
    e =
        let h : c * 2 ^ suc k / 2 ≡ c * 2 ^ k =
          omega (arith, ap (λ (t : ℕ). c * t) (pow-suc 2 k)) in
        rw h

pub bit_and_low16 : (n : ℕ) → bit_and 0x0000ffff n ≡ n % 2 ^ 16
unfolding ones
bit_and_low16 n = bit_and-ones 16 n ∙ low-mod 16 n
