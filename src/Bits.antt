-- ===== src/Bits.antt =====
-- `&` with a shifted mask and `|` of disjoint fields, as arithmetic, at every width: what the byte
-- reversals of base/byte_order.h need of C's bit operators.
mod Step
use Step.{bit_and_digit, bit_or_digit, bit_or_swap}
use mathlib.Core.WellFounded.{Acc}
use Prim.Native.Nat.{bit_and, bit_or}
use native.Mathlib.Nat.{pow-suc, one-le-pow}
use lite_cpplib.Base.{ℕ, zero, suc, ◌+◌, ◌-◌, ◌*◌, ◌/◌, ◌%◌, ◌^◌, ◌≤◌, ◌<◌, ◌≡◌, refl, ap, arith}

-- What 0 does on the right, on fuel for the digits.
zero_right : (fuel a : ℕ) → a < suc fuel → (bit_and a 0 ≡ 0) × (bit_or a 0 ≡ a)
zero_right zero a h = let e : a ≡ 0 = omega arith in rw e (refl, refl)
zero_right (suc fuel) a h =
    let (p, q) = zero_right fuel (a / 2) (omega arith) in
    (omega (arith, bit_and_digit a 0, p), omega (arith, bit_or_digit a 0, q))

bit_and-zero : (a : ℕ) → bit_and a 0 ≡ 0
bit_and-zero a = (zero_right a a (omega arith)).0

bit_or-zero : (a : ℕ) → bit_or a 0 ≡ a
bit_or-zero a = (zero_right a a (omega arith)).1

double_shift : (q k : ℕ) → q * 2 ^ suc k ≡ 2 * (q * 2 ^ k)
double_shift q k = omega (arith, ap (λ (t : ℕ). q * t) (pow-suc 2 k))

-- A mask that is shifted up selects from the number shifted down.
bit_and_shifted :
    (k a q r x m : ℕ)
    → a ≡ q * 2 ^ k + r
    → r < 2 ^ k
    → x ≡ m * 2 ^ k
    → bit_and a x ≡ bit_and q m * 2 ^ k
bit_and_shifted zero a q r x m ea fits ex =
    let ha : a ≡ q = omega arith in let hx : x ≡ m = omega arith in rw (ha, hx) (omega arith)
bit_and_shifted (suc k) a q r x m ea fits ex = omega (
  arith,
  bit_and_digit a x,
  double_shift q k,
  double_shift m k,
  double_shift (bit_and q m) k,
  pow-suc 2 k,
  bit_and_shifted k (a / 2) q (r / 2) (x / 2) m (omega (arith, double_shift q k, ea))
      (omega (arith, pow-suc 2 k, fits)) (omega (arith, double_shift m k)),
)

bit_and_ones : (k a q r x : ℕ) → a ≡ q * 2 ^ k + r → r < 2 ^ k → x + 1 ≡ 2 ^ k → bit_and a x ≡ r
bit_and_ones zero a q r x ea fits ex =
    let hx : x ≡ 0 = omega arith in rw hx (omega (arith, bit_and-zero a))
bit_and_ones (suc k) a q r x ea fits ex = omega (
  arith,
  bit_and_digit a x,
  double_shift q k,
  pow-suc 2 k,
  one-le-pow k 2,
  bit_and_ones k (a / 2) q (r / 2) (x / 2) (omega (arith, double_shift q k, ea))
      (omega (arith, pow-suc 2 k, fits)) (omega (arith, pow-suc 2 k, one-le-pow k 2)),
)

-- Masking one byte of a word, in place: `d & (0xff << k)`.
pub bit_and_byte : (k a x : ℕ) → x ≡ 0xff * 2 ^ k → bit_and a x ≡ a / 2 ^ k % 256 * 2 ^ k
bit_and_byte k a x ex = omega (
  arith,
  one-le-pow k 2,
  ap (λ (t : ℕ). t * 2 ^ k)
      (bit_and_ones 8 (a / 2 ^ k) (a / 2 ^ k / 256) (a / 2 ^ k % 256) 255 (omega arith)
        (omega arith) refl),
  bit_and_shifted k a (a / 2 ^ k) (a % 2 ^ k) x 0xff (omega arith) (omega (arith, one-le-pow k 2))
      ex,
)

pub bit_or_high : (k q x r : ℕ) → x ≡ q * 2 ^ k → r < 2 ^ k → bit_or x r ≡ x + r
bit_or_high zero q x r e fits = ground (arith, bit_or-zero x)
bit_or_high (suc k) q x r e fits =
    ground (arith, bit_or_digit x r, double_shift q k, pow-suc 2 k, bit_or_high k q (x / 2) (r / 2))

-- The same with the low field first.
pub bit_or_low : (k q x r : ℕ) → x ≡ q * 2 ^ k → r < 2 ^ k → bit_or r x ≡ r + x
bit_or_low k q x r e fits = omega (arith, bit_or_swap r x, bit_or_high k q x r e fits)
