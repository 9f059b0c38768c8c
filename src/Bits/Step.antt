-- ===== src/Bits/Step.antt =====
-- The lowest binary digit of `bit_and` and `bit_or`, from the recursion on digits that the native
-- operations stand for.
use Prim.Native.Nat.{digits, bitwise, bit_and, bit_or, bit_and-bitwise, bit_or-bitwise}
use lite_cpplib.Base.{ℕ, zero, suc, ◌+◌, ◌*◌, ◌/◌, ◌%◌, ◌≤◌, ◌<◌, min, max, ◌≡◌, refl, arith}

module _ (z : ℕ → ℕ) (f : ℕ → ℕ → ℕ) where
  agree :
      (a b fuel fuel' : ℕ)
      → a < suc fuel
      → a < suc fuel'
      → digits z f fuel a b ≡ digits z f fuel' a b
  agree zero b zero zero le le' = refl
  agree zero b (suc fuel) zero le le' = refl
  agree zero b zero (suc fuel') le le' = refl
  agree zero b (suc fuel) (suc fuel') le le' = refl
  agree (suc a) b (suc fuel) (suc fuel') le le' =
      rw (agree (suc a / 2) (b / 2) fuel fuel' (omega arith) (omega arith))
  agree (suc a) b zero fuel' le le' = absurd (omega arith)
  agree (suc a) b (suc fuel) zero le le' = absurd (omega arith)

  lowest_digit :
      (a b : ℕ)
      → bitwise z f (suc a) b ≡ bitwise z f (suc a / 2) (b / 2) * 2 + f (suc a % 2) (b % 2)
  lowest_digit a b =
      omega (arith, agree (suc a / 2) (b / 2) a (suc a / 2) (omega arith) (omega arith))

pub bit_and_digit : (a b : ℕ) → bit_and a b ≡ bit_and (a / 2) (b / 2) * 2 + min (a % 2) (b % 2)
bit_and_digit zero b = simp bit_and-bitwise (omega arith)
bit_and_digit (suc a) b = simp bit_and-bitwise (lowest_digit (λ y. 0) min a b)

pub bit_or_digit : (a b : ℕ) → bit_or a b ≡ bit_or (a / 2) (b / 2) * 2 + max (a % 2) (b % 2)
bit_or_digit zero b = simp bit_or-bitwise (omega arith)
bit_or_digit (suc a) b = simp bit_or-bitwise (lowest_digit (λ y. y) max a b)

zero-bit_or : (b : ℕ) → bit_or 0 b ≡ b
zero-bit_or b = bit_or-bitwise 0 b

swap_fuel : (n a b : ℕ) → a ≤ n → b ≤ n → bit_or a b ≡ bit_or b a
swap_fuel zero zero zero p q = refl
swap_fuel zero zero (suc b) p q = absurd (omega arith)
swap_fuel zero (suc a) b p q = absurd (omega arith)
swap_fuel (suc n) a b p q = omega (
  arith,
  bit_or_digit a b,
  bit_or_digit b a,
  swap_fuel n (a / 2) (b / 2) (omega arith) (omega arith),
)

pub bit_or_swap : (a b : ℕ) → bit_or a b ≡ bit_or b a
bit_or_swap a b = swap_fuel (a + b) a b (omega arith) (omega arith)
