-- ===== src/ByteOrder/Reverse.antt =====
-- The three reversals of base/byte_order.h reverse the bytes of a word.
use Prim.Native.Nat.{bit_and, bit_or}
use lite_cpplib.Bits.{bit_and_byte, bit_or_high, bit_or_low}
use lite_cpplib.Base.{ℕ, ◌+◌, ◌*◌, ◌/◌, ◌%◌, ◌^◌, ◌<◌, ◌≡◌, refl, ◌∙◌, [], ◌∷◌, reverse, arith}
use lite_cpplib.ByteOrder.{reverse_short, reverse_int, reverse_log, le_bytes, from_le}

join_two : (x a b : ℕ) (y : ℕ) → x ≡ a * 2 ^ 8 → y ≡ b → b < 256 → bit_or x y ≡ a * 2 ^ 8 + b
join_two x a b y ex ey fits = rw (bit_or_high 8 a x y ex (omega arith)) (omega arith)

-- Four bytes, the highest first.
join_four :
    (a b c e x y z w : ℕ)
    → x ≡ a * 2 ^ 24
    → y ≡ b * 2 ^ 16
    → z ≡ c * 2 ^ 8
    → w ≡ e
    → (a < 256) × (b < 256) × (c < 256) × (e < 256)
    → bit_or (bit_or (bit_or x y) z) w ≡ from_le (e ∷ c ∷ b ∷ a ∷ [])
join_four a b c e x y z w ex ey ez ew h = rw (bit_or_high 24 a x y ex (omega arith)) (
    rw (bit_or_high 16 (a * 256 + b) (x + y) z (omega arith) (omega arith)) (
      rw (bit_or_high 8 (a * 65536 + b * 256 + c) (x + y + z) w (omega arith) (omega arith))
        (omega arith)))

-- Eight bytes, the lowest first.
join_eight :
    (b0 b1 b2 b3 b4 b5 b6 b7 x0 x1 x2 x3 x4 x5 x6 x7 : ℕ)
    → (x0 ≡ b0)
      × (x1 ≡ b1 * 2 ^ 8)
      × (x2 ≡ b2 * 2 ^ 16)
      × (x3 ≡ b3 * 2 ^ 24)
      × (x4 ≡ b4 * 2 ^ 32)
      × (x5 ≡ b5 * 2 ^ 40)
      × (x6 ≡ b6 * 2 ^ 48)
      × (x7 ≡ b7 * 2 ^ 56)
    → (b0 < 256)
      × (b1 < 256)
      × (b2 < 256)
      × (b3 < 256)
      × (b4 < 256)
      × (b5 < 256)
      × (b6 < 256)
      × (b7 < 256)
    → bit_or (bit_or (bit_or (bit_or (bit_or (bit_or (bit_or x0 x1) x2) x3) x4) x5) x6) x7
      ≡ from_le (b0 ∷ b1 ∷ b2 ∷ b3 ∷ b4 ∷ b5 ∷ b6 ∷ b7 ∷ [])
join_eight b0 b1 b2 b3 b4 b5 b6 b7 x0 x1 x2 x3 x4 x5 x6 x7 e h =
    rw (bit_or_low 8 b1 x1 x0 e.1 (omega arith)) (
      rw (bit_or_low 16 b2 x2 (x0 + x1) e.2 (omega arith)) (
        rw (bit_or_low 24 b3 x3 (x0 + x1 + x2) e.3 (omega arith)) (
          rw (bit_or_low 32 b4 x4 (x0 + x1 + x2 + x3) e.4 (omega arith)) (
            rw (bit_or_low 40 b5 x5 (x0 + x1 + x2 + x3 + x4) e.5 (omega arith)) (
              rw (bit_or_low 48 b6 x6 (x0 + x1 + x2 + x3 + x4 + x5) e.6 (omega arith)) (
                rw (bit_or_low 56 b7 x7 (x0 + x1 + x2 + x3 + x4 + x5 + x6) e.7 (omega arith))
                  (omega arith)))))))

pub reverse_short_sum : (d : ℕ) → d < 2 ^ 16 → reverse_short d ≡ from_le (reverse (le_bytes 2 d))
unfolding reverse_short
reverse_short_sum d h =
    rw
      (join_two (bit_and d 0xff * 2 ^ 8) (d % 256) (d / 256) (bit_and d 0xff00 / 2 ^ 8 % 2 ^ 16)
        (omega (arith, bit_and_byte 0 d 0xff refl)) (omega (arith, bit_and_byte 8 d 0xff00 refl))
        (omega arith))
      (omega arith)

pub reverse_int_sum : (d : ℕ) → d < 2 ^ 32 → reverse_int d ≡ from_le (reverse (le_bytes 4 d))
unfolding reverse_int
reverse_int_sum d h =
    join_four (d % 256) (d / 256 % 256) (d / 256 / 256 % 256) (d / 256 / 256 / 256 % 256) _ _ _ _
      (omega (arith, bit_and_byte 0 d 0xff refl)) (omega (arith, bit_and_byte 8 d 0xff00 refl))
      (omega (arith, bit_and_byte 16 d 0xff0000 refl))
      (omega (arith, bit_and_byte 24 d 0xff000000 refl)) (omega arith)

bytes_by_powers :
    (d : ℕ)
    → from_le (
        (d / 2 ^ 56 % 256)
        ∷ (d / 2 ^ 48 % 256)
        ∷ (d / 2 ^ 40 % 256)
        ∷ (d / 2 ^ 32 % 256)
        ∷ (d / 2 ^ 24 % 256)
        ∷ (d / 2 ^ 16 % 256)
        ∷ (d / 2 ^ 8 % 256)
        ∷ (d % 256)
        ∷ [])
      ≡ from_le (reverse (le_bytes 8 d))
bytes_by_powers d = omega arith

pub reverse_log_sum : (d : ℕ) → d < 2 ^ 64 → reverse_log d ≡ from_le (reverse (le_bytes 8 d))
unfolding reverse_log
reverse_log_sum d h =
    join_eight (d / 2 ^ 56 % 256) (d / 2 ^ 48 % 256) (d / 2 ^ 40 % 256) (d / 2 ^ 32 % 256)
      (d / 2 ^ 24 % 256) (d / 2 ^ 16 % 256) (d / 2 ^ 8 % 256) (d % 256) _ _ _ _ _ _ _ _
      (
        omega (arith, bit_and_byte 56 d 0xff00000000000000 refl),
        omega (arith, bit_and_byte 48 d 0x00ff000000000000 refl),
        omega (arith, bit_and_byte 40 d 0x0000ff0000000000 refl),
        omega (arith, bit_and_byte 32 d 0x000000ff00000000 refl),
        omega (arith, bit_and_byte 24 d 0x00000000ff000000 refl),
        omega (arith, bit_and_byte 16 d 0x0000000000ff0000 refl),
        omega (arith, bit_and_byte 8 d 0x000000000000ff00 refl),
        omega (arith, bit_and_byte 0 d 0x00000000000000ff refl),
      )
      (omega arith)
    ∙ bytes_by_powers d
