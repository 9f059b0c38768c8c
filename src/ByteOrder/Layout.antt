-- ===== src/ByteOrder/Layout.antt =====
-- Words and their bytes in memory: what is stored is read back, and reading is injective.
use lite_cpplib.Base.{
  ℕ, zero, suc, ◌+◌, ◌*◌, ◌/◌, ◌%◌, ◌^◌, ◌<◌, ◌≡◌, refl, ap, ap₂, ◌∙◌, List, [], ◌∷◌, length,
  length-reverse, arith,
}
use mathlib.Core.List.{reverse-reverse}
use native.Mathlib.Nat.{pow-suc}
use lite_cpplib.ByteOrder.{
  ByteOrder, little_endian, big_endian, le_bytes, from_le, word_bytes, from_bytes,
}

pub length-le_bytes : (n v : ℕ) → length (le_bytes n v) ≡ n
length-le_bytes zero v = refl
length-le_bytes (suc n) v = ap suc (length-le_bytes n (v / 256))

pub length-word_bytes : (m : ByteOrder) (n v : ℕ) → length (word_bytes m n v) ≡ n
length-word_bytes little_endian n v = length-le_bytes n v
length-word_bytes big_endian n v = length-reverse (le_bytes n v) ∙ length-le_bytes n v

pub from_le-le_bytes : (n v : ℕ) → v < 256 ^ n → from_le (le_bytes n v) ≡ v
from_le-le_bytes zero v h = omega arith
from_le-le_bytes (suc n) v h =
    omega (arith, from_le-le_bytes n (v / 256) (omega (arith, pow-suc 256 n, h)))

pub from_bytes-word_bytes :
    (m : ByteOrder) (n v : ℕ) → v < 256 ^ n → from_bytes m (word_bytes m n v) ≡ v
from_bytes-word_bytes little_endian n v h = from_le-le_bytes n v h
from_bytes-word_bytes big_endian n v h = rw reverse-reverse (from_le-le_bytes n v h)

abbrev pub AllBytes : List ℕ → Type 0
AllBytes [] = Unit {0}
AllBytes (b ∷ bs) = (b < 256) × AllBytes bs

pub le_bytes-from_le : (bs : List ℕ) → AllBytes bs → le_bytes (length bs) (from_le bs) ≡ bs
le_bytes-from_le [] h = refl
le_bytes-from_le (b ∷ bs) h =
    let low : (b + 256 * from_le bs) % 256 ≡ b = omega arith in
    let high : (b + 256 * from_le bs) / 256 ≡ from_le bs = omega arith in
    ap₂ ◌∷◌ low (ap (le_bytes (length bs)) high ∙ le_bytes-from_le bs h.1)

pub from_le-lt : (bs : List ℕ) → AllBytes bs → from_le bs < 256 ^ length bs
from_le-lt [] h = omega arith
from_le-lt (b ∷ bs) h = omega (arith, from_le-lt bs h.1, pow-suc 256 (length bs))

pub le_bytes-AllBytes : (n v : ℕ) → AllBytes (le_bytes n v)
le_bytes-AllBytes zero v = tt
le_bytes-AllBytes (suc n) v = (omega arith, le_bytes-AllBytes n (v / 256))
