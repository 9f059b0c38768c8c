-- ===== src/ByteOrder.antt =====
-- base/byte_order.h: the byte reversals, the conversions between host and network order, and how a
-- word lies in the memory of a machine.
pub mod Reverse
pub mod Layout
pub mod Network
mod Tests
use Prim.Native.Nat.{bit_and, bit_or}
use lite_cpplib.Base.{
  ℕ, zero, suc, ◌/◌, ◌%◌, ◌*◌, ◌+◌, ◌^◌, Bool, true, false, List, [], ◌∷◌, reverse, u16, u32, u64,
  ◌<<<◌, ◌>>>◌, if◌then◌else◌,
}

-- BYTEORDER
pub data ByteOrder : Type 0 where
  little_endian big_endian : ByteOrder

-- The platforms that the header tells apart (OS_WIN and OS_LINUX of base/lite_base.h).
pub data Os : Type 0 where
  win linux : Os

-- `defined(HOST_IS_LITTLE_ENDIAN)`
abbrev pub host_is_little_endian : Os → Bool
host_is_little_endian win = true
host_is_little_endian linux = false

-- HOST_BYTEORDER
abbrev pub host_byteorder : Os → ByteOrder
host_byteorder win = little_endian
host_byteorder linux = big_endian

-- NETWORK_BYTEORDER
abbrev pub network_byteorder : Os → ByteOrder
network_byteorder os = big_endian

abbrev pub same_order : ByteOrder → ByteOrder → Bool
same_order little_endian little_endian = true
same_order big_endian big_endian = true
same_order _ _ = false

unfoldable pub reverse_short : ℕ → ℕ
reverse_short d = u16 (bit_or (bit_and d 0x00ff <<< 8) (u16 (bit_and d 0xff00 >>> 8)))

unfoldable pub reverse_int : ℕ → ℕ
reverse_int d =
    bit_or
      (bit_or (bit_or (u32 (bit_and d 0x000000ff <<< 24)) (u32 (bit_and d 0x0000ff00 <<< 8)))
        (bit_and d 0x00ff0000 >>> 8))
      (bit_and d 0xff000000 >>> 24)

unfoldable pub reverse_log : ℕ → ℕ
reverse_log d =
    bit_or
      (bit_or
        (bit_or
          (bit_or
            (bit_or
              (bit_or
                (bit_or (bit_and d 0xff00000000000000 >>> 56) (bit_and d 0x00ff000000000000 >>> 40))
                (bit_and d 0x0000ff0000000000 >>> 24))
              (bit_and d 0x000000ff00000000 >>> 8))
            (u64 (bit_and d 0x00000000ff000000 <<< 8)))
          (u64 (bit_and d 0x0000000000ff0000 <<< 24)))
        (u64 (bit_and d 0x000000000000ff00 <<< 40)))
      (u64 (bit_and d 0x00000000000000ff <<< 56))

unfoldable pub hton_uint16 : Os → ℕ → ℕ
hton_uint16 os d = if host_is_little_endian os then reverse_short d else d

unfoldable pub ntoh_uint16 : Os → ℕ → ℕ
ntoh_uint16 os d = if host_is_little_endian os then reverse_short d else d

unfoldable pub hton_uint32 : Os → ℕ → ℕ
hton_uint32 os d = if host_is_little_endian os then reverse_int d else d

unfoldable pub ntoh_uint32 : Os → ℕ → ℕ
ntoh_uint32 os d = if host_is_little_endian os then reverse_int d else d

unfoldable pub hton_uint64 : Os → ℕ → ℕ
hton_uint64 os d = if host_is_little_endian os then reverse_log d else d

unfoldable pub ntoh_uint64 : Os → ℕ → ℕ
ntoh_uint64 os d = if host_is_little_endian os then reverse_log d else d

-- The widths that are converted, for what is common to the three.
pub data Width : Type 0 where
  w16 w32 w64 : Width

abbrev pub width_size : Width → ℕ
width_size w16 = 2
width_size w32 = 4
width_size w64 = 8

abbrev pub hton : Os → Width → ℕ → ℕ
hton os w16 d = hton_uint16 os d
hton os w32 d = hton_uint32 os d
hton os w64 d = hton_uint64 os d

abbrev pub ntoh : Os → Width → ℕ → ℕ
ntoh os w16 d = ntoh_uint16 os d
ntoh os w32 d = ntoh_uint32 os d
ntoh os w64 d = ntoh_uint64 os d

-- The `n` bytes of a word, the lowest first.
abbrev pub le_bytes : ℕ → ℕ → List ℕ
le_bytes zero v = []
le_bytes (suc n) v = (v % 256) ∷ le_bytes n (v / 256)

-- The word whose bytes, the lowest first, are given.
abbrev pub from_le : List ℕ → ℕ
from_le [] = 0
from_le (b ∷ bs) = b + 256 * from_le bs

-- A word in the memory of a machine, by increasing address.
abbrev pub word_bytes : ByteOrder → ℕ → ℕ → List ℕ
word_bytes little_endian n v = le_bytes n v
word_bytes big_endian n v = reverse (le_bytes n v)

-- The word that a machine reads there.
abbrev pub from_bytes : ByteOrder → List ℕ → ℕ
from_bytes little_endian bs = from_le bs
from_bytes big_endian bs = from_le (reverse bs)
