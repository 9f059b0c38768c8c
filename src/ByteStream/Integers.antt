-- ===== src/ByteStream/Integers.antt =====
-- The integers of a byte stream (tools/byte_stream.h): Get*/Put*, `<<` and `>>`, in the host's order
-- or the network's. A signed integer is its two's complement bit pattern, which the casts to and
-- from the unsigned type of its width keep.
pub mod Roundtrip
pub mod Wire
use lite_cpplib.Base.{
  ℕ, ◌+◌, ◌^◌, ◌≤◌, ◌<◌, ◌≡◌, refl, List, [], ◌∷◌, map, Option, none, some, Outcome, ok, ◌>>=◌,
  defined, if◌then◌else◌,
}
use lite_cpplib.ByteOrder.{
  ByteOrder, same_order, Os, Width, w16, w32, w64, width_size, hton, ntoh, word_bytes, from_bytes,
  network_byteorder,
}
use lite_cpplib.ByteStream.{Cell, ByteStream, add, get}

-- The platform that the library is built for, and the order in which its machine stores a word.
pub record Platform : Type 0 where
  pub os : Os
  pub machine : ByteOrder

pub data IntType : Type 0 where
  int8 int16 int32 int64 uint8 uint16 uint32 uint64 : IntType

-- The widths that the byte-order conversions treat; a single byte is passed through.
abbrev pub width : IntType → Option Width
width int8 = none
width int16 = some w16
width int32 = some w32
width int64 = some w64
width uint8 = none
width uint16 = some w16
width uint32 = some w32
width uint64 = some w64

abbrev pub bytes_of : Option Width → ℕ
bytes_of none = 1
bytes_of (some w) = width_size w

abbrev pub sizeof : IntType → ℕ
sizeof ty = bytes_of (width ty)

-- `order == NETWORK_BYTEORDER ? converted : d`
abbrev pub if_network : Os → ByteOrder → ℕ → ℕ → ℕ
if_network os order converted d = if same_order order (network_byteorder os) then converted else d

abbrev pub convert_out : Os → Option Width → ℕ → ℕ
convert_out os none d = d
convert_out os (some w) d = hton os w d

abbrev pub convert_in : Os → Option Width → ℕ → ℕ
convert_in os none d = d
convert_in os (some w) d = ntoh os w d

-- _WriteByteorder
unfoldable pub write_byteorder : Os → ByteOrder → IntType → ℕ → ℕ
write_byteorder os order ty d = if_network os order (convert_out os (width ty) d) d

-- _ReadByteorder
unfoldable pub read_byteorder : Os → ByteOrder → IntType → ℕ → ℕ
read_byteorder os order ty d = if_network os order (convert_in os (width ty) d) d

-- What `operator <<` passes to `Add`: the bytes of the converted integer in memory.
unfoldable pub int_cells : Platform → ByteOrder → IntType → ℕ → List Cell
int_cells p order ty v =
    map some (word_bytes p.machine (sizeof ty) (write_byteorder p.os order ty v))

-- operator <<
unfoldable pub put_int : Platform → ByteStream → IntType → ℕ → Outcome ByteStream
put_int p s ty v = add s (some (int_cells p s.byte_order ty v)) (sizeof ty)

-- The bytes of initialised cells.
unfoldable pub known : List Cell → Option (List ℕ)
known [] = some []
known (none ∷ cs) = none
known (some b ∷ cs) = elim (known cs) [ none ↦ none | some bs ↦ some (b ∷ bs) ]

-- operator >>: an integer with a byte that was never written is indeterminate.
unfoldable pub get_int : Platform → ByteStream → IntType → Outcome (ℕ × ByteStream)
get_int p s ty = do
  (xs, t) ← get s (sizeof ty)
  bs ← defined (known xs)
  ok (read_byteorder p.os s.byte_order ty (from_bytes p.machine bs), t)

-- PutInt8 to PutUint64
unfoldable pub put : Platform → IntType → ℕ → ByteStream → Outcome ByteStream
unfolding put_int
put p ty v s = put_int p s ty v

-- GetInt8 to GetUint64
unfoldable pub get_value : Platform → IntType → ByteStream → Outcome (ℕ × ByteStream)
unfolding get_int
get_value p ty s = get_int p s ty
