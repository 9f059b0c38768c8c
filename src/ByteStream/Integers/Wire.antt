-- ===== src/ByteStream/Integers/Wire.antt =====
-- The bytes that an integer becomes on the wire.
use lite_cpplib.Base.{
  ℕ, ◌^◌, ◌≤◌, ◌<◌, ◌+◌, ◌≡◌, refl, ap, ◌∙◌, List, ◌++◌, map, none, some, Option, ok,
}
use lite_cpplib.ByteOrder.{
  ByteOrder, little_endian, big_endian, win, linux, Width, w16, w32, w64, hton_uint16, hton_uint32,
  hton_uint64, word_bytes,
}
use lite_cpplib.ByteOrder.Network.{hton_network_order}
use lite_cpplib.ByteStream.{Cell, ByteStream}
use lite_cpplib.ByteStream.Valid.{IsValid, written, max_written}
use lite_cpplib.ByteStream.Integers.{
  Platform, IntType, width, bytes_of, sizeof, convert_out, write_byteorder, int_cells, put,
}
use lite_cpplib.ByteStream.Integers.Roundtrip.{put_lem}

abbrev pub windows_pc : Platform
windows_pc = record { os = win; machine = little_endian }

abbrev pub linux_on : ByteOrder → Platform
linux_on m = record { os = linux; machine = m }

converted_bytes :
    (o : Option Width) (v : ℕ)
    → v < 256 ^ bytes_of o
    → word_bytes little_endian (bytes_of o) (convert_out win o v)
      ≡ word_bytes big_endian (bytes_of o) v
converted_bytes none v h = refl
converted_bytes (some w) v h = hton_network_order w v h

-- On a Windows PC an integer that fits its type is appended to a valid stream in network order
-- with its highest byte first, and to one in host order with its lowest byte first, if the stream
-- does not grow past `max_written`.
pub put_wire_order :
    (order : ByteOrder) (s : ByteStream) (ty : IntType) (v : ℕ)
    → IsValid s
    → s.byte_order ≡ order
    → v < 256 ^ sizeof ty
    → s.write_idx + sizeof ty ≤ max_written
    → (t : ByteStream) × (put windows_pc ty v s ≡ ok t)
      × (written t ≡ written s ++ map some (word_bytes order (sizeof ty) v))
put_wire_order order s ty v valid same fits small =
    let (t, eq, added) = put_lem windows_pc s ty v valid small in
    (
      t,
      eq,
      added.appended
          ∙ ap (λ (o : ByteOrder). written s ++ int_cells windows_pc o ty v) same
          ∙ ap (λ (xs : List Cell). written s ++ xs) (wire order),
    )
  where
    wire : (o : ByteOrder) → int_cells windows_pc o ty v ≡ map some (word_bytes o (sizeof ty) v)
    wire little_endian = unfold int_cells write_byteorder in refl
    wire big_endian =
        unfold int_cells write_byteorder in ap (map some) (converted_bytes (width ty) v fits)

linux_identity : (o : Option Width) (v : ℕ) → convert_out linux o v ≡ v
unfolding hton_uint16 hton_uint32 hton_uint64
linux_identity none v = refl
linux_identity (some w16) v = refl
linux_identity (some w32) v = refl
linux_identity (some w64) v = refl

-- Built for Linux the byte order of a valid stream has no effect: an integer is appended as it
-- lies in the memory of the machine, if the stream does not grow past `max_written`.
pub put_linux_memory_order :
    (m : ByteOrder) (s : ByteStream) (ty : IntType) (v : ℕ)
    → IsValid s
    → s.write_idx + sizeof ty ≤ max_written
    → (t : ByteStream) × (put (linux_on m) ty v s ≡ ok t)
      × (written t ≡ written s ++ map some (word_bytes m (sizeof ty) v))
put_linux_memory_order m s ty v valid small =
    let (t, eq, added) = put_lem (linux_on m) s ty v valid small in
    (t, eq, added.appended ∙ ap (λ (xs : List Cell). written s ++ xs) (plain s.byte_order))
  where
    plain : (o : ByteOrder) → int_cells (linux_on m) o ty v ≡ map some (word_bytes m (sizeof ty) v)
    plain little_endian = unfold int_cells write_byteorder in refl
    plain big_endian =
        unfold int_cells write_byteorder in
        ap (λ (u : ℕ). map some (word_bytes m (sizeof ty) u)) (linux_identity (width ty) v)
