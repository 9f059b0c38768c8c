-- ===== src/ByteStream.antt =====
-- tools/byte_stream.h, class ByteStream: the buffer, its two positions and the raw operations.
-- Members that the source misspells are read as the evident ones: `uSize` is the parameter `size`,
-- `c.m_uStreamSize` is `c.stream_size_`, `wirte_idx_` is `write_idx_`.
pub mod Blocks
pub mod Valid
pub mod Queue
pub mod Pointers
pub mod Integers
pub mod Strings
mod Tests
use lite_cpplib.Base.{
  ℕ, ◌+◌, ◌-◌, ◌/◌, ◌^◌, Bool, true, false, not, ◌&&◌, ◌||◌, Option, none, some, List, [], ◌∷◌,
  ◌++◌, u32, get_elem?, length, take, drop, replicate, ltb, leb, ◌==◌, if◌then◌else◌, Outcome, ok,
  undefined, ◌>>=◌, ◌>>◌, defined, throw_if, access_violation, int_minus_one,
}
use lite_cpplib.ByteOrder.{ByteOrder, Os, host_byteorder}

-- A byte of memory; `none` is one that nothing was written to yet.
abbrev pub Cell : Type 0
Cell = Option ℕ

-- What the pointer `data_` leads to, `none` for NULL, and the other members.
pub record ByteStream : Type 0 where
  pub block : Option (List Cell)
  pub read_idx : ℕ
  pub write_idx : ℕ
  pub stream_size : ℕ
  pub mallocated : Bool
  pub byte_order : ByteOrder

abbrev pub is_null {ℓ} : {A : Type ℓ} → Option A → Bool
is_null none = true
is_null (some a) = false

-- `new uint8_t[n]`
unfoldable pub fresh : ℕ → List Cell
fresh n = replicate n none

-- The source and the target of a `memcpy`: outside the block the behaviour is undefined.
unfoldable pub read_block : List Cell → ℕ → ℕ → Outcome (List Cell)
read_block b at n = if leb (at + n) (length b) then ok (take n (drop at b)) else undefined

unfoldable pub write_block : List Cell → ℕ → List Cell → Outcome (List Cell)
write_block b at xs =
    if leb (at + length xs) (length b)
    then ok (take at b ++ (xs ++ drop (at + length xs) b))
    else undefined

-- ByteStream(uint32_t size = 0)
unfoldable pub of_size : Os → ℕ → ByteStream
of_size os size =
    if ltb 0 size
    then record {
      block = some (fresh size);
      read_idx = 0;
      write_idx = 0;
      stream_size = size;
      mallocated = true;
      byte_order = host_byteorder os;
    }
    else record {
      block = none;
      read_idx = 0;
      write_idx = 0;
      stream_size = 0;
      mallocated = false;
      byte_order = host_byteorder os;
    }

-- ByteStream(const uint8_t* data, uint32_t size)
unfoldable pub of_memory : Os → Option (List Cell) → ℕ → ByteStream
of_memory os memory size = record {
  block = memory;
  read_idx = 0;
  write_idx = size;
  stream_size = size;
  mallocated = false;
  byte_order = host_byteorder os;
}

-- _Free
unfoldable pub free : ByteStream → ByteStream
free s = record s { block = none; read_idx = 0; write_idx = 0; stream_size = 0; mallocated = false }

-- What `operator=` does once the target has been freed. `c` is the argument as it is by then.
unfoldable pub assign_from : ByteStream → ByteStream → Outcome ByteStream
assign_from s c =
    if ltb 0 c.stream_size
    then (do
      source ← defined c.block
      copied ← read_block source 0 c.write_idx
      target ← write_block (fresh c.stream_size) 0 copied
      ok (record s {
        block = some target;
        stream_size = c.stream_size;
        read_idx = c.read_idx;
        write_idx = c.write_idx;
        byte_order = c.byte_order;
        mallocated = true;
      }))
    else ok s

-- `s = c` for two different objects
unfoldable pub assign : ByteStream → ByteStream → Outcome ByteStream
assign s c = assign_from (free s) c

-- `s = s`: the argument is the object that has just been freed.
unfoldable pub assign_self : ByteStream → Outcome ByteStream
assign_self s = assign_from (free s) (free s)

-- ByteStream(const ByteStream& c)
unfoldable pub copy : Os → ByteStream → Outcome ByteStream
unfolding of_size assign
copy os c = assign (of_size os 0) c

-- Eof
unfoldable pub eof : ByteStream → Bool
eof s = s.read_idx == s.write_idx

-- SetByteOrder
unfoldable pub set_byte_order : ByteOrder → ByteStream → ByteStream
set_byte_order order s = record s { byte_order = order }

-- The size that `_Reserve` allocates for a wanted one.
unfoldable pub grown_size : ℕ → ℕ → ℕ
grown_size size wanted =
    let by_block = if ltb wanted (u32 (size + 1024)) then u32 (size + 1024) else wanted in
    if ltb by_block (u32 (size + size / 16)) then u32 (size + size / 16) else by_block

-- The rest of `_Reserve`, from the allocation on.
unfoldable pub move_to : ByteStream → ℕ → Option (List Cell) → Outcome ByteStream
move_to s n none = ok (record s { block = some (fresh n); stream_size = n; mallocated = true })
move_to s n (some old) = do
  kept ← read_block old 0 s.write_idx
  b ← write_block (fresh n) 0 kept
  ok (record s { block = some b; stream_size = n; mallocated = true })

-- _Reserve
unfoldable pub reserve : ByteStream → ℕ → Outcome ByteStream
reserve s new_size =
    if leb new_size s.stream_size && (not (is_null s.block) && s.mallocated)
    then ok s
    else move_to s (grown_size s.stream_size new_size) s.block

-- Add(const void* data, uint32_t size), past the test for NULL and 0. `source` is not a part of the
-- stream's own block.
unfoldable pub add_block : ByteStream → List Cell → ℕ → Outcome ByteStream
add_block s source size = do
  r ← reserve s (u32 (s.write_idx + size))
  b ← defined r.block
  copied ← read_block source 0 size
  b' ← write_block b r.write_idx copied
  ok (record r { block = some b'; write_idx = u32 (r.write_idx + size) })

-- Add(const void* data, uint32_t size)
unfoldable pub add : ByteStream → Option (List Cell) → ℕ → Outcome ByteStream
add s none size = ok s
add s (some source) size = if size == 0 then ok s else add_block s source size

-- Get(void* data, uint32_t read_size): the bytes that `data` receives, and the stream after.
unfoldable pub get : ByteStream → ℕ → Outcome (List Cell × ByteStream)
get s read_size = do
  throw_if (is_null s.block || ltb s.write_idx (u32 (read_size + s.read_idx))) access_violation
  b ← defined s.block
  xs ← read_block b s.read_idx read_size
  ok (xs, record s { read_idx = u32 (s.read_idx + read_size) })

-- GetBufferSize, GetBuffer, GetReadPtr and GetWritePtr
abbrev pub get_buffer_size : ByteStream → ℕ
get_buffer_size s = s.stream_size

abbrev pub get_buffer : ByteStream → Option (List Cell)
get_buffer s = s.block

abbrev pub get_read_ptr : ByteStream → ℕ
get_read_ptr s = s.read_idx

abbrev pub get_write_ptr : ByteStream → ℕ
get_write_ptr s = s.write_idx

-- SetReadPtr
unfoldable pub set_read_ptr : ℕ → ByteStream → Outcome ByteStream
set_read_ptr read_idx s = do
  throw_if (ltb s.write_idx read_idx) int_minus_one
  ok (record s { read_idx = read_idx })

-- SetWritePtr
unfoldable pub set_write_ptr : ℕ → ByteStream → ByteStream
set_write_ptr write_idx s = record s {
  write_idx = if ltb s.stream_size write_idx then s.stream_size else write_idx;
}

-- `memcpy` from `at` to the start of the same block: undefined where the two areas overlap.
unfoldable pub move_down : List Cell → ℕ → ℕ → Outcome (List Cell)
unfolding read_block write_block
move_down b at n = if leb n at then (do xs ← read_block b at n; write_block b 0 xs) else undefined

-- FlushReadPtr
unfoldable pub flush_read_ptr : ByteStream → Outcome ByteStream
unfolding set_write_ptr set_read_ptr
flush_read_ptr s = elim s.block [
  | none ↦ ok s
  | some b ↦ do
    b' ← move_down b s.read_idx (u32 (s.stream_size + 2 ^ 32 - s.read_idx))
    set_read_ptr 0
        (set_write_ptr (u32 (s.write_idx + 2 ^ 32 - s.read_idx)) (record s { block = some b' }))
]

-- operator const void*
unfoldable pub as_pointer : ByteStream → Option (List Cell)
as_pointer s = if ltb 0 s.stream_size then s.block else none

-- operator[](int idx), to read. A negative index is outside the block too.
unfoldable pub at : ByteStream → ℕ → Outcome Cell
at s idx = do b ← defined s.block; defined (get_elem? b idx)

-- operator[](int idx), to write through the reference that it returns.
unfoldable pub set_at : ByteStream → ℕ → ℕ → Outcome ByteStream
unfolding write_block
set_at s idx value = do
  b ← defined s.block
  b' ← write_block b idx (some value ∷ [])
  ok (record s { block = some b' })
