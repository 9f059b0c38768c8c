-- ===== src/ByteStream/Strings.antt =====
-- Strings and nested streams (tools/byte_stream.h): Add(const char*), Add(string&), the `<<` and
-- `>>` of strings and of streams, PutString and GetString. A `string` is the list of its bytes, and
-- a `char*` the memory that it leads to, `none` for NULL.
pub mod Roundtrip
pub mod Frames
use lite_cpplib.Base.{
  ℕ, zero, suc, ◌+◌, ◌-◌, ◌^◌, List, [], ◌∷◌, ◌++◌, map, Option, none, some, length, u32, ◌==◌,
  if◌then◌else◌, Outcome, ok, throw, undefined, ◌>>=◌, defined, null_ptr, strlen, c_str,
}
use lite_cpplib.ByteStream.{
  Cell, ByteStream, of_size, eof, reserve, add, get, write_block, set_write_ptr,
}
use lite_cpplib.ByteStream.Integers.{Platform, uint8, uint32, put, get_value}

-- Add(const char* append_str)
unfoldable pub add_cstr : ByteStream → Option (List ℕ) → Outcome ByteStream
add_cstr s none = ok s
add_cstr s (some m) = do
  n ← defined (strlen m)
  if n == 0 then ok s else add s (some (map some m)) (u32 n)

-- Add(string& append_str)
unfoldable pub add_string : ByteStream → List ℕ → Outcome ByteStream
add_string s str = add s (some (map some (c_str str))) (u32 (length str))

-- Add(const ByteStream& append_str)
unfoldable pub add_stream : ByteStream → ByteStream → Outcome ByteStream
add_stream s bs = add s bs.block bs.write_idx

-- operator <<(char* str)
unfoldable pub put_cstr : ByteStream → Option (List ℕ) → Outcome ByteStream
put_cstr s none = throw null_ptr
put_cstr s (some m) = do n ← defined (strlen m); add s (some (map some m)) (u32 (n + 1))

-- operator <<(unsigned char* str)
unfoldable pub put_ucstr : ByteStream → Option (List ℕ) → Outcome ByteStream
put_ucstr s none = throw null_ptr
put_ucstr s (some m) = put_cstr s (some m)

-- operator <<(string& str), PutString
unfoldable pub put_string : List ℕ → ByteStream → Outcome ByteStream
put_string str s = put_cstr s (some (c_str str))

-- operator <<(const ByteStream& bs)
unfoldable pub put_stream : ByteStream → ByteStream → Outcome ByteStream
put_stream s bs = add s bs.block (u32 bs.write_idx)

-- The text at the start of a block of memory, up to its NUL.
unfoldable pub text_of : List Cell → Option (List ℕ)
text_of [] = none
text_of (none ∷ cs) = none
text_of (some c ∷ cs) =
    let rest = text_of cs in
    if c == 0 then some [] else elim rest [ none ↦ none | some str ↦ some (c ∷ str) ]

-- The loop of GetString: the stream `bs` that collects the text, and the one that is read. A loop
-- that went on past its fuel would be undefined; `get_string` gives it a round for every byte.
unfoldable pub get_string_loop :
    Platform → ℕ → ByteStream → ByteStream → Outcome (ByteStream × ByteStream)
get_string_loop p zero bs s = undefined
get_string_loop p (suc fuel) bs s =
    let at_end : Outcome (ByteStream × ByteStream) = do bs' ← put p uint8 0 bs; ok (bs', s)
    in let next : Outcome (ByteStream × ByteStream) = do
      (c, s') ← get_value p uint8 s
      bs' ← put p uint8 c bs
      let rest = get_string_loop p fuel bs' s'
      if c == 0 then ok (bs', s') else rest
      in if eof s then at_end else next

-- GetString, operator >>(string& str)
unfoldable pub get_string : Platform → ByteStream → Outcome (List ℕ × ByteStream)
get_string p s = do
  (bs, s') ← get_string_loop p (suc (s.write_idx - s.read_idx)) (of_size p.os 0) s
  b ← defined bs.block
  str ← defined (text_of b)
  ok (str, s')

-- operator >>(ByteStream& bs), for two different streams: what is left of the first, and the second.
unfoldable pub get_stream : Platform → ByteStream → ByteStream → Outcome (ByteStream × ByteStream)
get_stream p s bs = do
  (len, s1) ← get_value p uint32 s
  let framed : Outcome (ByteStream × ByteStream) = do
    r ← reserve bs len
    (xs, s2) ← get s1 len
    b ← defined r.block
    b' ← write_block b 0 xs
    ok (s2, set_write_ptr len (record r { block = some b' }))
  if len == 0 then ok (s1, bs) else framed
