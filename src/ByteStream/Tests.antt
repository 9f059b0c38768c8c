-- ===== src/ByteStream/Tests.antt =====
-- Byte streams run on small inputs, and the theorems at inputs that meet their hypotheses.
use lite_cpplib.Base.{
  ℕ, ◌≡◌, refl, true, none, some, List, [], ◌∷◌, arith, ok, throw, undefined, access_violation,
}
use lite_cpplib.ByteOrder.{little_endian, big_endian, win}
use lite_cpplib.ByteStream.{
  ByteStream, of_size, add, add_block, get, reserve, read_block, write_block,
}
use lite_cpplib.ByteStream.Valid.{IsValid, written, unread}
use lite_cpplib.ByteStream.Queue.{IsAdded, IsRead, add_lem, get_lem, get_wraps}
use lite_cpplib.ByteStream.Integers.{uint8, uint16, int32, uint32, put}
use lite_cpplib.ByteStream.Integers.Roundtrip.{Fields, types, put_all, get_all, get_all-put_all}
use lite_cpplib.ByteStream.Integers.Wire.{windows_pc, put_wire_order}
use lite_cpplib.ByteStream.Strings.{put_string, get_string, put_stream, get_stream}
use lite_cpplib.ByteStream.Strings.Roundtrip.{get_string-put_string}
use lite_cpplib.ByteStream.Strings.Frames.{get_stream-put_stream}

-- Four bytes of room; two are written, one of them is read.
abbrev small : ByteStream
small = record {
  block = some (some 7 ∷ some 8 ∷ none ∷ none ∷ []);
  read_idx = 1;
  write_idx = 2;
  stream_size = 4;
  mallocated = true;
  byte_order = big_endian;
}

small-IsValid : IsValid small
small-IsValid = omega arith

-- All that is written is read.
abbrev spent : ByteStream
spent = record small { read_idx = 2 }

spent-IsValid : IsValid spent
spent-IsValid = omega arith

empty : ByteStream
unfolding of_size
empty = of_size win 0

empty-IsValid : IsValid empty
unfolding empty
empty-IsValid = omega arith

unread-empty : unread empty ≡ []
unfolding empty
unread-empty = refl

add_runs :
    add small (some (some 9 ∷ [])) 1
    ≡ ok (record small { block = some (some 7 ∷ some 8 ∷ some 9 ∷ none ∷ []); write_idx = 3 })
unfolding add add_block reserve read_block write_block
add_runs = refl

get_runs : get small 1 ≡ ok (some 8 ∷ [], spent)
unfolding get read_block
get_runs = refl

get_past_end : get small 2 ≡ throw access_violation
unfolding get
get_past_end = refl

abbrev letters : List ℕ
letters = 104 ∷ 105 ∷ []

add_lem_example :
    (t : ByteStream) × (add small (some (some 9 ∷ some 1 ∷ some 2 ∷ [])) 3 ≡ ok t)
    × IsAdded small (some 9 ∷ some 1 ∷ some 2 ∷ []) t
add_lem_example =
    add_lem small small-IsValid (some 9 ∷ some 1 ∷ some 2 ∷ []) 3 (omega arith) (omega arith)

get_lem_example : (t : ByteStream) × (get small 1 ≡ ok (some 8 ∷ [], t)) × IsRead small 1 t
get_lem_example = get_lem small small-IsValid 1 refl (omega arith)

get_wraps_example : get small 0xffffffff ≡ undefined
get_wraps_example = get_wraps small small-IsValid 0xffffffff refl (omega arith) (omega arith)

-- Half of the block is read, so that the areas do not overlap.
abbrev half_read : ByteStream
half_read = record small { read_idx = 2; write_idx = 3 }

abbrev fields : Fields
fields = (uint16, 0x1234) ∷ (uint8, 5) ∷ (int32, 0xffffffff) ∷ []

get_all-put_all_example :
    (t : ByteStream) × (put_all windows_pc fields spent ≡ ok t)
    × (u : ByteStream) × (get_all windows_pc (types fields) t
        ≡ ok (0x1234 ∷ 5 ∷ 0xffffffff ∷ [], u))
    × (unread u ≡ [])
get_all-put_all_example =
    get_all-put_all windows_pc fields spent spent-IsValid refl (omega arith) (omega arith)

put_wire_order_example :
    (t : ByteStream) × (put windows_pc uint16 0x1234 small ≡ ok t)
    × (written t ≡ some 7 ∷ some 8 ∷ some 0x12 ∷ some 0x34 ∷ [])
put_wire_order_example =
    put_wire_order big_endian small uint16 0x1234 small-IsValid refl (omega arith) (omega arith)

-- The text "hi" and what stands behind it.
abbrev greeting : ByteStream
greeting = record {
  block = some (some 104 ∷ some 105 ∷ some 0 ∷ some 33 ∷ []);
  read_idx = 0;
  write_idx = 4;
  stream_size = 4;
  mallocated = true;
  byte_order = little_endian;
}

get_string-put_string_example :
    (t : ByteStream) × (put_string (104 ∷ 105 ∷ 0 ∷ 33 ∷ []) spent ≡ ok t)
    × (u : ByteStream) × (get_string windows_pc t ≡ ok (letters, u))
    × (unread u ≡ [])
get_string-put_string_example =
    get_string-put_string windows_pc spent (104 ∷ 105 ∷ 0 ∷ 33 ∷ []) spent-IsValid refl
      (omega arith) (omega arith)

get_stream-put_stream_example :
    (s1 : ByteStream) × (put windows_pc uint32 2 spent ≡ ok s1)
    × (s2 : ByteStream) × (put_stream s1 small ≡ ok s2)
    × (t : ByteStream) × (bs : ByteStream) × (get_stream windows_pc s2 half_read ≡ ok (t, bs))
    × (written bs ≡ some 7 ∷ some 8 ∷ [])
    × (unread t ≡ [])
get_stream-put_stream_example =
    get_stream-put_stream windows_pc spent small half_read (some 7 ∷ some 8 ∷ none ∷ none ∷ [])
      spent-IsValid refl small-IsValid refl (omega arith) (omega arith) (omega arith)
