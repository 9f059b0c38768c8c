-- ===== src/ByteStream/Strings/Frames.antt =====
-- `>>` of a stream into another one: a frame of a 32-bit length and so many bytes.
use lite_cpplib.Base.{
  ℕ, ◌+◌, ◌≤◌, ◌<◌, ◌≡◌, sym, ap, ap₂, ◌∙◌, List, [], ◌++◌, Option, some, length, take, drop, arith,
  u32, ok, ◌==◌, ge→ltb, length-append, length-drop, take-append, drop-append, false, inr,
}
use mathlib.Core.List.{append-nil}
use lite_cpplib.ByteStream.{Cell, ByteStream, is_null, add, get, write_block, set_write_ptr}
use lite_cpplib.ByteStream.Blocks.{splice, take-splice, write_block_lem}
use lite_cpplib.ByteStream.Valid.{
  cells, max_written, IsValid, written, unread, length-written, IsReserved, reserve_lem, small_size,
}
use lite_cpplib.ByteStream.Queue.{
  not_null, IsAdded, IsAdded-trans, IsAdded-unread, add_lem, get_lem,
}
use lite_cpplib.ByteStream.Integers.{Platform, uint32, int_cells, put}
use lite_cpplib.ByteStream.Integers.Roundtrip.{length-int_cells, put_lem, get_value_lem}
use lite_cpplib.ByteStream.Strings.{put_stream, get_stream}

module _ (s : ByteStream) (v : IsValid s) (held : is_null s.block ≡ false) where
  -- Taking `xs` off the front of what is unread.
  get_prefix :
      (n : ℕ) (xs rest : List Cell)
      → n ≡ length xs
      → unread s ≡ xs ++ rest
      → (t : ByteStream) × (get s n ≡ ok (xs, t)) × (unread t ≡ rest)
  get_prefix n xs rest len e =
      let enough : s.read_idx + n ≤ s.write_idx = omega (
        arith,
        v,
        len,
        ap length e,
        length-append xs rest,
        length-drop s.read_idx (written s),
        length-written s v,
      ) in
      let (t, eq, isread) = get_lem s v n held enough in
      (
        t,
        eq ∙ ap (λ (ys : List Cell). ok (ys, t)) (ap (take n) e ∙ take-append n xs rest len),
        isread.rest ∙ ap (drop n) e ∙ drop-append n xs rest len,
      )

-- The stream that receives the `n` bytes `xs`.
module _ (bs r : ByteStream) (n : ℕ) (xs : List Cell) (len : n ≡ length xs)
    (res : IsReserved bs n r) where
  received : ByteStream
  received = record r { block = some (splice res.block 0 xs); write_idx = n }

  received_lem : (written received ≡ xs) × (received.read_idx ≡ bs.read_idx)
  unfolding received
  received_lem = (take-splice res.block 0 xs n (omega arith) (omega arith), res.same_read)

  received_write : write_block res.block 0 xs ≡ ok (splice res.block 0 xs)
  received_write = write_block_lem res.block 0 xs (omega (arith, res))

  received_eq : set_write_ptr n (record r { block = some (splice res.block 0 xs) }) ≡ received
  unfolding set_write_ptr received
  received_eq = rw (ge→ltb r.stream_size n res.fits)

module _ (p : Platform) where
  -- Reading a frame: the receiving stream holds the bytes of the frame and nothing else, whatever
  -- it held before, its read position is where it was, and the bytes behind the frame are left.
  pub get_stream_lem :
      (s bs : ByteStream) (n : ℕ) (xs rest : List Cell)
      → IsValid s
      → is_null s.block ≡ false
      → IsValid bs
      → n ≡ length xs
      → 0 < n
      → n ≤ max_written
      → unread s ≡ int_cells p s.byte_order uint32 n ++ (xs ++ rest)
      → (t : ByteStream) × (bs' : ByteStream) × (get_stream p s bs ≡ ok (t, bs'))
        × (written bs' ≡ xs)
        × (bs'.read_idx ≡ bs.read_idx)
        × (unread t ≡ rest)
  unfolding get_stream
  get_stream_lem s bs n xs rest v held vb len pos small e =
      let (s1, eq, isread, left) = get_value_lem p s uint32 n (xs ++ rest) v held (omega arith) e in
      let (r, reserved, res) = reserve_lem bs vb n small in
      let (t, got, left') =
        get_prefix s1 isread.valid (ap is_null isread.same_block ∙ held) n xs rest len left in
      let more : (n == 0) ≡ false = ground arith in
      (
        t,
        received bs r n xs len res,
        rw (
          eq,
          more,
          reserved,
          got,
          res.has_block,
          received_write bs r n xs len res,
          received_eq bs r n xs len res,
        ),
        (received_lem bs r n xs len res).0,
        (received_lem bs r n xs len res).1,
        left',
      )

  -- PutUint32 of the length of a valid stream that is not empty, `<<` of that stream, and `>>`
  -- into a third valid stream: the third holds what was written to the second, and nothing is
  -- left to read. The first stream is valid, has nothing left to read before, and does not grow
  -- past `max_written`.
  pub get_stream-put_stream :
      (s source bs : ByteStream) (b : List Cell)
      → IsValid s
      → unread s ≡ []
      → IsValid source
      → source.block ≡ some b
      → 0 < source.write_idx
      → s.write_idx + 4 + source.write_idx ≤ max_written
      → IsValid bs
      → (s1 : ByteStream) × (put p uint32 source.write_idx s ≡ ok s1)
        × (s2 : ByteStream) × (put_stream s1 source ≡ ok s2)
        × (t : ByteStream) × (bs' : ByteStream) × (get_stream p s2 bs ≡ ok (t, bs'))
        × (written bs' ≡ written source)
        × (unread t ≡ [])
  unfolding put_stream
  get_stream-put_stream s source bs b v none_left vs e pos small vb =
      let n : ℕ = source.write_idx in
      let head : List Cell = int_cells p s.byte_order uint32 n in
      let xs : List Cell = take n b in
      let same : xs ≡ written source = ap (λ (o : Option (List Cell)). take n (cells o)) (sym e) in
      let len : n ≡ length xs = sym (ap length same ∙ length-written source vs) in
      let n_eq : u32 n ≡ n = omega (arith, vs, small_size source vs) in
      let (s1, eq1, added1) = put_lem p s uint32 n v (omega arith) in
      let enough : n ≤ length b =
        omega (arith, vs, ap (λ (o : Option (List Cell)). length (cells o)) e) in
      let (s2, eq2, added2) =
        add_lem s1 added1.valid b n enough
          (omega (arith, added1, length-int_cells p s.byte_order uint32 n)) in
      let added : IsAdded s (head ++ xs) s2 = IsAdded-trans s s1 s2 head xs added1 added2 in
      let nonempty : 0 < length (head ++ xs) = omega (arith, length-append head xs) in
      let all : unread s2 ≡ int_cells p s2.byte_order uint32 n ++ (xs ++ []) =
        IsAdded-unread s s2 (head ++ xs) v added
        ∙ ap (λ (ys : List Cell). ys ++ (head ++ xs)) none_left
        ∙ ap (λ (ys : List Cell). head ++ ys) (sym (append-nil xs))
        ∙ ap (λ o. int_cells p o uint32 n ++ (xs ++ [])) (sym added.same_order) in
      let (t, bs', got, filled, _, left) =
        get_stream_lem s2 bs n xs [] added.valid (not_null added (inr nonempty)) vb len pos
          (omega arith) all in
      (s1, eq1, s2, ap₂ (add s1) e n_eq ∙ eq2, t, bs', got, filled ∙ same, left)
