-- ===== src/ByteStream/Pointers.antt =====
-- The positions, `FlushReadPtr` and the copies of a byte stream, and where `Add` leaves its block.
use lite_cpplib.Base.{
  ℕ, ◌+◌, ◌-◌, ◌*◌, ◌^◌, ◌≤◌, ◌<◌, ◌≡◌, refl, sym, ap, ◌∙◌, true, Option, none, some, List, length,
  take, drop, arith, u32, length-take, length-drop, take-drop, take-take, take-append_le, ok, throw,
  undefined, int_minus_one,
}
use lite_cpplib.ByteStream.{
  Cell, ByteStream, fresh, read_block, write_block, reserve, add_block, add, set_read_ptr,
  set_write_ptr, move_down, flush_read_ptr, free, assign_from, assign, assign_self,
}
use lite_cpplib.ByteStream.Blocks.{
  splice, length-splice, take-splice, read_block_lem, write_block_lem, write_block_outside,
  length-fresh,
}
use lite_cpplib.ByteStream.Valid.{
  cells, IsValid, written, unread, small_size, size-le-room, length-block,
}

-- SetReadPtr moves within what was written, and throws beyond it.
pub set_read_ptr_cases :
    (k : ℕ) (s : ByteStream)
    → (k ≤ s.write_idx → set_read_ptr k s ≡ ok (record s { read_idx = k }))
      × (s.write_idx < k → set_read_ptr k s ≡ throw int_minus_one)
unfolding set_read_ptr
set_read_ptr_cases k s = (λ h. ground arith, λ h. ground arith)

pub set_write_ptr-le :
    (k : ℕ) (s : ByteStream)
    → ((set_write_ptr k s).write_idx ≤ s.stream_size) × ((set_write_ptr k s).write_idx ≤ k)
unfolding set_write_ptr
set_write_ptr-le k s = ground arith

-- SetWritePtr keeps the stream valid unless it moves below the read position.
pub set_write_ptr-IsValid :
    (k : ℕ) (s : ByteStream) → IsValid s → s.read_idx ≤ k → IsValid (set_write_ptr k s)
unfolding set_write_ptr
set_write_ptr-IsValid k s v h = ground arith

module _ (s : ByteStream) (v : IsValid s) (b : List Cell) (e : s.block ≡ some b) where
  held : length b ≡ s.stream_size
  held = length-block s v (some b) e

  left : ℕ
  left = u32 (s.stream_size + 2 ^ 32 - s.read_idx)

  left_eq : left ≡ s.stream_size - s.read_idx
  unfolding left
  left_eq = omega (arith, v, small_size s v)

  moved : List Cell
  moved = splice b 0 (take (s.stream_size - s.read_idx) (drop s.read_idx b))

  flushed : ByteStream
  unfolding moved
  flushed = record s { block = some moved; read_idx = 0; write_idx = s.write_idx - s.read_idx }

  length-piece :
      length (take (s.stream_size - s.read_idx) (drop s.read_idx b)) ≡ s.stream_size - s.read_idx
  length-piece = omega (
    arith,
    v,
    held,
    length-take (s.stream_size - s.read_idx) (drop s.read_idx b),
    length-drop s.read_idx b,
  )

  flush_eq : s.stream_size ≤ 2 * s.read_idx → flush_read_ptr s ≡ ok flushed
  unfolding flush_read_ptr move_down read_block write_block set_write_ptr set_read_ptr left flushed
      moved
  flush_eq h = ground (arith, v, held, small_size s v, length-piece)

  flushed-unread : written flushed ≡ unread s
  unfolding flushed
  flushed-unread =
      take-append_le (s.write_idx - s.read_idx) piece _ (omega (arith, v, length-piece))
      ∙ take-take (s.write_idx - s.read_idx) (s.stream_size - s.read_idx) (drop s.read_idx b)
          (omega (arith, v))
      ∙ take-drop (s.write_idx - s.read_idx) s.read_idx s.write_idx b (omega (arith, v))
      ∙ ap (λ (o : Option (List Cell)). drop s.read_idx (take s.write_idx (cells o))) (sym e)
    where
      piece : List Cell
      piece = take (s.stream_size - s.read_idx) (drop s.read_idx b)

  flushed-IsValid : IsValid flushed
  unfolding flushed moved
  flushed-IsValid = record {
    sized =
        length-splice b 0 (take (s.stream_size - s.read_idx) (drop s.read_idx b))
          (omega (arith, v, held, length-piece))
        ∙ held;
    filled = omega (arith, v);
    ordered = omega arith;
    bounded = v.bounded;
  }

  -- FlushReadPtr of a valid stream with a block, at least half of which is read, returns a valid
  -- stream with read position 0 and the same unread bytes.
  pub flush_lem :
      s.stream_size ≤ 2 * s.read_idx
      → (t : ByteStream) × (flush_read_ptr s ≡ ok t)
        × IsValid t
        × (t.read_idx ≡ 0)
        × (unread t ≡ unread s)
  unfolding flushed
  flush_lem h = (flushed, flush_eq h, flushed-IsValid, refl, flushed-unread)

  -- FlushReadPtr of a valid stream with a block, less than half of which is read, is undefined:
  -- memcpy is called on overlapping areas.
  pub flush_overlaps : 2 * s.read_idx < s.stream_size → flush_read_ptr s ≡ undefined
  unfolding flush_read_ptr move_down
  flush_overlaps h = ground (arith, v, small_size s v)

  -- Add of a 32-bit size to a valid stream with a block of its own, whose write position and the
  -- size add up to 2 ^ 32 or more, is undefined: too little is reserved, and the copy leaves the
  -- block.
  pub add_wraps :
      (source : List Cell) (size : ℕ)
      → s.mallocated ≡ true
      → size ≤ length source
      → size < 2 ^ 32
      → 2 ^ 32 ≤ s.write_idx + size
      → add s (some source) size ≡ undefined
  unfolding add add_block reserve
  add_wraps source size own enough fits wraps =
      let reads : read_block source 0 size ≡ ok (take size source) =
        read_block_lem source 0 size (omega arith) in
      let writes : write_block b s.write_idx (take size source) ≡ undefined =
        write_block_outside b s.write_idx (take size source)
          (omega (arith, held, small_size s v, length-take size source)) in
      ground (arith, v)

module _ (s c : ByteStream) (v : IsValid c) (b : List Cell) (e : c.block ≡ some b) where
  copied : List Cell
  copied = splice (fresh c.stream_size) 0 (take c.write_idx b)

  length-copied : length (take c.write_idx b) ≡ c.write_idx
  length-copied = omega (arith, v, length-block c v (some b) e, length-take c.write_idx b)

  assigned : ByteStream
  unfolding copied
  assigned = record c { block = some copied; mallocated = true }

  assign_eq : 0 < c.stream_size → assign s c ≡ ok assigned
  unfolding assign assign_from free assigned copied
  assign_eq h =
      let reads : read_block b 0 c.write_idx ≡ ok (take c.write_idx b) =
        read_block_lem b 0 c.write_idx (omega (arith, v, length-block c v (some b) e)) in
      let writes : write_block (fresh c.stream_size) 0 (take c.write_idx b)
          ≡ ok (splice (fresh c.stream_size) 0 (take c.write_idx b)) =
        write_block_lem (fresh c.stream_size) 0 (take c.write_idx b)
          (omega (arith, v, length-copied, length-fresh c.stream_size)) in
      ground arith

  assigned-IsValid : IsValid assigned
  unfolding assigned copied
  assigned-IsValid = record {
    sized =
        length-splice (fresh c.stream_size) 0 (take c.write_idx b)
          (omega (arith, v, length-copied, length-fresh c.stream_size))
        ∙ length-fresh c.stream_size;
    filled = v.filled;
    ordered = v.ordered;
    bounded = size-le-room c v;
  }

  assigned-written : written assigned ≡ written c
  unfolding assigned copied
  assigned-written =
      take-splice (fresh c.stream_size) 0 (take c.write_idx b) c.write_idx
        (omega (arith, length-copied)) (omega arith)
      ∙ ap (λ (o : Option (List Cell)). take c.write_idx (cells o)) (sym e)

  -- `s = c` for two different valid streams, `c` with a block that is not empty: `s` has a block
  -- of its own with what was written to `c`, and the positions and the byte order of `c`.
  pub assign_lem :
      0 < c.stream_size
      → (t : ByteStream) × (assign s c ≡ ok t)
        × IsValid t
        × (written t ≡ written c)
        × (t.mallocated ≡ true)
        × (t.read_idx ≡ c.read_idx)
        × (t.write_idx ≡ c.write_idx)
        × (t.byte_order ≡ c.byte_order)
  unfolding assigned
  assign_lem h = (assigned, assign_eq h, assigned-IsValid, assigned-written, refl, refl, refl, refl)

-- `s = s` frees the block before the argument is looked at: the stream has no block after it, and
-- nothing that was written.
pub assign_self_empties :
    (s : ByteStream)
    → (t : ByteStream) × (assign_self s ≡ ok t)
      × (t.block ≡ none)
      × (t.write_idx ≡ 0)
      × (t.byte_order ≡ s.byte_order)
unfolding assign_self assign_from free
assign_self_empties s = (free s, refl, refl, refl, refl)
