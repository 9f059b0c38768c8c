-- ===== src/ByteStream/Valid.antt =====
-- The invariant of a byte stream, and `_Reserve`: a reservation keeps what was written.
use lite_cpplib.Base.{
  ℕ, ◌+◌, ◌^◌, ◌≤◌, ◌<◌, ◌≡◌, refl, sym, ap, ◌∙◌, ◌⊎◌, inl, inr, Bool, true, false, Option, none,
  some, List, [], length, take, drop, arith, length-take, ok, Bool-cases, Option-cases, leb→le, leb,
}
use lite_cpplib.ByteStream.{
  Cell, ByteStream, fresh, read_block, write_block, grown_size, move_to, reserve,
}
use lite_cpplib.ByteStream.Blocks.{
  splice, length-splice, take-splice, read_block_lem, write_block_lem, length-fresh,
}

-- The bytes that `data_` leads to.
abbrev pub cells : Option (List Cell) → List Cell
cells none = []
cells (some b) = b

-- How large a block may be: memory that the stream did not allocate, and its own after growing.
abbrev pub room : Bool → ℕ
room true = 2 ^ 31 + 2 ^ 29
room false = 2 ^ 31

-- The most that may be written to a stream.
abbrev pub max_written : ℕ
max_written = 2 ^ 31

pub record IsValid (s : ByteStream) : Type 0 where
  pub sized : length (cells s.block) ≡ s.stream_size
  pub filled : s.write_idx ≤ s.stream_size
  pub ordered : s.read_idx ≤ s.write_idx
  pub bounded : s.stream_size ≤ room s.mallocated

-- What was written so far, and what of it is still to be read.
abbrev pub written : ByteStream → List Cell
written s = take s.write_idx (cells s.block)

abbrev pub unread : ByteStream → List Cell
unread s = drop s.read_idx (written s)

pub length-written : (s : ByteStream) → IsValid s → length (written s) ≡ s.write_idx
length-written s v = omega (arith, v, length-take s.write_idx (cells s.block))

-- `r` is `s` with room for `n` bytes.
pub record IsReserved (s : ByteStream) (n : ℕ) (r : ByteStream) : Type 0 where
  pub block : List Cell
  pub has_block : r.block ≡ some block
  pub kept : take s.write_idx block ≡ written s
  pub sized : length block ≡ r.stream_size
  pub fits : n ≤ r.stream_size
  pub grows : s.stream_size ≤ r.stream_size
  pub bounded : r.stream_size ≤ room r.mallocated
  pub same_read : r.read_idx ≡ s.read_idx
  pub same_write : r.write_idx ≡ s.write_idx
  pub same_order : r.byte_order ≡ s.byte_order
  pub owned : r.mallocated ≡ true

module _ (size n : ℕ) (large : size ≤ 2 ^ 31 + 2 ^ 29) (small : n ≤ 2 ^ 31) where
  grown_size_ge : (n ≤ grown_size size n) × (size ≤ grown_size size n)
  unfolding grown_size
  grown_size_ge = ground arith

  grown_size_le : (size ≤ 2 ^ 31) ⊎ (size < n) → grown_size size n ≤ 2 ^ 31 + 2 ^ 29
  unfolding grown_size
  grown_size_le h = ground arith

module _ (s : ByteStream) (v : IsValid s) where
  pub length-block : (o : Option (List Cell)) → s.block ≡ o → length (cells o) ≡ s.stream_size
  length-block o e = ap (λ (p : Option (List Cell)). length (cells p)) (sym e) ∙ v.sized

  pub size-le-room : s.stream_size ≤ room true
  size-le-room = elim (Bool-cases s.mallocated) [
    | inl e ↦ omega (arith, v, ap room e)
    | inr e ↦ omega (arith, v, ap room e)
  ]

  pub small_size : s.stream_size < 2 ^ 32
  small_size = omega (arith, size-le-room)

  -- The allocation, from either form of `data_`.
  move_to_lem :
      (n m : ℕ) (o : Option (List Cell))
      → s.block ≡ o
      → n ≤ m
      → s.stream_size ≤ m
      → m ≤ room true
      → (r : ByteStream) × (move_to s m o ≡ ok r) × IsReserved s n r
  unfolding move_to
  move_to_lem n m none e le le' top = (
    record s { block = some (fresh m); stream_size = m; mallocated = true },
    refl,
    record {
      block = fresh m;
      has_block = refl;
      kept = let e0 : s.write_idx ≡ 0 = omega (arith, v, length-block none e) in rw e0;
      sized = length-fresh m;
      fits = le;
      grows = le';
      bounded = top;
      same_read = refl;
      same_write = refl;
      same_order = refl;
      owned = refl;
    },
  )
  move_to_lem n m (some old) e le le' top = (
    record s { block = some b; stream_size = m; mallocated = true },
    rw (read, write),
    record {
      block = b;
      has_block = refl;
      kept =
          take-splice (fresh m) 0 kept s.write_idx (omega (arith, length_kept)) (omega arith)
          ∙ ap (λ (p : Option (List Cell)). take s.write_idx (cells p)) (sym e);
      sized = length-splice (fresh m) 0 kept inside ∙ length-fresh m;
      fits = le;
      grows = le';
      bounded = top;
      same_read = refl;
      same_write = refl;
      same_order = refl;
      owned = refl;
    },
  )
    where
      kept : List Cell
      kept = take s.write_idx old

      b : List Cell
      b = splice (fresh m) 0 kept

      length_kept : length kept ≡ s.write_idx
      length_kept = omega (arith, v, length-block (some old) e, length-take s.write_idx old)

      inside : 0 + length kept ≤ length (fresh m)
      inside = omega (arith, v, length_kept, length-fresh m)

      read : read_block old 0 s.write_idx ≡ ok kept
      read = read_block_lem old 0 s.write_idx (omega (arith, v, length-block (some old) e))

      write : write_block (fresh m) 0 kept ≡ ok b
      write = write_block_lem (fresh m) 0 kept inside

  allocates :
      (n : ℕ)
      → n ≤ max_written
      → (s.stream_size ≤ 2 ^ 31) ⊎ (s.stream_size < n)
      → (r : ByteStream) × (move_to s (grown_size s.stream_size n) s.block ≡ ok r)
        × IsReserved s n r
  allocates n small h =
      move_to_lem n (grown_size s.stream_size n) s.block refl
        (grown_size_ge s.stream_size n size-le-room small).0
        (grown_size_ge s.stream_size n size-le-room small).1
        (grown_size_le s.stream_size n size-le-room small h)

  keeps_block :
      (n : ℕ) (b : List Cell)
      → s.block ≡ some b
      → n ≤ s.stream_size
      → s.mallocated ≡ true
      → IsReserved s n s
  keeps_block n b e le own = record {
    block = b;
    has_block = e;
    kept = ap (λ (p : Option (List Cell)). take s.write_idx (cells p)) (sym e);
    sized = length-block (some b) e;
    fits = le;
    grows = omega arith;
    bounded = v.bounded;
    same_read = refl;
    same_write = refl;
    same_order = refl;
    owned = own;
  }

  -- `_Reserve` succeeds, makes room for `n` bytes and keeps what was written.
  pub reserve_lem :
      (n : ℕ) → n ≤ max_written → (r : ByteStream) × (reserve s n ≡ ok r) × IsReserved s n r
  unfolding reserve
  reserve_lem n small = elim (Option-cases s.block) [
    | inl e ↦
        let size0 : s.stream_size ≡ 0 = omega (arith, length-block none e) in
        let (r, eq, res) = allocates n small (inl (omega arith)) in (r, ground arith, res)
    | inr (b, e) ↦ elim (Bool-cases (leb n s.stream_size)) [
      | inr big ↦
          let (r, eq, res) = allocates n small (inr (ground arith)) in (r, ground arith, res)
      | inl fit ↦ elim (Bool-cases s.mallocated) [
        | inl own ↦ (s, ground arith, keeps_block n b e (leb→le n s.stream_size fit) own)
        | inr ext ↦
            let (r, eq, res) = allocates n small (inl (omega (arith, v, ap room ext))) in
            (r, ground arith, res)
      ]
    ]
  ]
