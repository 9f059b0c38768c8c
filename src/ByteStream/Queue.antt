-- ===== src/ByteStream/Queue.antt =====
-- `Add` and `Get` as a queue of bytes: what is added comes out in the same order, and every way in
-- which the two can fail.
use lite_cpplib.Base.{
  ℕ, ◌+◌, ◌^◌, ◌≤◌, ◌<◌, ◌≡◌, refl, sym, ap, ◌∙◌, inl, inr, ◌⊎◌, Option-cases, true, false, Option,
  none, some, List, [], ◌++◌, length, take, drop, arith, u32, length-take, take-take, drop-drop,
  take-drop, ok, throw, undefined, ◌>>=◌, ◌==◌, ltb, lt→ltb, ge→ltb, length-append, drop-append_le,
  Bool-cases, access_violation,
}
use mathlib.Core.List.{append-nil, append_assoc}
use lite_cpplib.ByteStream.{Cell, ByteStream, is_null, read_block, write_block, add_block, add, get}
use lite_cpplib.ByteStream.Blocks.{
  splice, length-splice, take-splice, read_block_lem, read_block_outside, write_block_lem,
}
use lite_cpplib.ByteStream.Valid.{
  cells, max_written, IsValid, written, unread, length-written, IsReserved, reserve_lem, small_size,
}

-- `t` is `s` with `xs` added at its end.
pub record IsAdded (s : ByteStream) (xs : List Cell) (t : ByteStream) : Type 0 where
  pub valid : IsValid t
  pub appended : written t ≡ written s ++ xs
  pub same_read : t.read_idx ≡ s.read_idx
  pub same_order : t.byte_order ≡ s.byte_order
  pub new_write : t.write_idx ≡ s.write_idx + length xs
  pub held : (is_null t.block ≡ false) ⊎ ((is_null s.block ≡ true) × (length xs ≡ 0))

-- A stream that had a block, or was added to, has one.
pub not_null :
    {s t : ByteStream} {xs : List Cell}
    → IsAdded s xs t
    → (is_null s.block ≡ false) ⊎ (0 < length xs)
    → is_null t.block ≡ false
not_null a (inl e) = elim a.held [ inl h ↦ h | inr h ↦ cc (h.0, e) ]
not_null a (inr pos) = elim a.held [ inl h ↦ h | inr h ↦ absurd (omega (arith, h.1, pos)) ]

module _ (s : ByteStream) (v : IsValid s) where
  pub IsAdded-nothing : IsAdded s [] s
  IsAdded-nothing = record {
    valid = v;
    appended = sym (append-nil (written s));
    same_read = refl;
    same_order = refl;
    new_write = omega arith;
    held = elim (Bool-cases (is_null s.block)) [ inl e ↦ inr (e, refl) | inr e ↦ inl e ];
  }

  -- The stream after the copy of `xs` behind what was written.
  module _ {n : ℕ} {r : ByteStream} (res : IsReserved s n r) (xs : List Cell) (w : ℕ)
      (end : w ≡ s.write_idx + length xs) (fits : w ≤ n) where
    inside : r.write_idx + length xs ≤ length res.block
    inside = omega (arith, res)

    after : ByteStream
    after = record r { block = some (splice res.block r.write_idx xs); write_idx = w }

    after-IsAdded : IsAdded s xs after
    unfolding after
    after-IsAdded = record {
      valid = record {
        sized = length-splice res.block r.write_idx xs inside ∙ res.sized;
        filled = omega (arith, res);
        ordered = omega (arith, res, v);
        bounded = res.bounded;
      };
      appended =
          take-splice res.block r.write_idx xs w (omega (arith, res)) (omega (arith, inside))
          ∙ ap (λ (k : ℕ). take k res.block ++ xs) res.same_write
          ∙ ap (λ (ys : List Cell). ys ++ xs) res.kept;
      same_read = res.same_read;
      same_order = res.same_order;
      new_write = end;
      held = inl refl;
    }

  pub add_block_lem :
      (source : List Cell) (size : ℕ)
      → size ≤ length source
      → s.write_idx + size ≤ max_written
      → (t : ByteStream) × (add_block s source size ≡ ok t) × IsAdded s (take size source) t
  unfolding add_block after
  add_block_lem source size enough small =
      let n_eq : u32 (s.write_idx + size) ≡ s.write_idx + size = omega arith in
      let (r, eq, res) = reserve_lem s v (s.write_idx + size) small in
      let length_xs : length (take size source) ≡ size = omega (arith, length-take size source) in
      let w_eq : u32 (r.write_idx + size) ≡ s.write_idx + size = omega (arith, res) in
      let read : read_block source 0 size ≡ ok (take size source) =
        read_block_lem source 0 size (omega arith) in
      let write : write_block res.block r.write_idx (take size source)
          ≡ ok (splice res.block r.write_idx (take size source)) =
        write_block_lem res.block r.write_idx (take size source) (omega (arith, res, length_xs)) in
      (
        after res (take size source) (s.write_idx + size) (omega (arith, length_xs)) (omega arith),
        rw (n_eq, eq, res.has_block, read, write, w_eq),
        after-IsAdded res (take size source) (s.write_idx + size) (omega (arith, length_xs))
            (omega arith),
      )

  -- Add of data of at least `size` bytes to a valid stream that does not grow past `max_written`
  -- appends the first `size` bytes of the data, keeps the stream valid, and changes neither the
  -- read position nor the byte order.
  pub add_lem :
      (source : List Cell) (size : ℕ)
      → size ≤ length source
      → s.write_idx + size ≤ max_written
      → (t : ByteStream) × (add s (some source) size ≡ ok t) × IsAdded s (take size source) t
  unfolding add
  add_lem source size enough small = elim (Bool-cases (size == 0)) [
    | inl e ↦ (s, rw e, let z : size ≡ 0 = ground arith in rw z IsAdded-nothing)
    | inr e ↦ rw e (add_block_lem source size enough small)
  ]

pub IsAdded-trans :
    (s t u : ByteStream) (xs ys : List Cell)
    → IsAdded s xs t
    → IsAdded t ys u
    → IsAdded s (xs ++ ys) u
IsAdded-trans s t u xs ys p q = record {
  valid = q.valid;
  appended =
      q.appended ∙ ap (λ (zs : List Cell). zs ++ ys) p.appended ∙ append_assoc (written s) xs ys;
  same_read = q.same_read ∙ p.same_read;
  same_order = q.same_order ∙ p.same_order;
  new_write = omega (arith, p, q, length-append xs ys);
  held = elim q.held [
    | inl h ↦ inl h
    | inr (t_null, no_ys) ↦ elim p.held [
      | inl h ↦ cc (t_null, h)
      | inr (s_null, no_xs) ↦ inr (s_null, omega (arith, no_xs, no_ys, length-append xs ys))
    ]
  ];
}

-- What is added is unread, behind what was unread before.
pub IsAdded-unread :
    (s t : ByteStream) (xs : List Cell) → IsValid s → IsAdded s xs t → unread t ≡ unread s ++ xs
IsAdded-unread s t xs v a =
    ap (λ (k : ℕ). drop k (written t)) a.same_read
    ∙ ap (drop s.read_idx) a.appended
    ∙ drop-append_le s.read_idx (written s) xs (omega (arith, v, length-written s v))

-- `t` is `s` with `n` more bytes read.
pub record IsRead (s : ByteStream) (n : ℕ) (t : ByteStream) : Type 0 where
  pub valid : IsValid t
  pub same_written : written t ≡ written s
  pub rest : unread t ≡ drop n (unread s)
  pub new_read : t.read_idx ≡ s.read_idx + n
  pub same_write : t.write_idx ≡ s.write_idx
  pub same_order : t.byte_order ≡ s.byte_order
  pub same_size : t.stream_size ≡ s.stream_size
  pub same_mallocated : t.mallocated ≡ s.mallocated
  pub same_block : t.block ≡ s.block

module _ (s : ByteStream) (v : IsValid s) where
  take-unread :
      (n : ℕ)
      → s.read_idx + n ≤ s.write_idx
      → take n (unread s) ≡ take n (drop s.read_idx (cells s.block))
  take-unread n h =
      take-drop n s.read_idx (s.read_idx + n) (written s) refl
      ∙ ap (drop s.read_idx) (take-take (s.read_idx + n) s.write_idx (cells s.block) h)
      ∙ sym (take-drop n s.read_idx (s.read_idx + n) (cells s.block) refl)

  get_passes :
      (n : ℕ) (b : List Cell)
      → s.block ≡ some b
      → ltb s.write_idx (u32 (n + s.read_idx)) ≡ false
      → get s n ≡ (
          read_block b s.read_idx n >>= λ xs. ok (xs, record s { read_idx = u32 (s.read_idx + n) }))
  unfolding get
  get_passes n b e passes = ground arith

  -- Get on a valid stream that has a block and `n` unread bytes hands over the next `n` bytes
  -- that were added and not yet read, moves the read position by `n`, and changes nothing else:
  -- not the block, its size and whether it is allocated, the write position or the byte order.
  pub get_lem :
      (n : ℕ)
      → is_null s.block ≡ false
      → s.read_idx + n ≤ s.write_idx
      → (t : ByteStream) × (get s n ≡ ok (take n (unread s), t)) × IsRead s n t
  unfolding get
  get_lem n held enough = elim (Option-cases s.block) [
    | inl e ↦ absurd (cc (ap (λ (o : Option (List Cell)). is_null o) e))
    | inr (b, e) ↦
        let low : u32 (n + s.read_idx) ≡ s.read_idx + n = omega (arith, v, small_size s v) in
        let low' : u32 (s.read_idx + n) ≡ s.read_idx + n = omega (arith, v, small_size s v) in
        let passes : ltb s.write_idx (s.read_idx + n) ≡ false = ge→ltb _ _ enough in
        let sized : length b ≡ s.stream_size = rw e at v.sized in
        let read : read_block b s.read_idx n ≡ ok (take n (drop s.read_idx b)) =
          read_block_lem b s.read_idx n (omega (arith, v)) in
        let same : take n (unread s) ≡ take n (drop s.read_idx b) =
          take-unread n enough
          ∙ ap (λ (o : Option (List Cell)). take n (drop s.read_idx (cells o))) e in
        (
          record s { read_idx = s.read_idx + n },
          get_passes n b e (rw low passes) ∙ rw (read, low', same),
          record {
            valid = record {
              sized = v.sized;
              filled = v.filled;
              ordered = enough;
              bounded = v.bounded;
            };
            same_written = refl;
            rest = sym (drop-drop n s.read_idx (s.read_idx + n) (written s) refl);
            new_read = refl;
            same_write = refl;
            same_order = refl;
            same_size = refl;
            same_mallocated = refl;
            same_block = refl;
          },
        )
  ]

  -- Get of more bytes than a valid stream has unread throws access_violation, as long as the
  -- read position and the size add up to less than 2 ^ 32.
  pub get_short :
      (n : ℕ)
      → n + s.read_idx < 2 ^ 32
      → s.write_idx < s.read_idx + n
      → get s n ≡ throw access_violation
  unfolding get
  get_short n fits over =
      let low : u32 (n + s.read_idx) ≡ s.read_idx + n = omega arith in
      let fails : ltb s.write_idx (s.read_idx + n) ≡ true = lt→ltb _ _ over in ground arith

  -- Get of a 32-bit size that adds up with the read position of a valid stream with a block to 2
  -- ^ 32 or more is undefined: the sum wraps and passes the test, and the copy leaves the block.
  pub get_wraps :
      (n : ℕ) → is_null s.block ≡ false → n < 2 ^ 32 → 2 ^ 32 ≤ n + s.read_idx → get s n ≡ undefined
  unfolding get
  get_wraps n held fits wraps = elim (Option-cases s.block) [
    | inl e ↦ absurd (cc (ap (λ (o : Option (List Cell)). is_null o) e))
    | inr (b, e) ↦
        let passes : ltb s.write_idx (u32 (n + s.read_idx)) ≡ false =
          ge→ltb _ _ (omega (arith, v)) in
        let sized : length b ≡ s.stream_size = rw e at v.sized in
        let outside : read_block b s.read_idx n ≡ undefined =
          read_block_outside b s.read_idx n (omega (arith, sized, small_size s v)) in
        get_passes n b e passes ∙ rw outside
  ]

  pub get_null : (n : ℕ) → s.block ≡ none → get s n ≡ throw access_violation
  unfolding get
  get_null n e = ground arith
