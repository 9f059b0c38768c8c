-- ===== src/ByteStream/Integers/Roundtrip.antt =====
-- Integers that are put come out again, one by one and as a sequence of fields.
use lite_cpplib.Base.{
  ℕ, ◌+◌, ◌^◌, ◌≤◌, ◌<◌, ◌≡◌, refl, sym, ap, ◌∙◌, List, [], ◌∷◌, ◌++◌, map, Option, none, some,
  Outcome, ok, ◌>>=◌, length, take, drop, take-append, drop-append, take_all, length-map,
  length-append, length-drop, arith, false, inl, inr, Bool-cases,
}
use mathlib.Core.List.{append-nil, append_assoc}
use lite_cpplib.ByteOrder.{
  ByteOrder, same_order, network_byteorder, Os, Width, w16, w32, w64, word_bytes, from_bytes,
}
use lite_cpplib.ByteOrder.Layout.{length-word_bytes, from_bytes-word_bytes}
use lite_cpplib.ByteOrder.Network.{ntoh-hton, hton-lt}
use lite_cpplib.ByteStream.{Cell, ByteStream, is_null}
use lite_cpplib.ByteStream.Valid.{max_written, IsValid, written, unread, length-written}
use lite_cpplib.ByteStream.Queue.{
  not_null, IsAdded, IsAdded-trans, IsAdded-unread, IsAdded-nothing, add_lem, IsRead, get_lem,
}
use lite_cpplib.ByteStream.Integers.{
  Platform, IntType, width, bytes_of, sizeof, convert_out, convert_in, write_byteorder,
  read_byteorder, int_cells, put_int, known, get_int, put, get_value,
}

bytes_of_pos : (o : Option Width) → 0 < bytes_of o
bytes_of_pos none = omega arith
bytes_of_pos (some w16) = omega arith
bytes_of_pos (some w32) = omega arith
bytes_of_pos (some w64) = omega arith

convert_out-lt :
    (os : Os) (o : Option Width) (v : ℕ)
    → v < 256 ^ bytes_of o
    → convert_out os o v < 256 ^ bytes_of o
convert_out-lt os none v h = h
convert_out-lt os (some w) v h = hton-lt os w v h

convert_in-out :
    (os : Os) (o : Option Width) (v : ℕ)
    → v < 256 ^ bytes_of o
    → convert_in os o (convert_out os o v) ≡ v
convert_in-out os none v h = refl
convert_in-out os (some w) v h = ntoh-hton os w v h

module _ (os : Os) (order : ByteOrder) (ty : IntType) (v : ℕ) (fits : v < 256 ^ sizeof ty) where
  write_byteorder-lt : write_byteorder os order ty v < 256 ^ sizeof ty
  unfolding write_byteorder
  write_byteorder-lt = elim (Bool-cases (same_order order (network_byteorder os))) [
    | inl e ↦ rw e (convert_out-lt os (width ty) v fits)
    | inr e ↦ rw e fits
  ]

  read-write_byteorder : read_byteorder os order ty (write_byteorder os order ty v) ≡ v
  unfolding write_byteorder read_byteorder
  read-write_byteorder = elim (Bool-cases (same_order order (network_byteorder os))) [
    | inl e ↦ rw e (convert_in-out os (width ty) v fits)
    | inr e ↦ rw e refl
  ]

pub known-map : (bs : List ℕ) → known (map some bs) ≡ some bs
unfolding known
known-map [] = refl
known-map (b ∷ bs) = rw (known-map bs)

module _ (p : Platform) where
  pub length-int_cells :
      (order : ByteOrder) (ty : IntType) (v : ℕ) → length (int_cells p order ty v) ≡ sizeof ty
  unfolding int_cells
  length-int_cells order ty v =
      length-map (word_bytes p.machine (sizeof ty) (write_byteorder p.os order ty v)) some
      ∙ length-word_bytes p.machine (sizeof ty) (write_byteorder p.os order ty v)

  pub put_lem :
      (s : ByteStream) (ty : IntType) (v : ℕ)
      → IsValid s
      → s.write_idx + sizeof ty ≤ max_written
      → (t : ByteStream) × (put p ty v s ≡ ok t) × IsAdded s (int_cells p s.byte_order ty v) t
  unfolding put put_int
  put_lem s ty v valid small =
      let xs : List Cell = int_cells p s.byte_order ty v in
      let n : length xs ≡ sizeof ty = length-int_cells s.byte_order ty v in
      let (t, eq, added) = add_lem s valid xs (sizeof ty) (omega (arith, n)) small in
      (t, eq, rw (take_all (sizeof ty) xs (omega (arith, n))) at added)

  module _ (order : ByteOrder) (ty : IntType) (v : ℕ) where
    abbrev stored : List ℕ
    stored = word_bytes p.machine (sizeof ty) (write_byteorder p.os order ty v)

    known-int_cells : known (int_cells p order ty v) ≡ some stored
    unfolding int_cells
    known-int_cells = known-map stored

    decoded : v < 256 ^ sizeof ty → read_byteorder p.os order ty (from_bytes p.machine stored) ≡ v
    decoded fits =
        ap (read_byteorder p.os order ty) (
          from_bytes-word_bytes p.machine (sizeof ty) (write_byteorder p.os order ty v)
            (write_byteorder-lt p.os order ty v fits))
        ∙ read-write_byteorder p.os order ty v fits

  pub get_value_lem :
      (s : ByteStream) (ty : IntType) (v : ℕ) (rest : List Cell)
      → IsValid s
      → is_null s.block ≡ false
      → v < 256 ^ sizeof ty
      → unread s ≡ int_cells p s.byte_order ty v ++ rest
      → (t : ByteStream) × (get_value p ty s ≡ ok (v, t))
        × IsRead s (sizeof ty) t
        × (unread t ≡ rest)
  unfolding get_value get_int
  get_value_lem s ty v rest valid held fits e =
      let xs : List Cell = int_cells p s.byte_order ty v in
      let n : length xs ≡ sizeof ty = length-int_cells s.byte_order ty v in
      let enough : s.read_idx + sizeof ty ≤ s.write_idx = omega (
        arith,
        valid,
        n,
        ap length e,
        length-append xs rest,
        length-drop s.read_idx (written s),
        length-written s valid,
      ) in
      let (t, eq, isread) = get_lem s valid (sizeof ty) held enough in
      let taken : take (sizeof ty) (unread s) ≡ xs =
        ap (take (sizeof ty)) e ∙ take-append (sizeof ty) xs rest (omega (arith, n)) in
      let left : unread t ≡ rest =
        isread.rest
        ∙ ap (drop (sizeof ty)) e
        ∙ drop-append (sizeof ty) xs rest (omega (arith, n)) in
      (
        t,
        rw (eq, taken, known-int_cells s.byte_order ty v, decoded s.byte_order ty v fits),
        isread,
        left,
      )

-- A record of integers, field by field.
abbrev pub Fields : Type 0
Fields = List (IntType × ℕ)

abbrev pub AllFit : Fields → Type 0
AllFit [] = Unit {0}
AllFit ((ty, v) ∷ fs) = (v < 256 ^ sizeof ty) × AllFit fs

abbrev pub total_size : Fields → ℕ
total_size [] = 0
total_size ((ty, v) ∷ fs) = sizeof ty + total_size fs

abbrev pub types : Fields → List IntType
types [] = []
types ((ty, v) ∷ fs) = ty ∷ types fs

abbrev pub values : Fields → List ℕ
values [] = []
values ((ty, v) ∷ fs) = v ∷ values fs

module _ (p : Platform) where
  abbrev pub put_all : Fields → ByteStream → Outcome ByteStream
  put_all [] s = ok s
  put_all ((ty, v) ∷ fs) s = do t ← put p ty v s; put_all fs t

  abbrev pub get_all : List IntType → ByteStream → Outcome (List ℕ × ByteStream)
  get_all [] s = ok ([], s)
  get_all (ty ∷ tys) s = do (v, t) ← get_value p ty s; (vs, u) ← get_all tys t; ok (v ∷ vs, u)

  abbrev encoded : ByteOrder → Fields → List Cell
  encoded order [] = []
  encoded order ((ty, v) ∷ fs) = int_cells p order ty v ++ encoded order fs

  put_all_lem :
      (fs : Fields) (s : ByteStream)
      → IsValid s
      → s.write_idx + total_size fs ≤ max_written
      → (t : ByteStream) × (put_all fs s ≡ ok t) × IsAdded s (encoded s.byte_order fs) t
  put_all_lem [] s valid small = (s, refl, IsAdded-nothing s valid)
  put_all_lem ((ty, v) ∷ fs) s valid small =
      let (t, eq, added) = put_lem p s ty v valid (omega arith) in
      let n : length (int_cells p s.byte_order ty v) ≡ sizeof ty =
        length-int_cells p s.byte_order ty v in
      let (u, eq', added') = put_all_lem fs t added.valid (omega (arith, added, n)) in
      (
        u,
        rw (eq, eq'),
        IsAdded-trans s t u (int_cells p s.byte_order ty v) (encoded s.byte_order fs) added
            (rw added.same_order at added'),
      )

  get_all_lem :
      (fs : Fields) (s : ByteStream) (rest : List Cell)
      → IsValid s
      → is_null s.block ≡ false
      → AllFit fs
      → unread s ≡ encoded s.byte_order fs ++ rest
      → (t : ByteStream) × (get_all (types fs) s ≡ ok (values fs, t)) × (unread t ≡ rest)
  get_all_lem [] s rest valid held fits e = (s, refl, e)
  get_all_lem ((ty, v) ∷ fs) s rest valid held fits e =
      let (t, eq, isread, left) =
        get_value_lem p s ty v (encoded s.byte_order fs ++ rest) valid held fits.0
          (e ∙ append_assoc (int_cells p s.byte_order ty v) (encoded s.byte_order fs) rest) in
      let (u, eq', left') =
        get_all_lem fs t rest isread.valid (ap is_null isread.same_block ∙ held) fits.1
          (left ∙ ap (λ (o : ByteOrder). encoded o fs ++ rest) (sym isread.same_order)) in
      (u, rw (eq, eq'), left')

  -- Whatever integers of any types are put on a valid stream with nothing left to read, in
  -- either byte order and on any platform, are got back in the same order, and nothing is left
  -- to read. The values fit their types and the stream does not grow past `max_written`.
  pub get_all-put_all :
      (fs : Fields) (s : ByteStream)
      → IsValid s
      → unread s ≡ []
      → AllFit fs
      → s.write_idx + total_size fs ≤ max_written
      → (t : ByteStream) × (put_all fs s ≡ ok t)
        × (u : ByteStream) × (get_all (types fs) t ≡ ok (values fs, u))
        × (unread u ≡ [])
  get_all-put_all [] s valid none_left fits small = (s, refl, s, refl, none_left)
  get_all-put_all ((ty, v) ∷ fs) s valid none_left fits small =
      let all : Fields = (ty, v) ∷ fs in
      let (t, eq, added) = put_all_lem all s valid small in
      let some_bytes : 0 < length (encoded s.byte_order all) = omega (
        arith,
        length-append (int_cells p s.byte_order ty v) (encoded s.byte_order fs),
        length-int_cells p s.byte_order ty v,
        bytes_of_pos (width ty),
      ) in
      let (u, eq', left) = get_all_lem all t [] added.valid (not_null added (inr some_bytes)) fits (
        IsAdded-unread s t (encoded s.byte_order all) valid added
        ∙ ap (λ (xs : List Cell). xs ++ encoded s.byte_order all) none_left
        ∙ sym (append-nil (encoded s.byte_order all))
        ∙ ap (λ (o : ByteOrder). encoded o all ++ []) (sym added.same_order)) in
      (t, eq, u, eq', left)
