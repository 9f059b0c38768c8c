-- ===== src/ByteStream/Strings/Roundtrip.antt =====
-- PutString and GetString: a text is read back up to its first NUL.
use lite_cpplib.Base.{
  ℕ, zero, suc, ◌+◌, ◌-◌, ◌^◌, ◌≤◌, ◌<◌, ◌≡◌, refl, sym, ap, ◌∙◌, List, [], ◌∷◌, ◌++◌, map, Option,
  none, some, length, take, drop, arith, u32, ◌==◌, if◌then◌else◌, ok, inl, inr, Bool, Bool-cases,
  Option-cases, true, false, length-append, length-map, length-drop, take-append-drop, strlen,
  c_str,
}
use mathlib.Core.List.{map-append}
use lite_cpplib.ByteOrder.{
  ByteOrder, little_endian, big_endian, same_order, network_byteorder, word_bytes,
}
use lite_cpplib.ByteOrder.Layout.{AllBytes}
use lite_cpplib.ByteStream.{Cell, ByteStream, is_null, of_size, eof, add}
use lite_cpplib.ByteStream.Valid.{cells, max_written, IsValid, written, unread, length-written}
use lite_cpplib.ByteStream.Queue.{not_null, IsAdded, IsAdded-trans, IsAdded-unread, add_lem, IsRead}
use lite_cpplib.ByteStream.Integers.{Platform, uint8, write_byteorder, int_cells, put, get_value}
use lite_cpplib.ByteStream.Integers.Roundtrip.{put_lem, get_value_lem}
use lite_cpplib.ByteStream.Strings.{put_cstr, put_string, text_of, get_string_loop, get_string}

-- A text as C reads it.
abbrev pub until_nul : List ℕ → List ℕ
until_nul [] = []
until_nul (c ∷ cs) = if c == 0 then [] else c ∷ until_nul cs

-- The bytes of a text that C reads whole.
abbrev pub IsText : List ℕ → Type 0
IsText [] = Unit {0}
IsText (c ∷ cs) = (0 < c) × (c < 256) × IsText cs

until_nul-IsText : (str : List ℕ) → AllBytes str → IsText (until_nul str)
until_nul-IsText [] h = tt
until_nul-IsText (c ∷ cs) h = elim (Bool-cases (c == 0)) [
  | inl e ↦ rw e tt
  | inr e ↦ rw e (ground arith, h.0, until_nul-IsText cs h.1)
]

pub until_nul_text : (str : List ℕ) → IsText str → until_nul str ≡ str
until_nul_text [] h = refl
until_nul_text (c ∷ cs) h = ground (arith, until_nul_text cs h.2)

strlen-c_str : (str : List ℕ) → strlen (c_str str) ≡ some (length (until_nul str))
unfolding strlen
strlen-c_str [] = refl
strlen-c_str (c ∷ cs) = ground (arith, strlen-c_str cs)

take-c_str :
    (str : List ℕ)
    → take (suc (length (until_nul str))) (map some (c_str str)) ≡ map some (c_str (until_nul str))
take-c_str [] = refl
take-c_str (c ∷ cs) = elim (Bool-cases (c == 0)) [
  | inl e ↦ rw e (let z : c ≡ 0 = ground arith in rw z)
  | inr e ↦ rw e (rw (take-c_str cs))
]

until_nul-le : (str : List ℕ) → length (until_nul str) ≤ length str
until_nul-le [] = omega arith
until_nul-le (c ∷ cs) = ground (arith, until_nul-le cs)

text_of-c_str :
    (str : List ℕ) (more : List Cell)
    → IsText str
    → text_of (map some (c_str str) ++ more) ≡ some str
unfolding text_of
text_of-c_str [] more h = refl
text_of-c_str (c ∷ cs) more h = ground (arith, text_of-c_str cs more h.2)

put_string_eq :
    (s : ByteStream) (str : List ℕ)
    → length str + 1 < 2 ^ 32
    → put_string str s ≡ add s (some (map some (c_str str))) (suc (length (until_nul str)))
unfolding put_string put_cstr
put_string_eq s str small =
    let n_eq : u32 (length (until_nul str) + 1) ≡ suc (length (until_nul str)) =
      omega (arith, until_nul-le str) in
    rw (strlen-c_str str, n_eq)

-- PutString appends the text up to its first NUL, and a NUL.
pub put_string_lem :
    (s : ByteStream) (str : List ℕ)
    → IsValid s
    → s.write_idx + length str + 1 ≤ max_written
    → (t : ByteStream) × (put_string str s ≡ ok t) × IsAdded s (map some (c_str (until_nul str))) t
put_string_lem s str v small =
    let (t, eq, added) =
      add_lem s v (map some (c_str str)) (suc (length (until_nul str)))
        (omega (arith, length-map (c_str str) some, length-append str (0 ∷ []), until_nul-le str))
        (omega (arith, until_nul-le str)) in
    (t, put_string_eq s str (omega arith) ∙ eq, rw (take-c_str str) at added)

byte_plain : (b : Bool) {c : ℕ} → (if b then c else c) ≡ c
byte_plain true = refl
byte_plain false = refl

byte_cell : (m : ByteOrder) (c : ℕ) → c < 256 → map some (word_bytes m 1 c) ≡ some c ∷ []
byte_cell little_endian c h = ap (λ (u : ℕ). some u ∷ []) (omega arith)
byte_cell big_endian c h = ap (λ (u : ℕ). some u ∷ []) (omega arith)

module _ (p : Platform) where
  int_cells_byte : (order : ByteOrder) (c : ℕ) → c < 256 → int_cells p order uint8 c ≡ some c ∷ []
  unfolding int_cells write_byteorder
  int_cells_byte order c h =
      rw (byte_plain (same_order order (network_byteorder p.os))) (byte_cell p.machine c h)

  put_byte :
      (s : ByteStream) (c : ℕ)
      → c < 256
      → IsValid s
      → s.write_idx + 1 ≤ max_written
      → (t : ByteStream) × (put p uint8 c s ≡ ok t) × IsAdded s (some c ∷ []) t
  put_byte s c h v small =
      let (t, eq, added) = put_lem p s uint8 c v small in
      (t, eq, rw (int_cells_byte s.byte_order c h) at added)

  get_byte :
      (s : ByteStream) (c : ℕ) (rest : List Cell)
      → IsValid s
      → is_null s.block ≡ false
      → c < 256
      → unread s ≡ some c ∷ rest
      → (t : ByteStream) × (get_value p uint8 s ≡ ok (c, t)) × IsRead s 1 t × (unread t ≡ rest)
  get_byte s c rest v held h e =
      get_value_lem p s uint8 c rest v held (omega arith)
        (e ∙ ap (λ (xs : List Cell). xs ++ rest) (sym (int_cells_byte s.byte_order c h)))

  -- What ends a text: the end of what was written, or a NUL with `rest` behind it.
  abbrev ending : Option (List Cell) → List Cell
  ending none = []
  ending (some rest) = some 0 ∷ rest

  abbrev behind : Option (List Cell) → List Cell
  behind none = []
  behind (some rest) = rest

  eof-unread : (s : ByteStream) → IsValid s → unread s ≡ [] → eof s ≡ true
  unfolding eof
  eof-unread s v e =
      ground (arith, v, ap length e, length-drop s.read_idx (written s), length-written s v)

  not_eof :
      (s : ByteStream) (c : Cell) (cs : List Cell) → IsValid s → unread s ≡ c ∷ cs → eof s ≡ false
  unfolding eof
  not_eof s c cs v e =
      ground (arith, v, ap length e, length-drop s.read_idx (written s), length-written s v)

  -- The loop collects the text with a NUL, and stops behind the text.
  loop_lem :
      (str : List ℕ) (end : Option (List Cell)) (fuel : ℕ) (bs s : ByteStream)
      → IsText str
      → IsValid bs
      → IsValid s
      → is_null s.block ≡ false
      → unread s ≡ map some str ++ ending end
      → length str < fuel
      → bs.write_idx + length str + 1 ≤ max_written
      → (bs' : ByteStream) × (s' : ByteStream) × (get_string_loop p fuel bs s ≡ ok (bs', s'))
        × IsAdded bs (map some (c_str str)) bs'
        × (unread s' ≡ behind end)
  unfolding get_string_loop
  loop_lem str end zero bs s text vb vs held e enough small = absurd (omega arith)
  loop_lem [] none (suc fuel) bs s text vb vs held e enough small =
      let (bs', eq, added) = put_byte bs 0 (omega arith) vb (omega arith) in
      (bs', s, rw (eof-unread s vs e, eq), added, e)
  loop_lem [] (some rest) (suc fuel) bs s text vb vs held e enough small =
      let (s', got, isread, left) = get_byte s 0 rest vs held (omega arith) e in
      let (bs', eq, added) = put_byte bs 0 (omega arith) vb (omega arith) in
      (bs', s', rw (not_eof s (some 0) rest vs e, got, eq), added, left)
  loop_lem (c ∷ cs) end (suc fuel) bs s text vb vs held e enough small =
      let (s', got, isread, left) = get_byte s c (map some cs ++ ending end) vs held text.1 e in
      let (bs', eq, added) = put_byte bs c text.1 vb (omega arith) in
      let (bs'', s'', looped, added', left') =
        loop_lem cs end fuel bs' s' text.2 added.valid isread.valid
          (ap is_null isread.same_block ∙ held) left (omega arith) (omega (arith, added)) in
      let more : (c == 0) ≡ false = ground arith in
      (
        bs'',
        s'',
        rw (not_eof s (some c) (map some cs ++ ending end) vs e, got, eq, more, looped),
        IsAdded-trans bs bs' bs'' (some c ∷ []) (map some (c_str cs)) added added',
        left',
      )

  collector-IsValid : IsValid (of_size p.os 0)
  unfolding of_size
  collector-IsValid = omega arith

  collected_text :
      (bs : ByteStream) (str : List ℕ) (b : List Cell)
      → IsText str
      → written bs ≡ map some (c_str str)
      → bs.block ≡ some b
      → text_of b ≡ some str
  collected_text bs str b text w e =
      ap text_of (
        sym (take-append-drop bs.write_idx b)
        ∙ ap (λ (xs : List Cell). xs ++ drop bs.write_idx b)
            (ap (λ (o : Option (List Cell)). take bs.write_idx (cells o)) (sym e) ∙ w))
      ∙ text_of-c_str str (drop bs.write_idx b) text

  -- GetString of a valid stream with a block reads the bytes up to the first NUL, which it takes
  -- too, or up to the end of what was written, and leaves the rest to be read. The text with its
  -- NUL is not longer than `max_written`.
  pub get_string_lem :
      (str : List ℕ) (end : Option (List Cell)) (s : ByteStream)
      → IsText str
      → IsValid s
      → is_null s.block ≡ false
      → unread s ≡ map some str ++ ending end
      → length str + 1 ≤ max_written
      → (t : ByteStream) × (get_string p s ≡ ok (str, t)) × (unread t ≡ behind end)
  unfolding get_string
  get_string_lem str end s text v held e small =
      let room' : length str ≤ s.write_idx - s.read_idx = omega (
        arith,
        ap length e,
        length-append (map some str) (ending end),
        length-map {B = Cell} str some,
        length-drop s.read_idx (written s),
        length-written s v,
      ) in
      let (bs, t, looped, added, left) =
        loop_lem str end (suc (s.write_idx - s.read_idx)) (of_size p.os 0) s text collector-IsValid
          v held e (omega arith) (unfold of_size in omega arith) in
      let nonempty : 0 < length (map {B = Cell} some (c_str str)) =
        omega (arith, length-map {B = Cell} (c_str str) some, length-append str (0 ∷ [])) in
      (t, finish bs t looped added (not_null added (inr nonempty)), left)
    where
      finish :
          (bs t : ByteStream)
          → get_string_loop p (suc (s.write_idx - s.read_idx)) (of_size p.os 0) s ≡ ok (bs, t)
          → IsAdded (of_size p.os 0) (map some (c_str str)) bs
          → is_null bs.block ≡ false
          → get_string p s ≡ ok (str, t)
      finish bs t looped added held_bs = elim (Option-cases bs.block) [
        | inl e' ↦ absurd (cc (ap (λ (o : Option (List Cell)). is_null o) e'))
        | inr (b, e') ↦
            let text_b : text_of b ≡ some str =
              collected_text bs str b text (added.appended ∙ unfold of_size in refl) e' in
            rw (looped, e', text_b)
      ]

  -- PutString of bytes and then GetString, on a valid stream with nothing left to read that does
  -- not grow past `max_written`, gives the text back up to its first NUL and leaves nothing to
  -- read.
  pub get_string-put_string :
      (s : ByteStream) (str : List ℕ)
      → IsValid s
      → unread s ≡ []
      → AllBytes str
      → s.write_idx + length str + 1 ≤ max_written
      → (t : ByteStream) × (put_string str s ≡ ok t)
        × (u : ByteStream) × (get_string p t ≡ ok (until_nul str, u))
        × (unread u ≡ [])
  get_string-put_string s str v none_left bytes small =
      let text : List ℕ = until_nul str in
      let (t, eq, added) = put_string_lem s str v small in
      let e : unread t ≡ map some text ++ some 0 ∷ [] =
        IsAdded-unread s t (map some (c_str text)) v added
        ∙ ap (λ (xs : List Cell). xs ++ map some (c_str text)) none_left
        ∙ map-append some text (0 ∷ []) in
      let nonempty : 0 < length (map {B = Cell} some (c_str text)) =
        omega (arith, length-map {B = Cell} (c_str text) some, length-append text (0 ∷ [])) in
      let (u, eq', left) =
        get_string_lem text (some []) t (until_nul-IsText str bytes) added.valid
          (not_null added (inr nonempty)) e (omega (arith, until_nul-le str)) in
      (t, eq, u, eq', left)
