-- ===== src/Logger/Hex/Bounds.antt =====
-- The text of DebugHexString (tools/logger.h) fits the buffer that is made for it.
use lite_cpplib.Base.{
  ℕ, suc, ◌+◌, ◌-◌, ◌*◌, ◌/◌, ◌%◌, ◌^◌, ◌≤◌, ◌<◌, ◌≡◌, refl, inl, inr, Bool, true, false, ◌&&◌,
  ◌||◌, Option, none, some, List, [], ◌∷◌, ◌++◌, length, length-append, arith, ltb, ◌==◌, lt→ltb,
  ltb→lt, if◌then◌else◌, Bool-cases, ok, u32,
}
use native.Mathlib.Nat.{div-add-mod, mod-lt, mul-le-mul_left, mul-le-mul_right}
use lite_cpplib.Logger.{rank, Logger}
use lite_cpplib.Logger.Hex.{
  hex_digit, gap, chars_per_byte, hex_loop, line_cnt, str_len, debug_hex_string,
}

-- From here on the index is past the first byte: `v` full lines and a begun one hold the bytes so far.
fewer_lines : (m u b : ℕ) → m * b < u * b → m < u
fewer_lines m u b h = elim (Bool-cases (ltb m u)) [
  | inl e ↦ ltb→lt m u e
  | inr e ↦ absurd (omega (arith, h, mul-le-mul_right b (not_less m u e)))
]
  where
    not_less : (m u : ℕ) → ltb m u ≡ false → u ≤ m
    not_less m u e = ground arith

full_line : (i b v : ℕ) → 0 < b → v * b < i → i ≤ suc v * b → (i % b == 0) ≡ true → i ≡ suc v * b
full_line i b v pos low high e =
    let zero_mod : i % b ≡ 0 = ground arith in
    let whole : i / b * b ≡ i = omega (arith, div-add-mod i b, zero_mod) in
    let reached : v < i / b = fewer_lines v (i / b) b (omega (arith, whole, low)) in
    omega (arith, mul-le-mul_right b reached, whole, high)

begun_line : (i b v : ℕ) → 0 < b → i ≤ suc v * b → (i % b == 0) ≡ false → suc i ≤ suc v * b
begun_line i b v pos high e =
    let some_mod : 0 < i % b = ground arith in
    let whole : i / b * b + i % b ≡ i = omega (arith, div-add-mod i b) in
    let rest : i % b < b = mod-lt i pos in
    let under : i / b < suc v =
      fewer_lines (i / b) (suc v) b (omega (arith, whole, high, some_mod)) in
    omega (arith, mul-le-mul_right b under, whole, rest)

byte_length :
    (g : Bool) (line_break rest : List ℕ) (c d : ℕ)
    → length (line_break ++ (c ∷ d ∷ (gap g ++ rest)))
      ≡ length line_break + chars_per_byte g + length rest
byte_length true line_break rest c d = omega (arith, length-append line_break (c ∷ d ∷ 32 ∷ rest))
byte_length false line_break rest c d = omega (arith, length-append line_break (c ∷ d ∷ rest))

more_bytes : (g : Bool) (n : ℕ) → chars_per_byte g * suc n ≡ chars_per_byte g * n + chars_per_byte g
more_bytes true n = omega arith
more_bytes false n = omega arith

abbrev line_break : ℕ → ℕ → List ℕ
line_break b i = if ltb 0 i && (i % b == 0) then 10 ∷ [] else []

-- What the loop writes from the byte `i` on fits the bytes and the breaks of `k` lines.
loop_short :
    (b : ℕ) (g : Bool) (i v k : ℕ) (bs : List ℕ)
    → 0 < b
    → v * b < i
    → i ≤ suc v * b
    → i + length bs ≤ k * b
    → suc v ≤ k
    → length (hex_loop b g i bs) + suc v ≤ chars_per_byte g * length bs + k
unfolding hex_loop
loop_short b g i v k [] pos low high fits lines = omega arith
loop_short b g i v k (x ∷ xs) pos low high fits lines =
    let later : ltb 0 i ≡ true = lt→ltb 0 i (omega (arith, low)) in
    let counted =
      byte_length g (line_break b i) (hex_loop b g (suc i) xs) (hex_digit (x / 16))
        (hex_digit (x % 16)) in
    elim (Bool-cases (i % b == 0)) [
      | inl e ↦
          let at : i ≡ suc v * b = full_line i b v pos low high e in
          let more : suc v < k = fewer_lines (suc v) k b (omega (arith, at, fits)) in
          let rest =
            loop_short b g (suc i) (suc v) k xs pos (omega (arith, at)) (omega (arith, at, pos))
              (omega (arith, fits)) more in
          let one : length (line_break b i) ≡ 1 = rw (later, e) refl in
          omega (arith, counted, one, rest, more_bytes g (length xs))
      | inr e ↦
          let rest =
            loop_short b g (suc i) v k xs pos (omega (arith, low)) (begun_line i b v pos high e)
              (omega (arith, fits)) lines in
          let none_here : length (line_break b i) ≡ 0 = rw (later, e) refl in
          omega (arith, counted, none_here, rest, more_bytes g (length xs))
    ]

room_eq : (g : Bool) (k b : ℕ) → k * (b * chars_per_byte g + 1) ≡ chars_per_byte g * (k * b) + k
room_eq true k b = omega arith
room_eq false k b = omega arith

few_chars : (g : Bool) (n m : ℕ) → n ≤ m → chars_per_byte g * n ≤ chars_per_byte g * m
few_chars true n m h = omega arith
few_chars false n m h = omega arith

at_most_three : (g : Bool) (n : ℕ) → chars_per_byte g * n ≤ 3 * n
at_most_three true n = omega arith
at_most_three false n = omega arith

byte_room :
    (g : Bool) (b : ℕ) → b ≤ 2 ^ 16 → u32 (b * chars_per_byte g + 1) ≡ b * chars_per_byte g + 1
byte_room true b h = omega arith
byte_room false b h = omega arith

-- The lines hold the bytes, with less than one line to spare.
line_cnt_lem :
    (n b : ℕ)
    → 0 < n
    → 0 < b
    → n ≤ 8121
    → b ≤ 2 ^ 16
    → (n ≤ line_cnt n b * b) × (line_cnt n b * b < n + b) × (0 < line_cnt n b)
unfolding line_cnt
line_cnt_lem n b some_bytes pos few narrow =
    let sum : u32 (n + b + 2 ^ 32 - 1) ≡ n + b - 1 = omega arith in
    let rest : (n + b - 1) % b < b = mod-lt (n + b - 1) pos in
    let whole = div-add-mod (n + b - 1) b in
    let enough : n ≤ (n + b - 1) / b * b = omega (arith, whole, rest) in
    rw sum (enough, omega (arith, whole), fewer_lines 0 ((n + b - 1) / b) b (omega (arith, enough)))

str_len_lem :
    (n b : ℕ) (g : Bool)
    → 0 < n
    → 0 < b
    → n ≤ 8121
    → b ≤ 2 ^ 16
    → str_len n b g ≡ chars_per_byte g * (line_cnt n b * b) + line_cnt n b
unfolding str_len
str_len_lem n b g some_bytes pos few narrow =
    let (enough, near, one) = line_cnt_lem n b some_bytes pos few narrow in
    let k_small : line_cnt n b * 1 ≤ line_cnt n b * b = mul-le-mul_left (line_cnt n b) pos in
    rw (byte_room g b narrow, room_eq g (line_cnt n b) b)
      (omega (arith, at_most_three g (line_cnt n b * b), near, k_small))

dump_fits :
    (b : ℕ) (g : Bool) (x : ℕ) (xs : List ℕ)
    → 0 < b
    → length (x ∷ xs) ≤ 8121
    → b ≤ 2 ^ 16
    → length (hex_loop b g 0 (x ∷ xs)) < str_len (length (x ∷ xs)) b g
unfolding hex_loop
dump_fits b g x xs pos few narrow =
    let n : ℕ = length (x ∷ xs) in
    let (enough, near, one) = line_cnt_lem n b (omega arith) pos few narrow in
    let rest =
      loop_short b g 1 0 (line_cnt n b) xs pos (omega arith) (omega (arith, pos))
        (omega (arith, enough)) one in
    let counted = byte_length g [] (hex_loop b g 1 xs) (hex_digit (x / 16)) (hex_digit (x % 16)) in
    omega (
      arith,
      rest,
      counted,
      more_bytes g (length xs),
      few_chars g n (line_cnt n b * b) enough,
      str_len_lem n b g (omega arith) pos few narrow,
    )

-- DebugHexString of any buffer with 1 to 2 ^ 16 bytes per line, with and without gaps, returns:
-- either early, or with a text that fits, together with its NUL, the buffer that is made for it.
pub debug_hex_string_lem :
    (l : Logger) (buf : List ℕ) (bytes_per_line : ℕ) (space_gap : Bool)
    → 0 < bytes_per_line
    → bytes_per_line ≤ 2 ^ 16
    → (text : Option (List ℕ)) × (debug_hex_string l buf bytes_per_line space_gap ≡ ok text)
unfolding debug_hex_string
debug_hex_string_lem l [] b g pos narrow = elim (Bool-cases (ltb 1 (rank l.log_level))) [
  | inl e ↦ (none, rw e refl)
  | inr e ↦ (none, rw e refl)
]
debug_hex_string_lem l (x ∷ xs) b g pos narrow =
    let n : ℕ = length (x ∷ xs) in
    let room : ℕ = str_len n b g in
    let some_bytes : (n == 0) ≡ false = ground arith in
    let some_line : (b == 0) ≡ false = ground arith in
    elim (Bool-cases (ltb 1 (rank l.log_level))) [
      | inl e ↦ (none, rw e refl)
      | inr e ↦ elim (Bool-cases (ltb 4060 (n / 2))) [
        | inl many ↦ (none, rw (e, some_bytes, many) refl)
        | inr few ↦ elim (Bool-cases (ltb 4060 room || room == 0)) [
          | inl long ↦ (none, rw (e, some_bytes, few, some_line, long) refl)
          | inr short ↦
              let fits : ltb (length (hex_loop b g 0 (x ∷ xs))) room ≡ true =
                lt→ltb _ _ (dump_fits b g x xs pos (ground arith) narrow) in
              (some (hex_loop b g 0 (x ∷ xs)), rw (e, some_bytes, few, some_line, short, fits) refl)
        ]
      ]
    ]
