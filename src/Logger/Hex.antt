-- ===== src/Logger/Hex.antt =====
-- DebugHexString (tools/logger.h): the size of its buffer and what it writes into it.
pub mod Bounds
use lite_cpplib.Base.{
  ℕ, zero, suc, ◌+◌, ◌-◌, ◌*◌, ◌/◌, ◌%◌, ◌^◌, ◌≤◌, ◌<◌, ◌≡◌, refl, sym, ap, ◌∙◌, inl, inr, ◌⊎◌,
  Bool, true, false, not, ◌&&◌, ◌||◌, Option, none, some, List, [], ◌∷◌, ◌++◌, length,
  length-append, arith, ltb, leb, ◌==◌, lt→ltb, ltb→lt, ge→ltb, if◌then◌else◌, Bool-cases, Outcome,
  ok, undefined, ◌>>=◌, u32,
}
use lite_cpplib.Logger.{LogLevel, rank, Logger, max_log_info_size}

abbrev pub hex_digit : ℕ → ℕ
hex_digit d = if ltb d 10 then b'0' + d else b'A' + d - 10

abbrev pub gap : Bool → List ℕ
gap true = 32 ∷ []
gap false = []

abbrev pub chars_per_byte : Bool → ℕ
chars_per_byte true = 3
chars_per_byte false = 2

-- The characters that the loop writes from the byte with the index `i` on.
unfoldable pub hex_loop : ℕ → Bool → ℕ → List ℕ → List ℕ
hex_loop bytes_per_line space_gap i [] = []
hex_loop bytes_per_line space_gap i (b ∷ bs) =
    (if ltb 0 i && (i % bytes_per_line == 0) then 10 ∷ [] else [])
    ++ (hex_digit (b / 16)
        ∷ hex_digit (b % 16)
        ∷ (gap space_gap ++ hex_loop bytes_per_line space_gap (suc i) bs))

-- line_cnt and str_len
unfoldable pub line_cnt : ℕ → ℕ → ℕ
line_cnt size bytes_per_line = u32 (size + bytes_per_line + 2 ^ 32 - 1) / bytes_per_line

unfoldable pub str_len : ℕ → ℕ → Bool → ℕ
unfolding line_cnt
str_len size bytes_per_line space_gap =
    u32 (line_cnt size bytes_per_line * u32 (bytes_per_line * chars_per_byte space_gap + 1))

-- DebugHexString of a buffer: the text that it hands to _Write, or none where it returns early. A
-- line of 0 bytes divides by zero, and a text that does not fit its buffer is written past it.
unfoldable pub debug_hex_string : Logger → List ℕ → ℕ → Bool → Outcome (Option (List ℕ))
unfolding hex_loop str_len
debug_hex_string l buf bytes_per_line space_gap =
    let size = length buf in
    let dump = hex_loop bytes_per_line space_gap 0 buf in
    let room = str_len size bytes_per_line space_gap in
    if ltb (rank LogLevel.debug) (rank l.log_level)
    then ok none
    else if size == 0
    then ok none
    else if ltb max_log_info_size (size / 2)
    then ok none
    else if bytes_per_line == 0
    then undefined
    else if ltb max_log_info_size room || room == 0
    then ok none
    else if ltb (length dump) room
    then ok (some dump)
    else undefined
