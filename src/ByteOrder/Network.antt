-- ===== src/ByteOrder/Network.antt =====
-- hton*/ntoh* of base/byte_order.h: network order, and the way back.
use lite_cpplib.Base.{ℕ, ◌^◌, ◌<◌, ◌≡◌, refl, ap, ◌∙◌, reverse, arith, ◌/◌, ◌%◌}
use lite_cpplib.ByteOrder.{
  little_endian, big_endian, Os, win, linux, reverse_short, reverse_int, reverse_log, Width, w16,
  w32, w64, width_size, hton, ntoh, hton_uint16, hton_uint32, hton_uint64, ntoh_uint16, ntoh_uint32,
  ntoh_uint64, le_bytes, from_le, word_bytes,
}
use lite_cpplib.ByteOrder.Reverse.{reverse_short_sum, reverse_int_sum, reverse_log_sum}
use lite_cpplib.ByteOrder.Layout.{le_bytes-from_le, from_le-lt, from_le-le_bytes}

-- Reversing a word reverses its bytes in memory.
pub reverse_short-le_bytes :
    (d : ℕ) → d < 2 ^ 16 → le_bytes 2 (reverse_short d) ≡ reverse (le_bytes 2 d)
reverse_short-le_bytes d h =
    ap (le_bytes 2) (reverse_short_sum d h)
    ∙ le_bytes-from_le (reverse (le_bytes 2 d)) (omega arith)

pub reverse_int-le_bytes :
    (d : ℕ) → d < 2 ^ 32 → le_bytes 4 (reverse_int d) ≡ reverse (le_bytes 4 d)
reverse_int-le_bytes d h =
    ap (le_bytes 4) (reverse_int_sum d h) ∙ le_bytes-from_le (reverse (le_bytes 4 d)) (omega arith)

pub reverse_log-le_bytes :
    (d : ℕ) → d < 2 ^ 64 → le_bytes 8 (reverse_log d) ≡ reverse (le_bytes 8 d)
reverse_log-le_bytes d h =
    ap (le_bytes 8) (reverse_log_sum d h) ∙ le_bytes-from_le (reverse (le_bytes 8 d)) (omega arith)

pub reverse_short-lt : (d : ℕ) → d < 2 ^ 16 → reverse_short d < 2 ^ 16
reverse_short-lt d h = omega (arith, reverse_short_sum d h)

pub reverse_int-lt : (d : ℕ) → d < 2 ^ 32 → reverse_int d < 2 ^ 32
reverse_int-lt d h = omega (arith, reverse_int_sum d h)

pub reverse_log-lt : (d : ℕ) → d < 2 ^ 64 → reverse_log d < 2 ^ 64
reverse_log-lt d h =
    omega (arith, reverse_log_sum d h, from_le-lt (reverse (le_bytes 8 d)) (omega arith))

pub reverse_short-reverse_short : (d : ℕ) → d < 2 ^ 16 → reverse_short (reverse_short d) ≡ d
reverse_short-reverse_short d h =
    reverse_short_sum _ (reverse_short-lt d h)
    ∙ ap (λ bs. from_le (reverse bs)) (reverse_short-le_bytes d h)
    ∙ from_le-le_bytes 2 d h

pub reverse_int-reverse_int : (d : ℕ) → d < 2 ^ 32 → reverse_int (reverse_int d) ≡ d
reverse_int-reverse_int d h =
    reverse_int_sum _ (reverse_int-lt d h)
    ∙ ap (λ bs. from_le (reverse bs)) (reverse_int-le_bytes d h)
    ∙ from_le-le_bytes 4 d h

pub reverse_log-reverse_log : (d : ℕ) → d < 2 ^ 64 → reverse_log (reverse_log d) ≡ d
reverse_log-reverse_log d h =
    reverse_log_sum _ (reverse_log-lt d h)
    ∙ ap (λ bs. from_le (reverse bs)) (reverse_log-le_bytes d h)
    ∙ from_le-le_bytes 8 d h

-- On Windows a converted word of 2, 4 or 8 bytes lies in the memory of a little-endian machine as
-- the original would on a big-endian one.
pub hton_network_order :
    (w : Width) (d : ℕ)
    → d < 256 ^ width_size w
    → word_bytes little_endian (width_size w) (hton win w d)
      ≡ word_bytes big_endian (width_size w) d
unfolding hton_uint16 hton_uint32 hton_uint64
hton_network_order w16 d h = reverse_short-le_bytes d h
hton_network_order w32 d h = reverse_int-le_bytes d h
hton_network_order w64 d h = reverse_log-le_bytes d h

-- A word of 2, 4 or 8 bytes that is converted to network order and back is the word again, on
-- either platform.
pub ntoh-hton : (os : Os) (w : Width) (d : ℕ) → d < 256 ^ width_size w → ntoh os w (hton os w d) ≡ d
unfolding hton_uint16 hton_uint32 hton_uint64 ntoh_uint16 ntoh_uint32 ntoh_uint64
ntoh-hton win w16 d h = reverse_short-reverse_short d h
ntoh-hton win w32 d h = reverse_int-reverse_int d h
ntoh-hton win w64 d h = reverse_log-reverse_log d h
ntoh-hton linux w16 d h = refl
ntoh-hton linux w32 d h = refl
ntoh-hton linux w64 d h = refl

pub hton-lt :
    (os : Os) (w : Width) (d : ℕ) → d < 256 ^ width_size w → hton os w d < 256 ^ width_size w
unfolding hton_uint16 hton_uint32 hton_uint64
hton-lt win w16 d h = reverse_short-lt d h
hton-lt win w32 d h = reverse_int-lt d h
hton-lt win w64 d h = reverse_log-lt d h
hton-lt linux w16 d h = h
hton-lt linux w32 d h = h
hton-lt linux w64 d h = h

-- Built for Linux and run on a little-endian machine, HtonUint16 gives network order for no word
-- but those whose two low bytes are equal.
pub hton_linux_host_order :
    (d : ℕ)
    → word_bytes little_endian 2 (hton_uint16 linux d) ≡ word_bytes big_endian 2 d
    → d % 256 ≡ d / 256 % 256
unfolding hton_uint16
hton_linux_host_order d e = ground arith
