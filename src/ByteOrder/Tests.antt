-- ===== src/ByteOrder/Tests.antt =====
-- The byte-order functions at concrete words, and their theorems at inputs that meet the hypotheses.
use lite_cpplib.Base.{◌≡◌, refl, arith}
use lite_cpplib.ByteOrder.{win, w64, hton, ntoh, reverse_short, reverse_int, reverse_log}
use lite_cpplib.ByteOrder.Network.{ntoh-hton}

reversals :
    (reverse_short 0x1234 ≡ 0x3412)
    × (reverse_int 0x12345678 ≡ 0x78563412)
    × (reverse_log 0x0123456789abcdef ≡ 0xefcdab8967452301)
unfolding reverse_short reverse_int reverse_log
reversals = (refl, refl, refl)

ntoh-hton_example : ntoh win w64 (hton win w64 0x0123456789abcdef) ≡ 0x0123456789abcdef
ntoh-hton_example = ntoh-hton win w64 0x0123456789abcdef (omega arith)
