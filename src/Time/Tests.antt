-- ===== src/Time/Tests.antt =====
-- Times compared, printed and read, and the theorems at times that meet their hypotheses.
use lite_cpplib.Base.{
  ℕ, ◌≡◌, refl, true, some, List, [], ◌∷◌, replicate, ok, arith, ltb, c_str, strlen, undefined,
}
use lite_cpplib.Time.{
  Time, zero_time, less, set_time, atoi_u16, split_fields, parsed, get_data_time_string1,
  get_data_time_string2, get_data_time_string3, text1, text2, into_32, padded, of_tm,
}
use lite_cpplib.Time.Order.{IsTime, instant, less-eq-ltb}
use lite_cpplib.Time.Text.{set_time-get_data_time_string1}

abbrev release : Time
release = record {
  year = 2014;
  month = 7;
  day = 1;
  hour = 9;
  minute = 5;
  second = 59;
  milli_second = 42;
}

-- A minute earlier in a later year.
abbrev later : Time
later = record release { year = 2015; minute = 4 }

abbrev latest : Time
latest = record later { milli_second = 43 }

release-IsTime : IsTime release
release-IsTime = omega arith

later-IsTime : IsTime later
later-IsTime = omega arith

latest-IsTime : IsTime latest
latest-IsTime = omega arith

less_runs : less release later ≡ true
unfolding less
less_runs = refl

text_runs :
    get_data_time_string3 release
    ≡ ok (
        50 ∷ 48 ∷ 49 ∷ 52 ∷ 45 ∷ 48 ∷ 55 ∷ 45 ∷ 48 ∷ 49 ∷ 32 ∷ 48 ∷ 57 ∷ 58 ∷ 48 ∷ 53 ∷ 58 ∷ 53 ∷ 57
        ∷ 46 ∷ 48 ∷ 52 ∷ 50 ∷ [])
unfolding get_data_time_string3 text1 into_32 padded
text_runs = refl

compact_runs :
    get_data_time_string2 release
    ≡ ok (50 ∷ 48 ∷ 49 ∷ 52 ∷ 48 ∷ 55 ∷ 48 ∷ 49 ∷ 48 ∷ 57 ∷ 48 ∷ 53 ∷ 53 ∷ 57 ∷ [])
unfolding get_data_time_string2 text2 into_32 padded
compact_runs = refl

-- Nineteen characters that are no time are taken for one: atoi reads 0 where it finds no digit.
no_time_is_read : set_time release (some (c_str (replicate 19 b'x'))) ≡ ok zero_time
unfolding set_time strlen parsed split_fields atoi_u16
no_time_is_read = refl

-- Fields of five digits leave the 32 characters of the buffer.
wide_fields_overflow :
    get_data_time_string1 (record {
      year = 65535;
      month = 65535;
      day = 65535;
      hour = 65535;
      minute = 65535;
      second = 65535;
      milli_second = 0;
    })
    ≡ undefined
unfolding get_data_time_string1 text1 into_32 padded
wide_fields_overflow = refl

of_tm_runs :
    (of_tm
      (record { tm_year = 114; tm_mon = 6; tm_mday = 1; tm_hour = 9; tm_min = 5; tm_sec = 59 }))
    ≡ record release { milli_second = 0 }
unfolding of_tm
of_tm_runs = refl

less-eq-ltb_example : less release later ≡ ltb (instant release) (instant later)
less-eq-ltb_example = less-eq-ltb release later release-IsTime later-IsTime

set_time-get_data_time_string1_example :
    (text : List ℕ) × (get_data_time_string1 release ≡ ok text)
    × (set_time zero_time (some (c_str text)) ≡ ok (record release { milli_second = 0 }))
set_time-get_data_time_string1_example =
    set_time-get_data_time_string1 release (omega arith) (omega arith) (omega arith) (omega arith)
      (omega arith) (omega arith) zero_time
