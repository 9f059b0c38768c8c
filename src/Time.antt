-- ===== src/Time.antt =====
-- tools/time_tool.h: the date and time, its order, its text forms and the reading of one of them.
pub mod Order
pub mod Text
mod Tests
use lite_cpplib.Base.{
  ℕ, zero, suc, ◌+◌, ◌-◌, ◌*◌, ◌/◌, ◌%◌, ◌^◌, Bool, true, false, ◌&&◌, ◌||◌, not, Option, none,
  some, List, [], ◌∷◌, ◌++◌, length, take, drop, replicate, ltb, leb, ◌==◌, if◌then◌else◌, u16,
  Outcome, ok, undefined, ◌>>=◌, defined, strlen, c_str,
}

-- struct Time
pub record Time : Type 0 where
  pub year : ℕ
  pub month : ℕ
  pub day : ℕ
  pub hour : ℕ
  pub minute : ℕ
  pub second : ℕ
  pub milli_second : ℕ

-- Time()
abbrev pub zero_time : Time
zero_time = record {
  year = 0;
  month = 0;
  day = 0;
  hour = 0;
  minute = 0;
  second = 0;
  milli_second = 0;
}

-- operator <
unfoldable pub less : Time → Time → Bool
less l r =
    if not (l.year == r.year)
    then ltb l.year r.year
    else if not (l.month == r.month)
    then ltb l.month r.month
    else if not (l.day == r.day)
    then ltb l.day r.day
    else if not (l.hour == r.hour)
    then ltb l.hour r.hour
    else if not (l.minute == r.minute)
    then ltb l.minute r.minute
    else if not (l.second == r.second)
    then ltb l.second r.second
    else if not (l.milli_second == r.milli_second)
    then ltb l.milli_second r.milli_second
    else false

-- operator >
unfoldable pub greater : Time → Time → Bool
greater l r =
    if not (l.year == r.year)
    then ltb r.year l.year
    else if not (l.month == r.month)
    then ltb r.month l.month
    else if not (l.day == r.day)
    then ltb r.day l.day
    else if not (l.hour == r.hour)
    then ltb r.hour l.hour
    else if not (l.minute == r.minute)
    then ltb r.minute l.minute
    else if not (l.second == r.second)
    then ltb r.second l.second
    else if not (l.milli_second == r.milli_second)
    then ltb r.milli_second l.milli_second
    else false

abbrev pub is_digit : ℕ → Bool
is_digit c = leb b'0' c && leb c b'9'

-- isspace, in the C locale
abbrev pub is_space : ℕ → Bool
is_space c = c == 32 || (leb 9 c && leb c 13)

-- The number that leading digits spell, behind the digits already read.
unfoldable pub digits_value : ℕ → List ℕ → ℕ
digits_value acc [] = acc
digits_value acc (c ∷ cs) =
    let rest = digits_value (acc * 10 + (c - b'0')) cs in if is_digit c then rest else acc

unfoldable pub skip_spaces : List ℕ → List ℕ
skip_spaces [] = []
skip_spaces (c ∷ cs) = let rest = skip_spaces cs in if is_space c then rest else c ∷ cs

-- `(uint16_t)atoi(s)` behind the spaces: a sign, then digits. The buffers of `Set` hold at most five
-- digits in a row, so that `int` does not overflow.
unfoldable pub signed_u16 : List ℕ → ℕ
unfolding digits_value
signed_u16 [] = 0
signed_u16 (c ∷ cs) =
    if c == b'-'
    then u16 (2 ^ 16 - u16 (digits_value 0 cs))
    else if c == b'+'
    then u16 (digits_value 0 cs)
    else u16 (digits_value 0 (c ∷ cs))

unfoldable pub atoi_u16 : List ℕ → ℕ
unfolding skip_spaces signed_u16
atoi_u16 s = signed_u16 (skip_spaces s)

-- `s[i] = 0`
abbrev pub put_nul : ℕ → List ℕ → List ℕ
put_nul i s = take i s ++ (0 ∷ drop (suc i) s)

-- The buffer of `Set`: a copy of the text with the separators replaced by NUL.
unfoldable pub split_fields : List ℕ → List ℕ
split_fields s = put_nul 16 (put_nul 13 (put_nul 7 (put_nul 4 (put_nul 19 (take 20 s)))))

unfoldable pub parsed : List ℕ → Time
unfolding atoi_u16
parsed s = record {
  year = atoi_u16 s;
  month = atoi_u16 (drop 5 s);
  day = atoi_u16 (drop 8 s);
  hour = atoi_u16 (drop 11 s);
  minute = atoi_u16 (drop 14 s);
  second = atoi_u16 (drop 17 s);
  milli_second = 0;
}

-- Set(const char* time_str)
unfoldable pub set_time : Time → Option (List ℕ) → Outcome Time
unfolding parsed split_fields
set_time t none = ok t
set_time t (some time_str) = do
  n ← defined (strlen time_str)
  if n == 19 then ok (parsed (split_fields time_str)) else ok t

-- Time(const char* fmt_time_str). The members that a text of another length leaves alone are
-- uninitialised; `before` stands for what they hold.
unfoldable pub of_text : Time → Option (List ℕ) → Outcome Time
unfolding set_time
of_text before fmt_time_str = set_time before fmt_time_str

-- %d of a number that is not negative, on fuel.
unfoldable pub decimal_fuel : ℕ → ℕ → List ℕ
decimal_fuel zero n = []
decimal_fuel (suc f) n =
    let rest = decimal_fuel f (n / 10) in
    if ltb n 10 then (n + b'0') ∷ [] else rest ++ (n % 10 + b'0') ∷ []

unfoldable pub decimal : ℕ → List ℕ
unfolding decimal_fuel
decimal n = decimal_fuel (suc n) n

-- %0wd
unfoldable pub padded : ℕ → ℕ → List ℕ
unfolding decimal
padded w n = replicate (w - length (decimal n)) b'0' ++ decimal n

-- `sprintf` into `char str[32]`: a text with its NUL that does not fit is written past the array.
unfoldable pub into_32 : List ℕ → Outcome (List ℕ)
into_32 text = if ltb (length text) 32 then ok text else undefined

-- "%04d-%02d-%02d %02d:%02d:%02d"
unfoldable pub text1 : Time → List ℕ
unfolding padded
text1 t =
    padded 4 t.year
    ++ (b'-' ∷ padded 2 t.month
        ++ (b'-' ∷ padded 2 t.day
            ++ (32 ∷ padded 2 t.hour ++ (b':' ∷ padded 2 t.minute ++ (b':' ∷ padded 2 t.second)))))

-- GetDataTimeString1
unfoldable pub get_data_time_string1 : Time → Outcome (List ℕ)
unfolding text1 into_32
get_data_time_string1 t = into_32 (text1 t)

-- "%04d%02d%02d%02d%02d%02d"
unfoldable pub text2 : Time → List ℕ
unfolding padded
text2 t =
    padded 4 t.year
    ++ (padded 2 t.month
        ++ (padded 2 t.day ++ (padded 2 t.hour ++ (padded 2 t.minute ++ padded 2 t.second))))

-- GetDataTimeString2
unfoldable pub get_data_time_string2 : Time → Outcome (List ℕ)
unfolding text2 into_32
get_data_time_string2 t = into_32 (text2 t)

-- GetDataTimeString3: the first form, then ".%03d"
unfoldable pub get_data_time_string3 : Time → Outcome (List ℕ)
unfolding text1 into_32 padded
get_data_time_string3 t = into_32 (text1 t ++ (b'.' ∷ padded 3 t.milli_second))

-- GetCurDataTime on Windows, from what GetLocalTime hands over.
unfoldable pub of_systemtime : Time → Time
of_systemtime t = record {
  year = t.year;
  month = t.month;
  day = t.day;
  hour = t.hour;
  minute = t.minute;
  second = t.second;
  milli_second = t.milli_second;
}

-- struct tm: years since 1900, months from 0.
pub record Tm : Type 0 where
  pub tm_year : ℕ
  pub tm_mon : ℕ
  pub tm_mday : ℕ
  pub tm_hour : ℕ
  pub tm_min : ℕ
  pub tm_sec : ℕ

-- GetCurDataTime on Linux, from what localtime hands over. `uHou` is read as `hour_`.
unfoldable pub of_tm : Tm → Time
of_tm t = record {
  year = u16 (t.tm_year + 1900);
  month = u16 (t.tm_mon + 1);
  day = u16 t.tm_mday;
  hour = u16 t.tm_hour;
  minute = u16 t.tm_min;
  second = u16 t.tm_sec;
  milli_second = 0;
}
