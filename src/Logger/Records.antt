-- ===== src/Logger/Records.antt =====
-- The records of Logger::_Write(level, ...) (tools/logger.h): which are made, and that they fit the
-- buffer.
use lite_cpplib.Base.{
  ℕ, ◌+◌, ◌^◌, ◌≤◌, ◌<◌, ◌≡◌, refl, true, false, some, List, ◌∷◌, ◌++◌, length, length-append,
  arith, ltb, lt→ltb, ge→ltb, ok, undefined,
}
use lite_cpplib.Time.{Time, get_data_time_string3}
use lite_cpplib.Time.Text.{get_data_time_string3_lem}
use lite_cpplib.Logger.{
  LogLevel, rank, level_name, Logger, plain, formatted, record_text, into_buffer, make_record,
}

name_short : (level : LogLevel) → length (level_name level) ≤ 5
name_short LogLevel.trace = omega arith
name_short LogLevel.debug = omega arith
name_short LogLevel.info = omega arith
name_short LogLevel.warn = omega arith
name_short LogLevel.error = omega arith
name_short LogLevel.fatal = omega arith

-- What stands around the text of a record takes at most 34 characters, if the date takes 23.
length-record_text :
    (date : List ℕ) (level : LogLevel) (text : List ℕ)
    → length date ≡ 23
    → length (record_text date level text) ≤ length text + 34
unfolding record_text
length-record_text date level text h = omega (
  arith,
  name_short level,
  length-append date (b']' ∷ 32 ∷ b'[' ∷ (level_name level ++ (b']' ∷ 32 ∷ text))),
  length-append (level_name level) (b']' ∷ 32 ∷ text),
  h,
)

-- The fields of a time have the digits that the text forms have places for.
pub record IsPrintable (t : Time) : Type 0 where
  pub year : t.year < 10 ^ 4
  pub month : t.month < 10 ^ 2
  pub day : t.day < 10 ^ 2
  pub hour : t.hour < 10 ^ 2
  pub minute : t.minute < 10 ^ 2
  pub second : t.second < 10 ^ 2
  pub milli_second : t.milli_second < 10 ^ 3

-- At a time whose fields have the digits that the text forms have places for, a formatted text of
-- at most MAX_LOG_INFO_SIZE characters at a level that is not filtered makes a record that fits
-- the buffer of MAX_LOG_BUFFER_SIZE: the date, the level and the text.
pub formatted_record_fits :
    (now : Time) (level : LogLevel) (l : Logger) (text : List ℕ)
    → IsPrintable now
    → length text ≤ 4060
    → rank l.log_level ≤ rank level
    → (date : List ℕ) × (get_data_time_string3 now ≡ ok date)
      × (make_record now level l (formatted (some text)) ≡ ok (some (record_text date level text)))
unfolding make_record into_buffer
formatted_record_fits now level l text h short passes =
    let (date, e, twenty_three) =
      get_data_time_string3_lem now h.year h.month h.day h.hour h.minute h.second h.milli_second in
    let level_ok : ltb (rank level) (rank l.log_level) ≡ false = ge→ltb _ _ passes in
    let tmp_ok : ltb (length text) 40960 ≡ true = lt→ltb _ _ (omega arith) in
    let info_ok : ltb 4060 (length text) ≡ false = ge→ltb _ _ short in
    let fits : ltb (length (record_text date level text)) 4096 ≡ true =
      lt→ltb _ _ (omega (arith, length-record_text date level text twenty_three)) in
    (date, e, rw (level_ok, tmp_ok, info_ok, e, fits) refl)

-- At such a time, a text that is given as it is, of 4096 characters or more and at a level that is
-- not filtered, is written past the buffer.
pub plain_record_overflows :
    (now : Time) (level : LogLevel) (l : Logger) (text : List ℕ)
    → IsPrintable now
    → 4096 ≤ length text
    → rank l.log_level ≤ rank level
    → make_record now level l (plain text) ≡ undefined
unfolding make_record into_buffer
plain_record_overflows now level l text h long passes =
    let (date, e, twenty_three) =
      get_data_time_string3_lem now h.year h.month h.day h.hour h.minute h.second h.milli_second in
    let level_ok : ltb (rank level) (rank l.log_level) ≡ false = ge→ltb _ _ passes in
    let over : ltb (length (record_text date level text)) 4096 ≡ false =
      ge→ltb _ _ (omega (arith, longer date level text)) in
    rw (level_ok, e, over) refl
  where
    longer :
        (date : List ℕ) (level : LogLevel) (text : List ℕ)
        → length text ≤ length (record_text date level text)
    longer date level text =
        unfold record_text in
        omega (
          arith,
          length-append date (b']' ∷ 32 ∷ b'[' ∷ (level_name level ++ (b']' ∷ 32 ∷ text))),
          length-append (level_name level) (b']' ∷ 32 ∷ text),
        )
