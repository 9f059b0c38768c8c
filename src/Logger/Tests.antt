-- ===== src/Logger/Tests.antt =====
-- Records, lines and dumps of small texts, and the theorems at inputs that meet their hypotheses.
use lite_cpplib.Base.{
  ℕ, ◌≡◌, refl, true, Option, some, List, [], ◌∷◌, ◌++◌, replicate, arith, ok, undefined, ◌>>=◌,
  false,
}
use lite_cpplib.Time.{Time, get_data_time_string3}
use lite_cpplib.Logger.{
  LogLevel, Logger, Files, new_logger, write_text, break_line, print_loop, write_screen,
  write_lines, record_text, formatted, make_record,
}
use lite_cpplib.Logger.Settings.{set_limit, set_background_running}
use lite_cpplib.Logger.Background.{
  write_level, log_warn, write_list, run_round, run_background, flush_log,
}
use lite_cpplib.Logger.Records.{IsPrintable, formatted_record_fits}
use lite_cpplib.Logger.Lines.{lines_printed}
use lite_cpplib.Logger.Hex.{debug_hex_string, hex_loop, str_len, line_cnt}
use lite_cpplib.Logger.Hex.Bounds.{debug_hex_string_lem}

abbrev noon : Time
noon = record {
  year = 2014;
  month = 7;
  day = 1;
  hour = 12;
  minute = 0;
  second = 0;
  milli_second = 0;
}

noon-IsPrintable : IsPrintable noon
noon-IsPrintable = omega arith

abbrev debugging : Logger
debugging = record new_logger { log_level = LogLevel.debug }

abbrev long_text : List ℕ
long_text = replicate 4096 b'x'

lines_printed_example :
    ((write_screen new_logger (104 ∷ 10 ∷ 105 ∷ [])).0
      ≡ 104 ∷ 10 ∷ (replicate 34 32 ++ (105 ∷ 10 ∷ [])))
    × (write_lines (write_screen new_logger (104 ∷ 10 ∷ 105 ∷ [])).1 (104 ∷ 10 ∷ 105 ∷ [])
        ≡ 104 ∷ 10 ∷ (replicate 34 32 ++ (105 ∷ 10 ∷ [])))
lines_printed_example =
    lines_printed new_logger ((104 ∷ []) ∷ []) (105 ∷ []) refl ((refl, tt), tt) (refl, tt)

formatted_record_fits_example :
    (date : List ℕ) × (get_data_time_string3 noon ≡ ok date)
    × (make_record noon LogLevel.warn debugging (formatted (some (replicate 4060 b'x')))
        ≡ ok (some (record_text date LogLevel.warn (replicate 4060 b'x'))))
formatted_record_fits_example =
    formatted_record_fits noon LogLevel.warn debugging (replicate 4060 b'x') noon-IsPrintable
      (omega arith) (omega arith)

abbrev file_only : Logger
file_only = record new_logger { output_to_screen = false; output_to_file = true }

debug_hex_string_lem_example :
    (text : Option (List ℕ)) × (debug_hex_string debugging (0x1f ∷ 0xa0 ∷ []) 16 true ≡ ok text)
debug_hex_string_lem_example =
    debug_hex_string_lem debugging (0x1f ∷ 0xa0 ∷ []) 16 true (omega arith) (omega arith)

hex_runs :
    debug_hex_string debugging (0x1f ∷ 0xa0 ∷ 0x07 ∷ []) 2 true
    ≡ ok (some (49 ∷ 70 ∷ 32 ∷ 65 ∷ 48 ∷ 32 ∷ 10 ∷ 48 ∷ 55 ∷ 32 ∷ []))
unfolding debug_hex_string hex_loop str_len line_cnt
hex_runs = refl

-- The size of a line wraps in 32 bits: a buffer of three bytes for four.
hex_wraps : debug_hex_string debugging (7 ∷ []) 1431655766 true ≡ undefined
unfolding debug_hex_string hex_loop str_len line_cnt
hex_wraps = refl

limit_runs : set_limit 4096 new_logger ≡ new_logger
unfolding set_limit
limit_runs = refl

-- Going to the background stops the thread.
background_inverted : (set_background_running true new_logger).running ≡ false
unfolding set_background_running
background_inverted = refl

-- The list for the background is never set: the first record is put on no list.
background_undefined :
    log_warn noon
      (record { first_opens = true; megabytes = 0; second_opens = true })
      (record new_logger { asyn = true })
      (formatted (some (104 ∷ [])))
    ≡ undefined
unfolding log_warn write_level make_record record_text get_data_time_string3
background_undefined = refl

abbrev no_files : Files
no_files = record { first_opens = false; megabytes = 0; second_opens = false }

-- With lists that are there, the first record is written again in the third round.
abbrev waiting : Logger
waiting = record new_logger { log_input = some ((b'a' ∷ []) ∷ []); log_output = some [] }

abbrev logging : Logger → Logger
logging l = record l { log_input = some ((b'b' ∷ []) ∷ []) }

background_runs :
    (run_background
        ((λ l. l, (noon, no_files)) ∷ (logging, (noon, no_files)) ∷ (λ l. l, (noon, no_files)) ∷ [])
        waiting
      >>= (λ r. ok (r.1).0))
    ≡ ok (b'a' ∷ 10 ∷ b'b' ∷ 10 ∷ b'a' ∷ 10 ∷ [])
unfolding run_background run_round write_list write_text write_screen print_loop break_line
background_runs = refl

flush_runs :
    flush_log ((false, waiting) ∷ (false, record waiting { log_input = some [] }) ∷ []) ≡ ok true
unfolding flush_log
flush_runs = refl
