-- ===== src/Logger.antt =====
-- tools/logger.h: the levels, the settings, the layout of a record, and what is written where.
pub mod Settings
pub mod Background
pub mod Records
pub mod Lines
pub mod Hex
mod Tests
use lite_cpplib.Base.{
  ℕ, zero, suc, ◌+◌, ◌-◌, ◌*◌, ◌/◌, ◌%◌, ◌^◌, Bool, true, false, not, ◌&&◌, ◌||◌, Option, none,
  some, List, [], ◌∷◌, ◌++◌, length, replicate, ltb, leb, ◌==◌, if◌then◌else◌, Outcome, ok,
  undefined, ◌>>=◌, defined, u32,
}
use lite_cpplib.Time.{Time, get_data_time_string2, get_data_time_string3}

-- MAX_LOG_BUFFER_SIZE and MAX_LOG_INFO_SIZE
abbrev pub max_log_buffer_size : ℕ
max_log_buffer_size = 4096

abbrev pub max_log_info_size : ℕ
max_log_info_size = 4060

-- LOGLEVEL (tools/ilogger.h), from the lowest to the highest
pub data LogLevel : Type 0 where
  trace debug info warn error fatal : LogLevel

abbrev pub rank : LogLevel → ℕ
rank trace = 0
rank debug = 1
rank info = 2
rank warn = 3
rank error = 4
rank fatal = 5

-- level_name_list
abbrev pub level_name : LogLevel → List ℕ
level_name trace = b'T' ∷ b'r' ∷ b'a' ∷ b'c' ∷ b'e' ∷ []
level_name debug = b'D' ∷ b'e' ∷ b'b' ∷ b'u' ∷ b'g' ∷ []
level_name info = b'I' ∷ b'n' ∷ b'f' ∷ b'o' ∷ []
level_name warn = b'W' ∷ b'a' ∷ b'r' ∷ b'n' ∷ []
level_name error = b'E' ∷ b'r' ∷ b'r' ∷ b'o' ∷ b'r' ∷ []
level_name fatal = b'F' ∷ b'a' ∷ b't' ∷ b'a' ∷ b'l' ∷ []

-- Logger::LogInfo
pub record LogInfo : Type 0 where
  pub log_id : ℕ
  pub info_level : LogLevel
  pub has_param : Bool
  pub log_text : List ℕ

-- class Logger. `log_input` and `log_output` are what the pointers lead to, none as long as they are
-- uninitialised; `running` tells whether Start or Stop of the thread was called last.
pub record Logger : Type 0 where
  pub log_level : LogLevel
  pub module_name : List ℕ
  pub path_name : List ℕ
  pub log_filename : List ℕ
  pub filesize_limit : ℕ
  pub output_to_file : Bool
  pub output_to_screen : Bool
  pub asyn : Bool
  pub log_map : ℕ → Option LogInfo
  pub log_input : Option (List (List ℕ))
  pub log_output : Option (List (List ℕ))
  pub running : Bool

-- Logger()
abbrev pub new_logger : Logger
new_logger = record {
  log_level = info;
  module_name = [];
  path_name = [];
  log_filename = [];
  filesize_limit = 10;
  output_to_file = false;
  output_to_screen = true;
  asyn = false;
  log_map = λ _. none;
  log_input = none;
  log_output = none;
  running = false;
}

-- _NewLogFileName
unfoldable pub new_log_file_name : Time → Logger → Outcome (List ℕ)
new_log_file_name now l = do
  cur_datetime ← get_data_time_string2 now
  let ending = l.module_name ++ (cur_datetime ++ (b'.' ∷ b'l' ∷ b'o' ∷ b'g' ∷ []))
  ok (elim l.path_name [
    | [] ↦ b'l' ∷ b'o' ∷ b'g' ∷ 92 ∷ ending
    | c ∷ cs ↦ (c ∷ cs) ++ (92 ∷ ending)
  ])

-- `strstr(text, "\n")`: what is in front of the first newline, and what is behind it.
unfoldable pub break_line : List ℕ → Option (List ℕ × List ℕ)
break_line [] = none
break_line (c ∷ cs) =
    let rest = break_line cs in
    if c == 10
    then some ([], cs)
    else elim rest [ none ↦ none | some (line, after) ↦ some (c ∷ line, after) ]

abbrev pub newline_if : List ℕ → List ℕ → List ℕ
newline_if [] out = []
newline_if (_ ∷ _) out = out ++ (10 ∷ [])

-- The blanks under the head of a record, if a line follows.
abbrev pub indent : List ℕ → List ℕ
indent [] = []
indent (_ ∷ _) = replicate 34 32

-- The loop that prints a text line by line on the screen: the output, and the text behind the last
-- newline. The fuel is one round for every character.
unfoldable pub print_loop : ℕ → List ℕ → List ℕ × List ℕ
unfolding break_line
print_loop zero text = ([], text)
print_loop (suc fuel) text = elim (break_line text) [
  | none ↦ ([], text)
  | some (line, after) ↦
      let rest = print_loop fuel after in (line ++ (10 ∷ (indent after ++ rest.0)), rest.1)
]

-- The loop that writes a text line by line to the file, in the same way.
unfoldable pub file_loop : ℕ → List ℕ → List ℕ × List ℕ
unfolding break_line
file_loop zero log_text = ([], log_text)
file_loop (suc fuel) log_text = elim (break_line log_text) [
  | none ↦ ([], log_text)
  | some (line, after) ↦
      let rest = file_loop fuel after in (line ++ (10 ∷ (indent after ++ rest.0)), rest.1)
]

-- What goes to the screen, and where `text` points to afterwards.
unfoldable pub write_screen : Logger → List ℕ → List ℕ × List ℕ
unfolding print_loop
write_screen l text =
    let printed = print_loop (length text) text in
    if l.output_to_screen
    then (printed.0 ++ newline_if printed.1 printed.1, printed.1)
    else ([], text)

-- What goes to the file: the last test is on `text`, which the screen's loop has moved.
unfoldable pub write_lines : List ℕ → List ℕ → List ℕ
unfolding file_loop
write_lines text log_text =
    let printed = file_loop (length log_text) log_text in printed.0 ++ newline_if text printed.1

-- The file system's answers: whether each `fopen` succeeds, and the megabytes of the first file.
pub record Files : Type 0 where
  pub first_opens : Bool
  pub megabytes : ℕ
  pub second_opens : Bool

-- A file that has reached its limit is closed, and a new one opened.
unfoldable pub rotate : Time → Files → Logger → List ℕ → Outcome (List ℕ × Bool)
unfolding new_log_file_name
rotate now files l name =
    let fresh : Outcome (List ℕ × Bool) = do
      log_filename ← new_log_file_name now l
      ok (log_filename, files.second_opens)
    in if files.first_opens && leb l.filesize_limit files.megabytes
      then fresh
      else ok (name, files.first_opens)

-- The name of the log file behind the test of its size, and whether it is open.
unfoldable pub log_file : Time → Files → Logger → Outcome (List ℕ × Bool)
unfolding new_log_file_name rotate
log_file now files l = do
  name ← elim l.log_filename [ [] ↦ new_log_file_name now l | c ∷ cs ↦ ok (c ∷ cs) ]
  rotate now files l name

-- _Write(text): the logger afterwards, what the screen gets, and what the file gets, if one is open.
unfoldable pub write_text :
    Time → Files → Logger → List ℕ → Outcome (Logger × (List ℕ × Option (List ℕ × List ℕ)))
unfolding write_screen write_lines log_file
write_text now files l text =
    let screen = write_screen l text in
    let filed : Outcome (Logger × (List ℕ × Option (List ℕ × List ℕ))) = do
      (name, opens) ← log_file now files l
      ok (
        record l { log_filename = name },
        (screen.0, if opens then some (name, write_lines screen.1 text) else none),
      )
    in if l.output_to_file then filed else ok (l, (screen.0, none))

-- "[%s] [%s] %s"
unfoldable pub record_text : List ℕ → LogLevel → List ℕ → List ℕ
record_text date level text =
    b'[' ∷ (date ++ (b']' ∷ 32 ∷ b'[' ∷ (level_name level ++ (b']' ∷ 32 ∷ text))))

-- `sprintf` into the buffer of MAX_LOG_BUFFER_SIZE bytes
unfoldable pub into_buffer : List ℕ → Outcome (List ℕ)
into_buffer text = if ltb (length text) max_log_buffer_size then ok text else undefined

-- The record that _Write(level, fmt_text, va) makes, none where it returns early. The text comes as it
-- is (`va` is NULL), or from vsprintf, which fails or fills a buffer ten times as large.
pub data Text : Type 0 where
  plain : List ℕ → Text
  formatted : Option (List ℕ) → Text

unfoldable pub make_record : Time → LogLevel → Logger → Text → Outcome (Option (List ℕ))
unfolding record_text into_buffer
make_record now level l (plain fmt_text) =
    let made : Outcome (Option (List ℕ)) = do
      date ← get_data_time_string3 now
      log_text ← into_buffer (record_text date level fmt_text)
      ok (some log_text)
    in if ltb (rank level) (rank l.log_level) then ok none else made
make_record now level l (formatted none) = ok none
make_record now level l (formatted (some log_tmp)) =
    let made : Outcome (Option (List ℕ)) = do
      date ← get_data_time_string3 now
      log_text ← into_buffer (record_text date level log_tmp)
      ok (some log_text)
    in if ltb (rank level) (rank l.log_level)
      then ok none
      else if not (ltb (length log_tmp) (max_log_buffer_size * 10))
      then undefined
      else if ltb max_log_info_size (length log_tmp)
      then ok none
      else made
