-- ===== src/Logger/Settings.antt =====
-- The settings of the logger (tools/logger.h).
use lite_cpplib.Base.{ℕ, Bool, true, false, not, ◌||◌, some, List, ltb, ◌==◌, if◌then◌else◌}
use lite_cpplib.Logger.{LogLevel, Logger}

-- SetModule
abbrev pub set_module : List ℕ → Logger → Logger
set_module module_name l = record l { module_name = module_name }

-- SetPath
abbrev pub set_path : List ℕ → Logger → Logger
set_path path_name l = record l { path_name = path_name }

-- SetOutputToFile
abbrev pub set_output_to_file : Bool → Logger → Logger
set_output_to_file out_to_file l = record l { output_to_file = out_to_file }

-- SetOutputToScreen
abbrev pub set_output_to_screen : Bool → Logger → Logger
set_output_to_screen out_to_screen l = record l { output_to_screen = out_to_screen }

-- SetLogLevel
abbrev pub set_log_level : LogLevel → Logger → Logger
set_log_level log_level l = record l { log_level = log_level }

-- SetLimit
unfoldable pub set_limit : ℕ → Logger → Logger
set_limit file_size l =
    if ltb 2048 file_size || file_size == 0 then l else record l { filesize_limit = file_size }

abbrev bool_eq : Bool → Bool → Bool
bool_eq true b = b
bool_eq false b = not b

-- SetBackgroundRunning
unfoldable pub set_background_running : Bool → Logger → Logger
set_background_running asyn l =
    if bool_eq l.asyn asyn
    then l
    else if asyn
    then record l { running = false; asyn = asyn }
    else record l { running = true; asyn = asyn }

-- SetLogInfo
unfoldable pub set_log_info : ℕ → LogLevel → Bool → List ℕ → Logger → Logger
set_log_info id level has_param log_text l = record l {
  log_map = λ k.
      if k == id
      then some
          (record { log_id = id; info_level = level; has_param = has_param; log_text = log_text })
      else l.log_map k;
}
