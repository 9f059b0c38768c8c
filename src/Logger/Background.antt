-- ===== src/Logger/Background.antt =====
-- Where the records of the logger go (tools/logger.h): written at once, or by the background thread.
use lite_cpplib.Base.{
  ℕ, Bool, true, false, Option, none, some, List, [], ◌∷◌, ◌++◌, if◌then◌else◌, Outcome, ok, ◌>>=◌,
  defined,
}
use lite_cpplib.Time.{Time}
use lite_cpplib.Logger.{LogLevel, Logger, Files, Text, make_record, write_text}

-- _Write(level, fmt_text, va) and _Write(level, text): a record goes to the background's list, or is
-- written.
unfoldable pub write_level :
    Time → Files → LogLevel → Logger → Text → Outcome (Logger × (List ℕ × Option (List ℕ × List ℕ)))
unfolding make_record write_text
write_level now files level l text = do
  made ← make_record now level l text
  elim made [
    | none ↦ ok (l, ([], none))
    | some log_text ↦
        let queued : Outcome (Logger × (List ℕ × Option (List ℕ × List ℕ))) = do
          waiting ← defined l.log_input
          ok (record l { log_input = some (waiting ++ (log_text ∷ [])) }, ([], none))
        in if l.asyn then queued else write_text now files l log_text
  ]

-- The records of one list, written one after the other: the screen's output and the files'.
unfoldable pub write_list :
    Time → Files → List (List ℕ) → Logger → Outcome (Logger × (List ℕ × List (List ℕ × List ℕ)))
unfolding write_text
write_list now files [] l = ok (l, ([], []))
write_list now files (text ∷ texts) l = do
  (l', (screen, filed)) ← write_text now files l text
  (l2, (screens, all_filed)) ← write_list now files texts l'
  ok (l2, (screen ++ screens, elim filed [ none ↦ all_filed | some f ↦ f ∷ all_filed ]))

-- A round of _Run: the lists are exchanged if there is something to write, and what came in is written.
-- The list that is written is not cleared.
unfoldable pub run_round :
    Time → Files → Logger → Outcome (Logger × (List ℕ × List (List ℕ × List ℕ)))
unfolding write_list
run_round now files l = do
  log_input ← defined l.log_input
  elim log_input [
    | [] ↦ ok (l, ([], []))
    | t ∷ ts ↦
        write_list now files (t ∷ ts)
          (record l { log_input = l.log_output; log_output = some (t ∷ ts) })
  ]

-- The rounds of _Run until the thread is signalled, which the end of the list stands for; before each,
-- what the other threads have made of the logger. It returns 0.
unfoldable pub run_background :
    List ((Logger → Logger) × (Time × Files))
    → Logger
    → Outcome (Logger × (List ℕ × List (List ℕ × List ℕ)))
unfolding run_round
run_background [] l = ok (l, ([], []))
run_background ((others, (now, files)) ∷ rounds) l = do
  (l', (screen, filed)) ← run_round now files (others l)
  (l2, (screens, all_filed)) ← run_background rounds l'
  ok (l2, (screen ++ screens, filed ++ all_filed))

-- Flush(), over what it finds at each look: whether the thread is signalled, and the logger. Whether it
-- has returned when the looks are over.
unfoldable pub flush_log : List (Bool × Logger) → Outcome Bool
flush_log [] = ok false
flush_log ((signalled, l) ∷ looks) =
    let rest = flush_log looks in
    let looks_on : Outcome Bool = do
      log_input ← defined l.log_input
      elim log_input [ [] ↦ ok true | _ ∷ _ ↦ rest ]
    in if signalled then ok true else looks_on

-- What a call of the logger comes to.
abbrev pub Written : Type 0
Written = Outcome (Logger × (List ℕ × Option (List ℕ × List ℕ)))

-- Trace(text) and Trace(fmt_text, ...)
unfoldable pub log_trace : Time → Files → Logger → Text → Written
unfolding write_level
log_trace now files l text = write_level now files LogLevel.trace l text

-- Debug(text) and Debug(fmt_text, ...)
unfoldable pub log_debug : Time → Files → Logger → Text → Written
unfolding write_level
log_debug now files l text = write_level now files LogLevel.debug l text

-- Info(text) and Info(fmt_text, ...)
unfoldable pub log_info : Time → Files → Logger → Text → Written
unfolding write_level
log_info now files l text = write_level now files LogLevel.info l text

-- Warn(text) and Warn(fmt_text, ...)
unfoldable pub log_warn : Time → Files → Logger → Text → Written
unfolding write_level
log_warn now files l text = write_level now files LogLevel.warn l text

-- Error(text) and Error(fmt_text, ...)
unfoldable pub log_error : Time → Files → Logger → Text → Written
unfolding write_level
log_error now files l text = write_level now files LogLevel.error l text

-- Fatal(text) and Fatal(fmt_text, ...)
unfoldable pub log_fatal : Time → Files → Logger → Text → Written
unfolding write_level
log_fatal now files l text = write_level now files LogLevel.fatal l text
