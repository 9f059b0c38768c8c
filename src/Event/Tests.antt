-- ===== src/Event/Tests.antt =====
-- Events over a Boolean object and the theorems at concrete events and waits.
use lite_cpplib.Base.{
  ◌≡◌, ◌<◌, ◌+◌, arith, refl, Bool, true, false, some, [], ◌∷◌, throw, int_minus_one, runtime_error,
}
use lite_cpplib.Event.{
  EventApi, Event, reset_linux, signal_linux, Wake, returned, wait_linux, Timespec, deadline,
}
use lite_cpplib.Event.Windows.{IsDocumented}
use lite_cpplib.Event.Deadline.{nanoseconds, deadline_lem}
use lite_cpplib.Event.Linux.{wait_unlimited_returns}

abbrev flag_api : EventApi
flag_api = record {
  State = Bool;
  created = false;
  set_event = λ _. true;
  reset_event = λ _. false;
  wait_object = λ s. s;
}

flag_api-IsDocumented : IsDocumented flag_api
flag_api-IsDocumented = record {
  created_unset = refl;
  set_signals = λ _. refl;
  reset_clears = λ _. refl;
}

abbrev unset : Event flag_api
unset = record { event_handle = some false }

abbrev noon : Timespec
noon = record { tv_sec = 43200; tv_nsec = 900000000 }

deadline_runs : deadline 1200 noon ≡ record { tv_sec = 43202; tv_nsec = 100000000 }
unfolding deadline
deadline_runs = refl

abbrev spurious : Wake
spurious = record { result = 0; event_state = false }

abbrev broadcast : Wake
broadcast = record { result = 0; event_state = true }

wait_unlimited_returns_example :
    wait_linux 0xffffffff 0 false false (spurious ∷ broadcast ∷ []) ≡ returned true true
wait_unlimited_returns_example =
    wait_unlimited_returns false (spurious ∷ []) broadcast [] (refl, refl, tt) refl refl

reset_fails : reset_linux 22 true ≡ throw int_minus_one
unfolding reset_linux
reset_fails = refl

signal_fails : signal_linux 22 false ≡ throw runtime_error
unfolding signal_linux
signal_fails = refl

deadline_lem_example :
    ((deadline 1500 (record { tv_sec = 10; tv_nsec = 600000000 })).tv_nsec < 1000000000)
    × (nanoseconds (deadline 1500 (record { tv_sec = 10; tv_nsec = 600000000 }))
        ≡ 10600000000 + 1500000000)
deadline_lem_example = deadline_lem 1500 (record { tv_sec = 10; tv_nsec = 600000000 }) (omega arith)
