-- ===== src/Timer/Tests.antt =====
-- A timer opened and closed with concrete answers, and the theorems there.
use lite_cpplib.Base.{
  ◌≡◌, refl, Bool, true, false, ◌&&◌, none, some, [], ◌∷◌, arith, ok, throw, invalid_param,
}
use lite_cpplib.Event.{EventApi, Event, wait, reset, signal}
use lite_cpplib.Event.Windows.{IsDocumented}
use lite_cpplib.Thread.{new_thread, wait_object_0, ended}
use lite_cpplib.Thread.Stopping.{IsEnding, has_ended}
use lite_cpplib.Timer.{
  timer_default, TimerHostThread, new_host, Timer, new_timer, begin_callback, end_callback, Shared,
  Activation, activate, activate_as, open_timer,
}
use lite_cpplib.Timer.Counting.{IsCounted, activate_lem}
use lite_cpplib.Timer.Hosting.{IsReady, span_0_ends_program, open_then_close}

abbrev flag_api : EventApi
flag_api = record {
  State = Bool;
  created = false;
  set_event = λ _. true;
  reset_event = λ _. false;
  wait_object = λ s. s;
}

flag_api-IsDocumented : IsDocumented flag_api
flag_api-IsDocumented = record {
  created_unset = refl;
  set_signals = λ _. refl;
  reset_clears = λ _. refl;
}

abbrev unset : Event flag_api
unset = record { event_handle = some false }

abbrev fresh : TimerHostThread flag_api
fresh = record {
  thread = record { name = []; id = 0; event = unset; thread_handle = none };
  event_action = unset;
  event_done = unset;
  timer = none;
  timespan = 0;
  user_data = none;
  ret = false;
}

fresh_made : new_host flag_api unset unset unset ≡ fresh
unfolding new_host new_thread
fresh_made = refl

fresh-IsReady : IsReady flag_api flag_api-IsDocumented fresh
fresh-IsReady = record {
  thread_event = (false, refl);
  action = (false, refl);
  done = (false, refl);
}

abbrev host : TimerHostThread flag_api
host = record fresh { thread = record (fresh.thread) { thread_handle = some 9 } }

host-IsReady : IsReady flag_api flag_api-IsDocumented host
host-IsReady = record { thread_event = (false, refl); action = (false, refl); done = (false, refl) }

-- A timer of a second.
abbrev timer : Timer flag_api
timer = record {
  type_of = timer_default;
  time_span = 1000;
  not_running = unset;
  is_started = false;
  timer_handle = none;
  timer_id = 0;
}

default_span : new_timer flag_api 0 timer_default unset ≡ timer
unfolding new_timer reset
default_span = refl

callback_ends :
    wait flag_api (end_callback flag_api (begin_callback flag_api timer)).not_running ≡ true
unfolding end_callback begin_callback wait signal reset
callback_ends = refl

abbrev no_timer : Shared flag_api
no_timer = record { default_timer_counter = 0; timer_host_thread = none }

-- The system grants everything, and the host's thread ends at the first look.
abbrev granted : Activation
granted = record {
  creates = some 50;
  thread_made = some (9, 5);
  resumed = 0;
  times_out = true;
  sets = true;
  event_id = 3;
  t1 = 0;
  resumptions = record { result = 0; ticks = 1 } ∷ [];
  looks = record { ticks = 2; result = wait_object_0 } ∷ [];
}

-- CreateWaitableTimer fails.
abbrev refused : Activation
refused = record granted { creates = none }

timer-IsCounted : IsCounted flag_api 0 timer no_timer
timer-IsCounted = record {
  shared = record { counts = refl; hosted = refl };
  started = refl;
  fits = tt;
}

activate_lem_example :
    IsCounted flag_api 0 (record timer { not_running = signal flag_api unset }) no_timer
    × (false ≡ (false && true))
unfolding activate open_timer
activate_lem_example =
    activate_lem flag_api true 7 fresh refused 0 timer no_timer false
      (record timer { not_running = signal flag_api unset }) no_timer timer-IsCounted refl

span_0_ends_program_example :
    activate_as flag_api 0 timer_default 7 fresh granted timer no_timer ≡ throw invalid_param
span_0_ends_program_example =
    span_0_ends_program flag_api flag_api-IsDocumented 7 fresh granted 50 9 5 timer no_timer refl
      fresh-IsReady refl refl refl refl refl

granted-IsEnding : IsEnding 0xffffffff granted.t1 granted.resumptions granted.looks
granted-IsEnding = record {
  suspended = 0;
  counts = (refl, tt);
  enough = omega arith;
  before = [];
  last = record { ticks = 2; result = wait_object_0 };
  after = [];
  splits = refl;
  running = tt;
  left = ended;
  decides = has_ended (omega arith) refl;
}

open_then_close_example :
    (t1 t2 : Timer flag_api) × (g1 : Shared flag_api) × (activate flag_api true 7 fresh granted
        timer no_timer
      ≡ ok (some (true, (t1, g1))))
    × (t1.timer_handle ≡ some 50)
    × (g1.default_timer_counter ≡ 1)
    × (activate flag_api false 7 fresh granted t1 g1 ≡ ok (some (true, (t2, no_timer))))
    × (t2.timer_handle ≡ none)
    × (t2.is_started ≡ false)
open_then_close_example =
    open_then_close flag_api flag_api-IsDocumented 7 fresh granted granted 50 9 5 timer no_timer
      refl refl (omega arith) (false, refl) refl refl fresh-IsReady refl refl refl refl refl
      granted-IsEnding
