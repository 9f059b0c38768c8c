-- ===== src/Thread/Tests.antt =====
-- Threads started and stopped with concrete answers, and the theorems there.
use lite_cpplib.Base.{
  ok, ◌≡◌, refl, true, false, Bool, none, some, List, [], ◌∷◌, arith, throw, runtime_error,
}
use lite_cpplib.Event.{EventApi, signal}
use lite_cpplib.Event.Windows.{IsDocumented, HasHandle}
use lite_cpplib.Thread.{
  Thread, signal_thread, signalled, start, create_thread, Resumption, Look, wait_timeout,
  wait_object_0, ended, stop, destroy, resume_loop, wait_loop, ThreadLinux, Creation, start_linux,
  create_linux, Test,
}
use lite_cpplib.Thread.Stopping.{has_ended, start_again_cancels, stop_lem}
use lite_cpplib.Thread.Loop.{
  loop_ended, loop_running, rounds_linux, IsAnswered, linux_loop_inverted,
}

abbrev flag_api : EventApi
flag_api = record {
  State = Bool;
  created = false;
  set_event = λ _. true;
  reset_event = λ _. false;
  wait_object = λ s. s;
}

flag_api-IsDocumented : IsDocumented flag_api
flag_api-IsDocumented = record {
  created_unset = refl;
  set_signals = λ _. refl;
  reset_clears = λ _. refl;
}

-- The thread 9 runs.
abbrev running : Thread flag_api
running = record {
  name = b'w' ∷ [];
  id = 4;
  event = record { event_handle = some false };
  thread_handle = some 9;
}

-- It was suspended once; the clock wraps between two answers.
abbrev resumptions : List Resumption
resumptions =
    record { result = 1; ticks = 4294967290 } ∷ record { result = 0; ticks = 4294967291 } ∷ []

abbrev first_look : Look
first_look = record { ticks = 4294967292; result = wait_timeout }

abbrev last_look : Look
last_look = record { ticks = 11; result = wait_object_0 }

stop_runs :
    stop flag_api 500 4294967290 resumptions (first_look ∷ last_look ∷ []) running
    ≡ some (
      ended,
      record running { thread_handle = none; event = record { event_handle = some true } },
    )
unfolding stop resume_loop wait_loop signal_thread signal
stop_runs = refl

destroy_unstarted :
    destroy flag_api 0 [] [] (record running { thread_handle = none })
    ≡ some (none, record running { thread_handle = none })
unfolding destroy
destroy_unstarted = refl

start_fails : start flag_api none 0 (record running { thread_handle = none }) ≡ throw runtime_error
unfolding start create_thread
start_fails = refl

-- A creation that fails still sets the id.
abbrev failed_creation : Creation
failed_creation = record {
  attr_init = 0;
  attr_setstacksize = 0;
  attr_setdetachstate = 0;
  create = 11;
  handle = 77;
}

abbrev unstarted_linux : ThreadLinux
unstarted_linux = record { id_linux = 0; event_state = false; handle_linux = 0 }

start_linux_fails : start_linux failed_creation 0 unstarted_linux ≡ throw runtime_error
unfolding start_linux create_linux
start_linux_fails = refl

stop_lem_example :
    (t : Thread flag_api) × (stop flag_api 500 4294967290 resumptions
        (first_look ∷ last_look ∷ [])
        running
      ≡ some (ended, t))
    × (t.thread_handle ≡ none)
    × (signalled flag_api t ≡ true)
    × (t.name ≡ running.name)
    × (t.id ≡ 4)
    × HasHandle flag_api t.event
stop_lem_example =
    stop_lem flag_api flag_api-IsDocumented 500 4294967290 1 resumptions (first_look ∷ []) last_look
      [] ended running (refl, (refl, tt)) (omega arith) (omega arith, refl, tt)
      (has_ended (omega arith) refl) (false, refl)

start_again_cancels_example :
    (t : Thread flag_api) × (start flag_api none 0 (signal_thread flag_api running) ≡ ok (true, t))
    × (t.thread_handle ≡ some 9)
    × (t.id ≡ 4)
    × (signalled flag_api t ≡ false)
start_again_cancels_example =
    start_again_cancels flag_api flag_api-IsDocumented none 9 0 running (false, refl) refl

-- The sleep's time has passed: it ends in ETIMEDOUT.
abbrev a_test : Test
a_test = record {
  lock_result = 0;
  clock_fails = false;
  wakes = record { result = 110; event_state = true } ∷ [];
}

a_test-IsAnswered : IsAnswered a_test
a_test-IsAnswered = record {
  locks = refl;
  reads_clock = refl;
  first = record { result = 110; event_state = true };
  later = [];
  sleeps = refl;
  times_out = refl;
}

linux_loop_inverted_example :
    (rounds_linux false (a_test ∷ a_test ∷ []) ≡ loop_ended 0)
    × (rounds_linux true (a_test ∷ a_test ∷ []) ≡ loop_running 2)
linux_loop_inverted_example =
    linux_loop_inverted a_test (a_test ∷ []) a_test-IsAnswered (a_test-IsAnswered, tt)
