-- ===== src/WorkQueue/Tests.antt =====
-- Work queues run on small inputs, and the theorems at queues that meet their hypotheses.
use lite_cpplib.Base.{◌≡◌, ◌≢◌, refl, Bool, true, false, none, some, [], ◌∷◌, ◌++◌, arith, ok}
use lite_cpplib.ByteOrder.{win}
use lite_cpplib.Event.{EventApi, Event, signal}
use lite_cpplib.Event.Windows.{IsDocumented}
use lite_cpplib.WorkQueue.{
  Work, work_of_data, Heap, WorkQueue, new_queue, update, map_insert, queue_work, dequeue_work,
  idle, set_default_work_func,
}
use lite_cpplib.WorkQueue.Pending.{find_node}
use lite_cpplib.WorkQueue.Wellformed.{IsWellformed, pending}
use lite_cpplib.WorkQueue.Removal.{occurrences, AllAlive}
use lite_cpplib.WorkQueue.Machine.{
  Pc, Machine, started, worker_step, Reach, start, later, work, queue,
}
use lite_cpplib.WorkQueue.Machine.Live.{at_work, machine}
use lite_cpplib.WorkQueue.Machine.Wakeup.{wakes_up, idle_means_idle, dequeue_is_safe}
use lite_cpplib.WorkQueue.Machine.Order.{called, holding, Run}
use lite_cpplib.WorkQueue.Machine.Fifo.{first_in_first_out}

abbrev flag_api : EventApi
flag_api = record {
  State = Bool;
  created = false;
  set_event = λ _. true;
  reset_event = λ _. false;
  wait_object = λ s. s;
}

flag_api-IsDocumented : IsDocumented flag_api
flag_api-IsDocumented = record {
  created_unset = refl;
  set_signals = λ _. refl;
  reset_clears = λ _. refl;
}

abbrev unset : Event flag_api
unset = record { event_handle = some false }

abbrev plain : Work
plain = work_of_data win none

-- Every address holds a work without a function of its own.
abbrev full : Heap
full = λ _. some plain

abbrev no_work : WorkQueue flag_api
no_work = new_queue flag_api unset

no_work-IsWellformed : IsWellformed no_work
no_work-IsWellformed = record { known = λ w n h. grind arith; below = tt }

-- The works 7 and 8 are queued.
abbrev two_works : WorkQueue flag_api
two_works = record no_work {
  queue_event = record { event_handle = some true };
  work_list = record { id = 0; work = 7 } ∷ record { id = 1; work = 8 } ∷ [];
  work_map = update 8 (some 1) (update 7 (some 0) (λ _. none));
  next_node = 2;
}

two_works-IsWellformed : IsWellformed two_works
unfolding update find_node
two_works-IsWellformed = record { known = λ w n h. ground arith; below = omega arith }

queue_runs :
    queue_work flag_api 1 8 (no_work, full)
    ≡ ok (
      record no_work {
        queue_event = record { event_handle = some true };
        work_list = record { id = 0; work = 8 } ∷ [];
        work_map = update 8 (some 0) (λ _. none);
        next_node = 1;
      },
      update 8 (some (record plain { thread = some 1 })) full,
    )
unfolding queue_work map_insert signal
queue_runs = refl

flush_runs : occurrences 7 (pending two_works) ≡ 1
unfolding occurrences
flush_runs = refl

-- The work 7 is queued twice.
abbrev twice : WorkQueue flag_api
twice = record two_works {
  work_list = record { id = 0; work = 7 } ∷ record { id = 1; work = 7 } ∷ [];
  work_map = update 7 (some 0) (λ _. none);
}

two_works_alive : AllAlive flag_api full (pending two_works)
unfolding occurrences
two_works_alive = ((plain, refl), refl, ((plain, refl), refl, tt))

abbrev idle_start : Machine flag_api
idle_start = started flag_api unset full

-- The work 8 is queued while the worker is in its wait.
abbrev busy_start : Machine flag_api
busy_start = record idle_start {
  queue = record no_work {
    queue_event = record { event_handle = some true };
    work_list = record { id = 0; work = 8 } ∷ [];
    work_map = map_insert 8 0 (λ _. none);
    next_node = 1;
  };
  heap = update 8 (some (record plain { thread = some 1 })) full;
  pc = Pc.waiting;
}

waits : Reach flag_api 1 unset full (record idle_start { pc = Pc.waiting })
unfolding worker_step
waits = later start (work refl)

woken : Reach flag_api 1 unset full busy_start
unfolding queue_work map_insert signal
woken = later waits (queue 8 refl)

some_work : pending busy_start.queue ≢ []
some_work h = grind arith

wakes_up_example : worker_step flag_api busy_start ≡ ok (record busy_start { pc = Pc.resetting })
wakes_up_example =
    wakes_up flag_api-IsDocumented {queue_event = unset} (false, refl) busy_start woken refl
      some_work refl

idle_means_idle_example : (pending idle_start.queue ≡ []) × (at_work idle_start.pc ≡ false)
unfolding idle
idle_means_idle_example =
    idle_means_idle flag_api-IsDocumented {this = 1} {queue_event = unset} (false, refl) idle_start
      start refl

dequeue_is_safe_example :
    (t : WorkQueue flag_api) × (dequeue_work flag_api 8 busy_start.queue ≡ ok t)
dequeue_is_safe_example =
    dequeue_is_safe flag_api-IsDocumented {queue_event = unset} (false, refl) busy_start 8 woken

abbrev with_default : Machine flag_api
with_default = machine (set_default_work_func flag_api (some 5) no_work) full Pc.outer false []

abbrev one_queued : Machine flag_api
one_queued = record with_default {
  queue = record (with_default.queue) {
    queue_event = record { event_handle = some true };
    work_list = record { id = 0; work = 8 } ∷ [];
    work_map = map_insert 8 0 (λ _. none);
    next_node = 1;
  };
  heap = update 8 (some (record plain { thread = some 1 })) full;
}

one_run : Run flag_api 1 unset full 5 (8 ∷ []) one_queued
unfolding queue_work map_insert signal
one_run = Run.queued 8 Run.start refl

first_in_first_out_example :
    8 ∷ []
    ≡ called one_queued.calls
      ++ (holding one_queued.pc one_queued.queue.current_work ++ pending one_queued.queue)
first_in_first_out_example = first_in_first_out (8 ∷ []) one_queued one_run
