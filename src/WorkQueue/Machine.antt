-- ===== src/WorkQueue/Machine.antt =====
-- WorkQueue::_Run (tools/work_queue.h) as a thread among others: one step is what happens between two
-- points at which another thread can come in.
pub mod Live
pub mod Clients
pub mod Wakeup
pub mod Order
pub mod Fifo
use lite_cpplib.Base.{
  ℕ, ◌≡◌, Bool, true, false, Option, none, some, List, [], ◌++◌, if◌then◌else◌, Outcome, ok, ◌>>=◌,
}
use lite_cpplib.Event.{EventApi, Event, reset, wait}
use lite_cpplib.WorkQueue.{
  Heap, WorkQueue, new_queue, queue_work, dequeue_work, flush, take_work, call_of, finish_work,
}

-- Where the worker is: at the test of the outer loop, in Wait, before Reset, at the test of the inner
-- loop, before the lock, before the call, in the call, and behind the loops.
pub data Pc : Type 0 where
  outer waiting resetting inner taking executing in_call returned : Pc

pub record Machine (api : EventApi) : Type 0 where
  pub queue : WorkQueue api
  pub heap : Heap
  pub pc : Pc
  pub signalled : Bool
  pub calls : List (ℕ × ℕ)

-- The thread is started on a queue that was just made.
abbrev pub started : (api : EventApi) → Event api → Heap → Machine api
started api queue_event heap = record {
  queue = new_queue api queue_event;
  heap = heap;
  pc = Pc.outer;
  signalled = false;
  calls = [];
}

module _ (api : EventApi) where
  -- The locked part that takes a work, or leaves the inner loop.
  unfoldable pub try_take : Machine api → Machine api
  unfolding take_work
  try_take m = elim (take_work api m.queue) [
    | none ↦ record m { pc = Pc.outer }
    | some q ↦ record m { queue = q; pc = Pc.executing }
  ]

  -- The worker's next step. The event is read when the wait ends; a wait that times out goes back to
  -- the outer test. `calls` collects the functions that are called.
  unfoldable pub worker_step : Machine api → Outcome (Machine api)
  unfolding wait reset try_take call_of
  worker_step m = elim m.pc [
    | Pc.outer ↦ ok (record m { pc = if m.signalled then Pc.returned else Pc.waiting })
    | Pc.waiting ↦
        ok (record m { pc = if wait api m.queue.queue_event then Pc.resetting else Pc.outer })
    | Pc.resetting ↦ ok (record m {
      queue = record (m.queue) { queue_event = reset api m.queue.queue_event };
      pc = Pc.inner;
    })
    | Pc.inner ↦ ok (record m { pc = if m.signalled then Pc.outer else Pc.taking })
    | Pc.taking ↦ ok (try_take m)
    | Pc.executing ↦ do
      call ← call_of api m.queue m.heap
      ok (record m { calls = m.calls ++ call; pc = Pc.in_call })
    | Pc.in_call ↦ ok (record m { queue = finish_work api m.queue; pc = Pc.inner })
    | Pc.returned ↦ ok m
  ]

  -- What can happen next: a step of the worker, or of a client or of the called work function, which
  -- may also write to the works, or a request to stop.
  pub data Step (this : ℕ) (m : Machine api) : Machine api → Type 0 where
    work : {t : Machine api} → worker_step m ≡ ok t → Step this m t
    queue :
        (w : ℕ) {q : WorkQueue api} {heap : Heap}
        → queue_work api this w (m.queue, m.heap) ≡ ok (q, heap)
        → Step this m (record m { queue = q; heap = heap })
    dequeue :
        (w : ℕ) {q : WorkQueue api}
        → dequeue_work api w m.queue ≡ ok q
        → Step this m (record m { queue = q })
    flushed :
        (delete_work_flag : Bool) {q : WorkQueue api} {heap : Heap}
        → flush api delete_work_flag (m.queue, m.heap) ≡ ok (q, heap)
        → Step this m (record m { queue = q; heap = heap })
    write : (heap : Heap) → Step this m (record m { heap = heap })
    stop : Step this m (record m { signalled = true })

  pub data Reach (this : ℕ) (queue_event : Event api) (heap : Heap) : Machine api → Type 0 where
    start : Reach this queue_event heap (started api queue_event heap)
    later :
        {m t : Machine api}
        → Reach this queue_event heap m
        → Step this m t
        → Reach this queue_event heap t
