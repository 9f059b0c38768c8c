-- ===== src/WorkQueue/Machine/Wakeup.antt =====
-- What holds of the queue and its thread, whatever the threads do in whatever order
-- (tools/work_queue.h).
use lite_cpplib.Base.{
  ℕ, ◌≡◌, ◌≢◌, refl, sym, ap₂, ◌∙◌, inl, inr, Bool, true, false, ◌||◌, [], if◌then◌else◌, arith,
  List-cases, ok,
}
use lite_cpplib.Event.{EventApi, Event, wait}
use lite_cpplib.Event.Windows.{IsDocumented, HasHandle}
use lite_cpplib.WorkQueue.{Heap, WorkQueue, dequeue_work, idle}
use lite_cpplib.WorkQueue.Wellformed.{pending, dequeue_work_lem}
use lite_cpplib.WorkQueue.Machine.{Pc, Machine, worker_step, Reach}
use lite_cpplib.WorkQueue.Machine.Live.{is_awake, at_work}
use lite_cpplib.WorkQueue.Machine.Clients.{Reach-Live}

not_working : (b : Bool) → (if b then false else true) ≡ true → b ≡ false
not_working true h = grind arith
not_working false h = refl

busy_list : false ≢ true
busy_list h = grind arith

module _ {api : EventApi} (d : IsDocumented api) {this : ℕ} {queue_event : Event api}
    {start_heap : Heap} (held : HasHandle api queue_event) where
  -- No signal is lost: over event objects that behave as documented, in every state that the
  -- threads reach, from a new queue whose event has a handle, through QueueWork, DequeueWork,
  -- Flush, steps of the worker, writes to the works and requests to stop, if a work is pending,
  -- the worker is in its wait and nobody has asked it to stop, then the worker's next step ends
  -- the wait and goes on to the queue.
  pub wakes_up :
      (m : Machine api)
      → Reach api this queue_event start_heap m
      → m.pc ≡ Pc.waiting
      → pending m.queue ≢ []
      → m.signalled ≡ false
      → worker_step api m ≡ ok (record m { pc = Pc.resetting })
  unfolding worker_step
  wakes_up m r at_wait some_work running =
      let l = Reach-Live d held r in
      let woken : (wait api m.queue.queue_event || (is_awake Pc.waiting || false)) ≡ true =
        ap₂ (λ pc s. wait api m.queue.queue_event || (is_awake pc || s)) (sym at_wait) (sym running)
        ∙ l.woken some_work in
      let set : wait api m.queue.queue_event ≡ true = ground arith in
      rw (worker_step, at_wait, set) refl

  -- In every state that the threads reach from a new queue whose event has a handle, over event
  -- objects that behave as documented, Idle is true only if no work is pending and the worker is
  -- not between taking a work and the end of its call.
  pub idle_means_idle :
      (m : Machine api)
      → Reach api this queue_event start_heap m
      → idle api m.queue ≡ true
      → (pending m.queue ≡ []) × (at_work m.pc ≡ false)
  unfolding idle
  idle_means_idle m r h =
      let l = Reach-Live d held r in
      elim (List-cases m.queue.work_list) [
        | inl e ↦ (rw e refl, sym l.working ∙ not_working m.queue.is_working (rw e at h))
        | inr (x, xs, e) ↦ absurd (busy_list (rw e at h))
      ]

  -- In every state that the threads reach from a new queue whose event has a handle, over event
  -- objects that behave as documented, DequeueWork of any work returns: the iterator that the
  -- map holds denotes a node of the list.
  pub dequeue_is_safe :
      (m : Machine api) (w : ℕ)
      → Reach api this queue_event start_heap m
      → (t : WorkQueue api) × (dequeue_work api w m.queue ≡ ok t)
  dequeue_is_safe m w r =
      let l = Reach-Live d held r in
      let (t, e, _, _, _, _) = dequeue_work_lem w m.queue l.wellformed in (t, e)
