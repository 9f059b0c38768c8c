-- ===== src/WorkQueue/Machine/Fifo.antt =====
-- Works are called in the order in which they are given to QueueWork, each one once
-- (tools/work_queue.h).
use lite_cpplib.Base.{ℕ, ◌≡◌, refl, sym, ap, ◌∙◌, Option, List, [], ◌∷◌, ◌++◌, arith, ok}
use mathlib.Core.List.{append_assoc}
use lite_cpplib.Event.{EventApi, Event}
use lite_cpplib.WorkQueue.{Heap, WorkQueue, queue_work}
use lite_cpplib.WorkQueue.Wellformed.{pending}
use lite_cpplib.WorkQueue.Queued.{queue_work-IsQueued}
use lite_cpplib.WorkQueue.Machine.{Machine}
use lite_cpplib.WorkQueue.Machine.Order.{
  called, holding, Run, start, queued, worked, written, stopped, IsInOrder, worked_in_order,
}

module _ {api : EventApi} where
  queued_in_order :
      (f this w : ℕ) (queues : List ℕ) (m : Machine api) (q : WorkQueue api) (heap' : Heap)
      → IsInOrder f queues m
      → queue_work api this w (m.queue, m.heap) ≡ ok (q, heap')
      → IsInOrder f (queues ++ (w ∷ [])) (record m { queue = q; heap = heap' })
  queued_in_order f this w queues m q heap' o e =
      let r = queue_work-IsQueued this w m.queue q m.heap heap' o.wellformed e in
      record {
        wellformed = r.wellformed;
        has_func = r.same_worker.same_func ∙ o.has_func;
        in_order =
            ap (λ (l : List ℕ). l ++ (w ∷ [])) o.in_order
            ∙ append_assoc (called m.calls) (holding m.pc m.queue.current_work ++ pending m.queue)
                (w ∷ [])
            ∙ ap (λ (l : List ℕ). called m.calls ++ l)
                (append_assoc (holding m.pc m.queue.current_work) (pending m.queue) (w ∷ [])
                  ∙ ap (λ (l : List ℕ). holding m.pc m.queue.current_work ++ l) (sym r.behind)
                  ∙ ap (λ (c : Option ℕ). holding m.pc c ++ pending q)
                      (sym r.same_worker.same_current));
      }

  Run-IsInOrder :
      {this : ℕ} {queue_event : Event api} {heap : Heap} {f : ℕ} {queues : List ℕ} {m : Machine api}
      → Run api this queue_event heap f queues m
      → IsInOrder f queues m
  Run-IsInOrder start = record {
    wellformed = record { known = λ w n h. grind arith; below = tt };
    has_func = refl;
    in_order = refl;
  }
  Run-IsInOrder {this = this} {f = f}
        (queued {queues = queues} {m = m} w {q = q} {heap' = heap'} r e) =
      queued_in_order f this w queues m q heap' (Run-IsInOrder r) e
  Run-IsInOrder {f = f} {queues = queues} {m = t} (worked {m = m} r e) =
      worked_in_order f queues m.queue m.heap m.pc m.signalled m.calls t (Run-IsInOrder r) e
  Run-IsInOrder (written heap' r) =
      let o = Run-IsInOrder r in
      record { wellformed = o.wellformed; has_func = o.has_func; in_order = o.in_order }
  Run-IsInOrder (stopped r) =
      let o = Run-IsInOrder r in
      record { wellformed = o.wellformed; has_func = o.has_func; in_order = o.in_order }

  -- The work queue and its thread refine a first-in-first-out queue: in every state that the
  -- threads reach from a queue with a default function, in whatever order they run, and without
  -- DequeueWork and Flush, the works given to QueueWork are, in their order, those that were
  -- called, the one that is taken and about to be called, if there is one, and the pending ones.
  pub first_in_first_out :
      {this : ℕ} {queue_event : Event api} {heap : Heap} {f : ℕ} (queues : List ℕ) (m : Machine api)
      → Run api this queue_event heap f queues m
      → queues ≡ called m.calls ++ (holding m.pc m.queue.current_work ++ pending m.queue)
  first_in_first_out queues m r = (Run-IsInOrder r).in_order
