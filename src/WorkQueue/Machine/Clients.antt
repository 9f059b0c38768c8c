-- ===== src/WorkQueue/Machine/Clients.antt =====
-- The invariant of the queue and its thread through every step, of whatever thread
-- (tools/work_queue.h).
use lite_cpplib.Base.{
  ℕ, ◌≡◌, ◌≢◌, refl, sym, ap, subst, ◌∙◌, inl, inr, ◌⊎◌, Bool, true, ◌||◌, none, List, [], ◌∷◌,
  ◌++◌, arith, ok, ok_inj,
}
use lite_cpplib.Event.{EventApi, Event, wait}
use lite_cpplib.Event.Windows.{IsDocumented, HasHandle, event_lem}
use lite_cpplib.WorkQueue.{Heap, WorkQueue, queue_work, dequeue_work, flush}
use lite_cpplib.WorkQueue.Wellformed.{pending, emptied-IsWellformed, dequeue_work_lem}
use lite_cpplib.WorkQueue.Queued.{queue_work-IsQueued}
use lite_cpplib.WorkQueue.Removal.{flush_empties}
use lite_cpplib.WorkQueue.Machine.{
  Pc, Machine, Step, Reach, work, queue, dequeue, flushed, write, stop, start, later,
}
use lite_cpplib.WorkQueue.Machine.Live.{is_awake, IsLive, Live, work_IsLive}

not_nil : (w : ℕ) (before after : List ℕ) → before ++ (w ∷ after) ≢ []
not_nil w [] after h = grind arith
not_nil w (x ∷ xs) after h = grind arith

module _ {api : EventApi} (d : IsDocumented api) where
  queue_IsLive :
      (this w : ℕ) (q t : WorkQueue api) (heap heap' : Heap) (pc : Pc) (s : Bool)
      → IsLive q pc s
      → queue_work api this w (q, heap) ≡ ok (t, heap')
      → IsLive t pc s
  queue_IsLive this w q t heap heap' pc s l e =
      let r = queue_work-IsQueued this w q t heap heap' l.wellformed e in
      let (set, _, held, _) = event_lem api d q.queue_event l.handle in
      record {
        wellformed = r.wellformed;
        handle = subst (HasHandle api) (sym r.signals) held;
        woken = λ h.
            let is_set : wait api t.queue_event ≡ true = ap (wait api) r.signals ∙ set in
            rw is_set refl;
        working = r.same_worker.same_working ∙ l.working;
        current = λ h. let (c, e') = l.current h in (c, r.same_worker.same_current ∙ e');
      }

  dequeue_IsLive :
      (w : ℕ) (q t : WorkQueue api) (pc : Pc) (s : Bool)
      → IsLive q pc s
      → dequeue_work api w q ≡ ok t
      → IsLive t pc s
  dequeue_IsLive w q t pc s l e =
      let (t', eq, wf, same, event, how) = dequeue_work_lem w q l.wellformed in
      let there : IsLive t' pc s = record {
        wellformed = wf;
        handle = subst (HasHandle api) (sym event) l.handle;
        woken = λ h.
            ap (λ (v : Event api). wait api v || (is_awake pc || s)) event
            ∙ l.woken (was_pending how h);
        working = same.same_working ∙ l.working;
        current = λ h. let (c, e') = l.current h in (c, same.same_current ∙ e');
      } in
      subst (λ r. IsLive r pc s) (ok_inj (sym eq ∙ e)) there
    where
      was_pending :
          {t' : WorkQueue api}
          → (((q.work_map w ≡ none) × (t' ≡ q))
              ⊎ ((before : List ℕ) × (after : List ℕ) × (pending q ≡ before ++ (w ∷ after))
                  × (pending t' ≡ before ++ after)
                  × (t'.work_map w ≡ none)))
          → pending t' ≢ []
          → pending q ≢ []
      was_pending (inl (_, same)) h h' = h (ap pending same ∙ h')
      was_pending (inr (before, after, whole, _, _)) h h' = not_nil w before after (sym whole ∙ h')

  flush-IsLive :
      (delete_work_flag : Bool) (q t : WorkQueue api) (heap heap' : Heap) (pc : Pc) (s : Bool)
      → IsLive q pc s
      → flush api delete_work_flag (q, heap) ≡ ok (t, heap')
      → IsLive t pc s
  flush-IsLive delete_work_flag q t heap heap' pc s l e =
      subst (λ r. IsLive r pc s) (sym (flush_empties api delete_work_flag q t heap heap' e))
        (record {
          wellformed = emptied-IsWellformed q;
          handle = l.handle;
          woken = λ h. absurd (h refl);
          working = l.working;
          current = l.current;
        })

  Step-Live : {this : ℕ} {m t : Machine api} → Step api this m t → Live m → Live t
  Step-Live {m = m} {t = t} (work e) l = work_IsLive d m.queue m.heap m.pc m.signalled m.calls t l e
  Step-Live {this = this} {m = m} (queue w {q = q} {heap = heap} e) l =
      queue_IsLive this w m.queue q m.heap heap m.pc m.signalled l e
  Step-Live {m = m} (dequeue w {q = q} e) l = dequeue_IsLive w m.queue q m.pc m.signalled l e
  Step-Live {m = m} (flushed flag {q = q} {heap = heap} e) l =
      flush-IsLive flag m.queue q m.heap heap m.pc m.signalled l e
  Step-Live (write heap) l = l
  Step-Live {m = m} stop l = record {
    wellformed = l.wellformed;
    handle = l.handle;
    woken = λ h. ground arith;
    working = l.working;
    current = l.current;
  }

  pub Reach-Live :
      {this : ℕ} {queue_event : Event api} {heap : Heap} {m : Machine api}
      → HasHandle api queue_event
      → Reach api this queue_event heap m
      → Live m
  Reach-Live held start = record {
    wellformed = record { known = λ w n h. grind arith; below = tt };
    handle = held;
    woken = λ h. absurd (h refl);
    working = refl;
    current = λ h. grind arith;
  }
  Reach-Live held (later r step) = Step-Live step (Reach-Live held r)
