-- ===== src/WorkQueue/Queued.antt =====
-- What a call of QueueWork (tools/work_queue.h) has done when it has returned.
use lite_cpplib.Base.{
  ℕ, ◌≡◌, sym, ap, subst, ◌∙◌, inl, inr, [], ◌∷◌, ◌++◌, Option-cases, ok, ok_inj, undefined_not_ok,
}
use lite_cpplib.Event.{EventApi, signal}
use lite_cpplib.WorkQueue.{Heap, WorkQueue, queue_work}
use lite_cpplib.WorkQueue.Wellformed.{IsWellformed, IsSameWorker, pending, queue_work_lem}

module _ {api : EventApi} where
  pub record IsQueued (work : ℕ) (q t : WorkQueue api) : Type 0 where
    pub wellformed : IsWellformed t
    pub behind : pending t ≡ pending q ++ (work ∷ [])
    pub signals : t.queue_event ≡ signal api q.queue_event
    pub same_worker : IsSameWorker q t

  pub queue_work-IsQueued :
      (this work : ℕ) (q t : WorkQueue api) (heap heap' : Heap)
      → IsWellformed q
      → queue_work api this work (q, heap) ≡ ok (t, heap')
      → IsQueued work q t
  unfolding queue_work
  queue_work-IsQueued this work q t heap heap' wf e = elim (Option-cases (heap work)) [
    | inl gone ↦ absurd (undefined_not_ok (rw (gone, queue_work) at e))
    | inr (v, alive) ↦
        let (t', heap2, eq, wf', behind', event, _, _, same) =
          queue_work_lem this work v q heap wf alive in
        let there : IsQueued work q t' = record {
          wellformed = wf';
          behind = behind';
          signals = event;
          same_worker = same;
        } in
        subst (λ r. IsQueued work q r)
          (ap (λ (p : WorkQueue api × Heap). p.0) (ok_inj (sym eq ∙ e))) there
  ]
