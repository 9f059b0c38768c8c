-- ===== src/WorkQueue/Machine/Live.antt =====
-- The invariant that ties the queue to its thread, and that a step of the worker keeps
-- (tools/work_queue.h).
use lite_cpplib.Base.{
  ℕ, ◌≡◌, ◌≢◌, refl, sym, subst, ◌∙◌, inl, inr, Bool, true, false, ◌||◌, some, List, [], ◌++◌,
  if◌then◌else◌, arith, Outcome, ok, throw, undefined, ◌>>=◌, ok_inj,
}
use lite_cpplib.Event.{EventApi, wait}
use lite_cpplib.Event.Windows.{IsDocumented, HasHandle, event_lem}
use lite_cpplib.WorkQueue.{Heap, WorkQueue, call_of}
use lite_cpplib.WorkQueue.Wellformed.{IsWellformed, pending, take_work_lem}
use lite_cpplib.WorkQueue.Machine.{Pc, Machine, try_take, worker_step}

-- Between the wait that saw the signal and the test that leaves the inner loop.
abbrev pub is_awake : Pc → Bool
is_awake Pc.outer = false
is_awake Pc.waiting = false
is_awake Pc.returned = false
is_awake _ = true

-- Between the lock that takes a work and the one behind its call.
abbrev pub at_work : Pc → Bool
at_work Pc.executing = true
at_work Pc.in_call = true
at_work _ = false

abbrev pub machine :
    {api : EventApi} → WorkQueue api → Heap → Pc → Bool → List (ℕ × ℕ) → Machine api
machine q heap pc signalled calls = record {
  queue = q;
  heap = heap;
  pc = pc;
  signalled = signalled;
  calls = calls;
}

module _ {api : EventApi} where
  pub record IsLive (q : WorkQueue api) (pc : Pc) (signalled : Bool) : Type 0 where
    pub wellformed : IsWellformed q
    pub handle : HasHandle api q.queue_event
    pub woken : pending q ≢ [] → (wait api q.queue_event || (is_awake pc || signalled)) ≡ true
    pub working : q.is_working ≡ at_work pc
    pub current : at_work pc ≡ true → (w : ℕ) × (q.current_work ≡ some w)

  abbrev pub Live : Machine api → Type 0
  Live m = IsLive m.queue m.pc m.signalled

  module _ (d : IsDocumented api) where
    -- A step of the worker that leaves the queue alone.
    same_queue :
        (q : WorkQueue api) (pc pc' : Pc) (s : Bool)
        → IsLive q pc s
        → (pending q ≢ []
            → (wait api q.queue_event || (is_awake pc || s)) ≡ true
            → (wait api q.queue_event || (is_awake pc' || s)) ≡ true)
        → at_work pc ≡ at_work pc'
        → IsLive q pc' s
    same_queue q pc pc' s l woken work = record {
      wellformed = l.wellformed;
      handle = l.handle;
      woken = λ h. woken h (l.woken h);
      working = l.working ∙ work;
      current = λ h. l.current (work ∙ h);
    }

    take_IsLive :
        (q : WorkQueue api) (heap : Heap) (s : Bool) (calls : List (ℕ × ℕ))
        → IsLive q Pc.taking s
        → Live (try_take api (machine q heap Pc.taking s calls))
    unfolding try_take
    take_IsLive q heap s calls l = elim (take_work_lem q l.wellformed) [
      | inl (e, none_left) ↦ rw e (record {
        wellformed = l.wellformed;
        handle = l.handle;
        woken = λ h. absurd (h none_left);
        working = l.working;
        current = λ h. grind arith;
      })
      | inr (w, t, e, wf, _, now, on, same_event, _) ↦ rw e (record {
        wellformed = wf;
        handle = subst (HasHandle api) (sym same_event) l.handle;
        woken = λ h. ground arith;
        working = on;
        current = λ h. (w, now);
      })
    ]

    pub work_IsLive :
        (q : WorkQueue api) (heap : Heap) (pc : Pc) (s : Bool) (calls : List (ℕ × ℕ))
        (t : Machine api)
        → IsLive q pc s
        → worker_step api (machine q heap pc s calls) ≡ ok t
        → Live t
    unfolding worker_step
    work_IsLive q heap Pc.outer s calls t l e = subst Live (ok_inj e) (
        same_queue q Pc.outer (if s then Pc.returned else Pc.waiting) s l (λ h x. ground arith)
          (ground arith))
    work_IsLive q heap Pc.waiting s calls t l e = subst Live (ok_inj e) (
        same_queue q Pc.waiting (if wait api q.queue_event then Pc.resetting else Pc.outer) s l
          (λ h x. ground arith) (ground arith))
    work_IsLive q heap Pc.resetting s calls t l e =
        let (_, _, _, held) = event_lem api d q.queue_event l.handle in
        subst Live (ok_inj e) (record {
          wellformed = record { known = l.wellformed.known; below = l.wellformed.below };
          handle = held;
          woken = λ h. ground arith;
          working = l.working;
          current = λ h. l.current h;
        })
    work_IsLive q heap Pc.inner s calls t l e = subst Live (ok_inj e) (
        same_queue q Pc.inner (if s then Pc.outer else Pc.taking) s l (λ h x. ground arith)
          (ground arith))
    work_IsLive q heap Pc.taking s calls t l e =
        subst Live (ok_inj e) (take_IsLive q heap s calls l)
    work_IsLive q heap Pc.executing s calls t l e = called (call_of api q heap) e
      where
        called :
            (o : Outcome (List (ℕ × ℕ)))
            → (o >>= λ call. ok (machine q heap Pc.in_call s (calls ++ call))) ≡ ok t
            → Live t
        called (ok call) e =
            subst Live (ok_inj e)
              (same_queue q Pc.executing Pc.in_call s l (λ h x. ground arith) refl)
        called (throw x) e = grind arith
        called undefined e = grind arith
    work_IsLive q heap Pc.in_call s calls t l e = subst Live (ok_inj e) (record {
      wellformed = record { known = l.wellformed.known; below = l.wellformed.below };
      handle = l.handle;
      woken = λ h. ground arith;
      working = refl;
      current = λ h. grind arith;
    })
    work_IsLive q heap Pc.returned s calls t l e = subst Live (ok_inj e) l
