-- ===== src/WorkQueue/Machine/Order.antt =====
-- The order in which WorkQueue::_Run (tools/work_queue.h) calls the works.
use lite_cpplib.Base.{
  ℕ, ◌≡◌, refl, sym, ap, subst, ◌∙◌, inl, inr, Bool, true, false, Option, some, List, [], ◌∷◌, ◌++◌,
  if◌then◌else◌, arith, Option-cases, Outcome, ok, throw, undefined, ◌>>=◌, ok_inj,
  undefined_not_ok,
}
use mathlib.Core.List.{append_assoc}
use lite_cpplib.Event.{EventApi, Event, wait}
use lite_cpplib.WorkQueue.{Heap, WorkQueue, new_queue, set_default_work_func, queue_work, call_of}
use lite_cpplib.WorkQueue.Wellformed.{IsWellformed, pending, take_work_lem}
use lite_cpplib.WorkQueue.Machine.{Pc, Machine, try_take, worker_step}
use lite_cpplib.WorkQueue.Machine.Live.{machine}

-- The works that were called, in the order of their calls.
abbrev pub called : List (ℕ × ℕ) → List ℕ
called [] = []
called ((f, w) ∷ cs) = w ∷ called cs

-- The work that was taken and is about to be called.
abbrev pub holding : Pc → Option ℕ → List ℕ
holding Pc.executing (some w) = w ∷ []
holding _ _ = []

called-append : (xs ys : List (ℕ × ℕ)) → called (xs ++ ys) ≡ called xs ++ called ys
called-append [] ys = refl
called-append ((f, w) ∷ xs) ys = ap (λ (l : List ℕ). w ∷ l) (called-append xs ys)

module _ (api : EventApi) where
  -- The threads run with a default function, without DequeueWork and Flush. The list holds the works
  -- that were given to QueueWork, the first one first.
  pub data Run (this : ℕ) (queue_event : Event api) (heap : Heap) (f : ℕ)
      : List ℕ → Machine api → Type 0 where
    start : Run this queue_event heap f [] (
        machine
          (set_default_work_func api (some f) (new_queue api queue_event))
          heap
          Pc.outer
          false
          [])
    queued :
        {queues : List ℕ} {m : Machine api} (w : ℕ) {q : WorkQueue api} {heap' : Heap}
        → Run this queue_event heap f queues m
        → queue_work api this w (m.queue, m.heap) ≡ ok (q, heap')
        → Run this queue_event heap f (queues ++ (w ∷ [])) (record m { queue = q; heap = heap' })
    worked :
        {queues : List ℕ} {m t : Machine api}
        → Run this queue_event heap f queues m
        → worker_step api m ≡ ok t
        → Run this queue_event heap f queues t
    written :
        {queues : List ℕ} {m : Machine api} (heap' : Heap)
        → Run this queue_event heap f queues m
        → Run this queue_event heap f queues (record m { heap = heap' })
    stopped :
        {queues : List ℕ} {m : Machine api}
        → Run this queue_event heap f queues m
        → Run this queue_event heap f queues (record m { signalled = true })

module _ {api : EventApi} where
  pub record IsInOrder (f : ℕ) (queues : List ℕ) (m : Machine api) : Type 0 where
    pub wellformed : IsWellformed m.queue
    pub has_func : m.queue.default_work_func ≡ some f
    pub in_order : queues ≡ called m.calls ++ (holding m.pc m.queue.current_work ++ pending m.queue)

  call_of_lem :
      (f : ℕ) (q : WorkQueue api) (heap : Heap) (call : List (ℕ × ℕ))
      → q.default_work_func ≡ some f
      → call_of api q heap ≡ ok call
      → (w : ℕ) × (g : ℕ) × (q.current_work ≡ some w) × (call ≡ (g, w) ∷ [])
  unfolding call_of
  call_of_lem f q heap call has_func e = elim (Option-cases q.current_work) [
    | inl e' ↦ absurd (undefined_not_ok (rw (e', call_of) at e))
    | inr (w, e') ↦ elim (Option-cases (heap w)) [
      | inl e2 ↦ absurd (undefined_not_ok (rw (e', call_of, e2) at e))
      | inr (v, e2) ↦ elim (Option-cases v.work_func) [
        | inl e3 ↦ (w, f, e', sym (ok_inj (rw (e', call_of, e2, e3, has_func) at e)))
        | inr (g, e3) ↦ (w, g, e', sym (ok_inj (rw (e', call_of, e2, e3) at e)))
      ]
    ]
  ]

  -- A step of the worker that takes no work and calls none.
  same_order :
      (f : ℕ) (queues : List ℕ) (q : WorkQueue api) (heap : Heap) (pc pc' : Pc) (s : Bool)
      (calls : List (ℕ × ℕ))
      → IsInOrder f queues (machine q heap pc s calls)
      → holding pc q.current_work ≡ []
      → holding pc' q.current_work ≡ []
      → IsInOrder f queues (machine q heap pc' s calls)
  same_order f queues q heap pc pc' s calls o h h' = record {
    wellformed = o.wellformed;
    has_func = o.has_func;
    in_order = o.in_order ∙ ap (λ (l : List ℕ). called calls ++ (l ++ pending q)) (h ∙ sym h');
  }

  take_in_order :
      (f : ℕ) (queues : List ℕ) (q : WorkQueue api) (heap : Heap) (s : Bool) (calls : List (ℕ × ℕ))
      → IsInOrder f queues (machine q heap Pc.taking s calls)
      → IsInOrder f queues (try_take api (machine q heap Pc.taking s calls))
  unfolding try_take
  take_in_order f queues q heap s calls o = elim (take_work_lem q o.wellformed) [
    | inl (e, none_left) ↦ rw e (same_order f queues q heap Pc.taking Pc.outer s calls o refl refl)
    | inr (w, t, e, wf, first, now, on, _, same_func) ↦ rw e (record {
      wellformed = wf;
      has_func = same_func ∙ o.has_func;
      in_order =
          o.in_order
          ∙ ap (λ (l : List ℕ). called calls ++ l) first
          ∙ ap (λ (c : Option ℕ). called calls ++ (holding Pc.executing c ++ pending t)) (sym now);
    })
  ]

  call_in_order :
      (f : ℕ) (queues : List ℕ) (q : WorkQueue api) (heap : Heap) (s : Bool)
      (calls call : List (ℕ × ℕ))
      → IsInOrder f queues (machine q heap Pc.executing s calls)
      → call_of api q heap ≡ ok call
      → IsInOrder f queues (machine q heap Pc.in_call s (calls ++ call))
  call_in_order f queues q heap s calls call o e =
      let (w, g, now, is_call) = call_of_lem f q heap call o.has_func e in
      record {
        wellformed = o.wellformed;
        has_func = o.has_func;
        in_order =
            o.in_order
            ∙ ap (λ (c : Option ℕ). called calls ++ (holding Pc.executing c ++ pending q)) now
            ∙ sym (append_assoc (called calls) (w ∷ []) (pending q))
            ∙ ap (λ (l : List ℕ). l ++ pending q)
                (sym (called-append calls ((g, w) ∷ []))
                  ∙ ap (λ (c : List (ℕ × ℕ)). called (calls ++ c)) (sym is_call));
      }

  pub worked_in_order :
      (f : ℕ) (queues : List ℕ) (q : WorkQueue api) (heap : Heap) (pc : Pc) (s : Bool)
      (calls : List (ℕ × ℕ)) (t : Machine api)
      → IsInOrder f queues (machine q heap pc s calls)
      → worker_step api (machine q heap pc s calls) ≡ ok t
      → IsInOrder f queues t
  unfolding worker_step
  worked_in_order f queues q heap Pc.outer s calls t o e = subst (IsInOrder f queues) (ok_inj e) (
      same_order f queues q heap Pc.outer (if s then Pc.returned else Pc.waiting) s calls o refl
        (idle_pc s))
    where
      idle_pc : (b : Bool) → holding (if b then Pc.returned else Pc.waiting) q.current_work ≡ []
      idle_pc true = refl
      idle_pc false = refl
  worked_in_order f queues q heap Pc.waiting s calls t o e = subst (IsInOrder f queues) (ok_inj e) (
      same_order f queues q heap Pc.waiting
        (if wait api q.queue_event then Pc.resetting else Pc.outer) s calls o refl
        (idle_pc (wait api q.queue_event)))
    where
      idle_pc : (b : Bool) → holding (if b then Pc.resetting else Pc.outer) q.current_work ≡ []
      idle_pc true = refl
      idle_pc false = refl
  worked_in_order f queues q heap Pc.resetting s calls t o e =
      subst (IsInOrder f queues) (ok_inj e) (record {
        wellformed = record { known = o.wellformed.known; below = o.wellformed.below };
        has_func = o.has_func;
        in_order = o.in_order;
      })
  worked_in_order f queues q heap Pc.inner s calls t o e = subst (IsInOrder f queues) (ok_inj e) (
      same_order f queues q heap Pc.inner (if s then Pc.outer else Pc.taking) s calls o refl
        (idle_pc s))
    where
      idle_pc : (b : Bool) → holding (if b then Pc.outer else Pc.taking) q.current_work ≡ []
      idle_pc true = refl
      idle_pc false = refl
  worked_in_order f queues q heap Pc.taking s calls t o e =
      subst (IsInOrder f queues) (ok_inj e) (take_in_order f queues q heap s calls o)
  worked_in_order f queues q heap Pc.executing s calls t o e = go (call_of api q heap) refl e
    where
      go :
          (r : Outcome (List (ℕ × ℕ)))
          → call_of api q heap ≡ r
          → (r >>= λ call. ok (machine q heap Pc.in_call s (calls ++ call))) ≡ ok t
          → IsInOrder f queues t
      go (ok call) is_call e =
          subst (IsInOrder f queues) (ok_inj e)
            (call_in_order f queues q heap s calls call o is_call)
      go (throw x) is_call e = grind arith
      go undefined is_call e = grind arith
  worked_in_order f queues q heap Pc.in_call s calls t o e =
      subst (IsInOrder f queues) (ok_inj e) (record {
        wellformed = record { known = o.wellformed.known; below = o.wellformed.below };
        has_func = o.has_func;
        in_order = o.in_order;
      })
  worked_in_order f queues q heap Pc.returned s calls t o e =
      subst (IsInOrder f queues) (ok_inj e) o
