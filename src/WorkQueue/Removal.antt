-- ===== src/WorkQueue/Removal.antt =====
-- Taking works off the queue (tools/work_queue.h): a work that was queued twice, and Flush.
use lite_cpplib.Base.{
  ℕ, suc, ◌+◌, ◌<◌, ◌≡◌, refl, sym, ap, ◌∙◌, inl, inr, Bool, true, false, none, some, List, [], ◌∷◌,
  ◌++◌, arith, ◌==◌, if◌then◌else◌, ==_refl, Bool-cases, Option-cases, Outcome, ok, throw,
  undefined, ◌>>=◌,
}
use lite_cpplib.Event.{EventApi}
use lite_cpplib.WorkQueue.{
  Work, Heap, Node, WorkQueue, update, queue_work, dequeue_work, flush, delete_works,
}
use lite_cpplib.WorkQueue.Pending.{works}
use lite_cpplib.WorkQueue.Wellformed.{
  IsWellformed, pending, emptied, emptied-IsWellformed, queue_work_lem, dequeue_work_lem,
}

-- How often a work stands in a list of works.
unfoldable pub occurrences : ℕ → List ℕ → ℕ
occurrences w [] = 0
occurrences w (x ∷ xs) = let rest = occurrences w xs in if x == w then suc rest else rest

occurrences-append :
    (w : ℕ) (xs ys : List ℕ) → occurrences w (xs ++ ys) ≡ occurrences w xs + occurrences w ys
unfolding occurrences
occurrences-append w [] ys = omega arith
occurrences-append w (x ∷ xs) ys = ground (arith, occurrences-append w xs ys)

occurrences_head : (w : ℕ) (xs : List ℕ) → occurrences w (w ∷ xs) ≡ suc (occurrences w xs)
unfolding occurrences
occurrences_head w xs = rw (==_refl w) refl

one_stays :
    (w : ℕ) (xs once twice before after : List ℕ)
    → once ≡ xs ++ (w ∷ [])
    → twice ≡ once ++ (w ∷ [])
    → twice ≡ before ++ (w ∷ after)
    → occurrences w (before ++ after) ≡ suc (occurrences w xs)
unfolding occurrences
one_stays w xs once twice before after e1 e2 e3 = omega (
  arith,
  occurrences-append w xs (w ∷ []),
  occurrences-append w once (w ∷ []),
  occurrences-append w before (w ∷ after),
  occurrences-append w before after,
  occurrences_head w [],
  occurrences_head w after,
  ap (occurrences w) e1,
  ap (occurrences w) e2,
  ap (occurrences w) e3,
)

dequeue_unmapped :
    {api : EventApi} (work : ℕ) (q : WorkQueue api)
    → q.work_map work ≡ none
    → dequeue_work api work q ≡ ok q
unfolding dequeue_work
dequeue_unmapped work q e = rw (e, dequeue_work) refl

module _ (api : EventApi) where
  -- `queue`, `queue`, `dequeue`, `dequeue` of one work
  unfoldable pub requeue : ℕ → ℕ → WorkQueue api × Heap → Outcome (WorkQueue api)
  unfolding queue_work dequeue_work
  requeue this work start = do
    once ← queue_work api this work start
    twice ← queue_work api this work once
    removed ← dequeue_work api work twice.0
    dequeue_work api work removed

  -- A live work that is queued twice on a well-formed queue is in the map only once: two calls
  -- of DequeueWork take one of the two entries off, and the other one stays pending.
  pub requeue_keeps_one :
      (this work : ℕ) (w : Work) (q : WorkQueue api) (heap : Heap)
      → IsWellformed q
      → heap work ≡ some w
      → (t : WorkQueue api) × (requeue this work (q, heap) ≡ ok t)
        × (occurrences work (pending t) ≡ suc (occurrences work (pending q)))
  unfolding requeue
  requeue_keeps_one this work w q heap wf alive =
      let (q1, heap1, eq1, wf1, pending1, event1, alive1, mapped1, _) =
        queue_work_lem this work w q heap wf alive in
      let (q2, heap2, eq2, wf2, pending2, event2, alive2, (n, mapped2), _) =
        queue_work_lem this work (record w { thread = some this }) q1 heap1 wf1 alive1 in
      let (q3, eq3, wf3, _, _, how3) = dequeue_work_lem work q2 wf2 in
      elim how3 [
        | inl (unmapped, _) ↦ absurd (cc (unmapped, mapped2))
        | inr (before, after, was, now, unmapped) ↦ (
          q3,
          rw (eq1, eq2, eq3) (dequeue_unmapped work q3 unmapped),
          ap (occurrences work) now
              ∙ one_stays work (pending q) (pending q1) (pending q2) before after pending1 pending2
                  was,
        )
      ]

  delete_dead :
      (w : ℕ) (xs : List Node) (heap : Heap)
      → heap w ≡ none
      → 0 < occurrences w (works xs)
      → delete_works api xs heap ≡ undefined
  unfolding delete_works update occurrences
  delete_dead w [] heap dead h = absurd (omega arith)
  delete_dead w (x ∷ xs) heap dead h = elim (Option-cases (heap x.work)) [
    | inl e ↦ rw e refl
    | inr (v, e) ↦
        let other : (x.work == w) ≡ false = ground arith in
        rw e (delete_dead w xs (update x.work none heap) (ground arith) (rw other at h))
  ]

  delete_twice :
      (w : ℕ) (xs : List Node) (heap : Heap)
      → 1 < occurrences w (works xs)
      → delete_works api xs heap ≡ undefined
  unfolding delete_works update occurrences
  delete_twice w [] heap h = absurd (omega arith)
  delete_twice w (x ∷ xs) heap h = elim (Option-cases (heap x.work)) [
    | inl e ↦ rw e refl
    | inr (v, e) ↦ elim (Bool-cases (x.work == w)) [
      | inl same ↦
          rw e (
            delete_dead w xs (update x.work none heap) (ground arith) (omega (arith, rw same at h)))
      | inr other ↦ rw e (delete_twice w xs (update x.work none heap) (rw other at h))
    ]
  ]

  -- Flush with deletion of a queue in which some work stands more than once is undefined: the
  -- work is deleted twice.
  pub flush_deletes_twice :
      (w : ℕ) (q : WorkQueue api) (heap : Heap)
      → 1 < occurrences w (pending q)
      → flush api true (q, heap) ≡ undefined
  unfolding flush
  flush_deletes_twice w q heap h = rw (delete_twice w q.work_list heap h) refl

  -- Every pending work is alive and stands once in the list.
  abbrev pub AllAlive : Heap → List ℕ → Type 0
  AllAlive heap [] = Unit {0}
  AllAlive heap (x ∷ xs) =
      ((w : Work) × (heap x ≡ some w)) × (occurrences x xs ≡ 0) × AllAlive heap xs

  still_alive :
      (x : ℕ) (xs : List ℕ) (heap : Heap)
      → occurrences x xs ≡ 0
      → AllAlive heap xs
      → AllAlive (update x none heap) xs
  unfolding update occurrences
  still_alive x [] heap h a = tt
  still_alive x (y ∷ ys) heap h ((w, e), single, a) =
      let other : (y == x) ≡ false = ground arith in
      ((w, rw other e), single, still_alive x ys heap (rw other at h) a)

  delete_works_lem :
      (xs : List Node) (heap : Heap)
      → AllAlive heap (works xs)
      → (heap' : Heap) × (delete_works api xs heap ≡ ok heap')
        × ((w : ℕ) → 0 < occurrences w (works xs) → heap' w ≡ none)
        × ((w : ℕ) → occurrences w (works xs) ≡ 0 → heap' w ≡ heap w)
  unfolding delete_works update occurrences
  delete_works_lem [] heap a = (heap, refl, λ w h. absurd (omega arith), λ w h. refl)
  delete_works_lem (x ∷ xs) heap ((v, e), single, a) =
      let (heap', eq, gone, kept) =
        delete_works_lem xs (update x.work none heap)
          (still_alive x.work (works xs) heap single a) in
      (
        heap',
        rw e eq,
        λ w h. elim (Bool-cases (x.work == w)) [
          | inl same ↦
              let k : x.work ≡ w = ground arith in
              ap heap' (sym k) ∙ kept x.work single ∙ rw (==_refl x.work) refl
          | inr other ↦ gone w (rw other at h)
        ],
        λ w h.
            let other : (x.work == w) ≡ false = ground arith in
            let other' : (w == x.work) ≡ false = ground arith in
            kept w (rw other at h) ∙ rw other' refl,
      )

  -- Whatever Flush returns, the queue is empty.
  pub flush_empties :
      (delete_work_flag : Bool) (q t : WorkQueue api) (heap heap' : Heap)
      → flush api delete_work_flag (q, heap) ≡ ok (t, heap')
      → t ≡ emptied q
  unfolding flush
  flush_empties true q t heap heap' h = go (delete_works api q.work_list heap) h
    where
      go :
          (o : Outcome Heap)
          → (◌>>=◌ {B = WorkQueue api × Heap} o (λ rest. ok (emptied q, rest))) ≡ ok (t, heap')
          → t ≡ emptied q
      go (ok rest) e = grind arith
      go (throw x) e = grind arith
      go undefined e = grind arith
  flush_empties false q t heap heap' h = grind arith

  -- Flush with deletion of works that are all alive and queued once returns a well-formed queue
  -- with nothing pending, deletes exactly the pending works, and leaves every other work alone.
  pub flush_deletes :
      (q : WorkQueue api) (heap : Heap)
      → AllAlive heap (pending q)
      → (t : WorkQueue api) × (heap' : Heap) × (flush api true (q, heap) ≡ ok (t, heap'))
        × IsWellformed t
        × (pending t ≡ [])
        × ((w : ℕ) → 0 < occurrences w (pending q) → heap' w ≡ none)
        × ((w : ℕ) → occurrences w (pending q) ≡ 0 → heap' w ≡ heap w)
  unfolding flush
  flush_deletes q heap a =
      let (heap', eq, gone, kept) = delete_works_lem q.work_list heap a in
      (emptied q, heap', rw eq refl, emptied-IsWellformed q, refl, gone, kept)

  -- Flush without deletion of any queue empties it and leaves the works alone.
  pub flush_keeps_works :
      (q : WorkQueue api) (heap : Heap)
      → (t : WorkQueue api) × (flush api false (q, heap) ≡ ok (t, heap))
        × IsWellformed t
        × (pending t ≡ [])
  unfolding flush
  flush_keeps_works q heap = (emptied q, refl, emptied-IsWellformed q, refl)
