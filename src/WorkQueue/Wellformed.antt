-- ===== src/WorkQueue/Wellformed.antt =====
-- The invariant of the work queue (tools/work_queue.h): the map's iterators denote nodes of the list.
-- What each operation makes of the pending works.
use lite_cpplib.Base.{
  ℕ, suc, ◌≡◌, ◌≢◌, refl, ap, ◌∙◌, inl, inr, ◌⊎◌, true, Option, none, some, List, [], ◌∷◌, ◌++◌,
  arith, ◌==◌, ==_refl, Bool-cases, Option-cases, List-cases, ok,
}
use lite_cpplib.Event.{EventApi, signal}
use lite_cpplib.WorkQueue.{
  Work, Heap, Node, WorkQueue, update, map_insert, queue_work, dequeue_work, take_work,
}
use lite_cpplib.WorkQueue.Pending.{
  works, find_node, AllBelow, works-append, AllBelow-suc, AllBelow-append, find_node-append,
  find_node-append_new, erase_node_lem,
}

map_insert_known :
    (m : ℕ → Option ℕ) (work node w n : ℕ)
    → map_insert work node m w ≡ some n
    → ((w ≡ work) × (n ≡ node)) ⊎ (m w ≡ some n)
unfolding map_insert update
map_insert_known m work node w n h = elim (Option-cases (m work)) [
  | inl e ↦ elim (Bool-cases (w == work)) [
    | inl same ↦
        let found : some node ≡ some n = rw (e, map_insert, same) at h in
        inl (ground arith, ground arith)
    | inr other ↦ inr (rw (e, map_insert, other) at h)
  ]
  | inr (k, e) ↦ inr (rw (e, map_insert) at h)
]

map_insert_has :
    (m : ℕ → Option ℕ) (work node : ℕ) → (n : ℕ) × (map_insert work node m work ≡ some n)
unfolding map_insert update
map_insert_has m work node = elim (Option-cases (m work)) [
  | inl e ↦ (node, rw (map_insert, e, ==_refl work) refl)
  | inr (k, e) ↦ (k, rw (map_insert, e) e)
]

-- What a map holds behind an erasure, it held before, under another key.
erased_known :
    (m : ℕ → Option ℕ) (work w n : ℕ) → update work none m w ≡ some n → (w ≢ work) × (m w ≡ some n)
unfolding update
erased_known m work w n h = ground arith

node_differs :
    (n k w v : ℕ) (xs : List Node)
    → find_node n xs ≡ some w
    → find_node k xs ≡ some v
    → w ≢ v
    → n ≢ k
node_differs n k w v xs h h' ne e = ground arith

find_node_tail :
    (x : Node) (xs : List Node) (k v : ℕ)
    → find_node k (x ∷ xs) ≡ some v
    → v ≢ x.work
    → find_node k xs ≡ some v
unfolding find_node
find_node_tail x xs k v h ne = ground arith

module _ {api : EventApi} where
  pub record IsWellformed (q : WorkQueue api) : Type 0 where
    pub known : (w n : ℕ) → q.work_map w ≡ some n → find_node n q.work_list ≡ some w
    pub below : AllBelow q.next_node q.work_list

  -- The members that only _Run and SetDefaultWorkFunc change.
  pub record IsSameWorker (q t : WorkQueue api) : Type 0 where
    pub same_func : t.default_work_func ≡ q.default_work_func
    pub same_working : t.is_working ≡ q.is_working
    pub same_current : t.current_work ≡ q.current_work

  same_worker : (q : WorkQueue api) → IsSameWorker q q
  same_worker q = record { same_func = refl; same_working = refl; same_current = refl }

  abbrev pub pending : WorkQueue api → List ℕ
  pending q = works q.work_list

  abbrev new_node : WorkQueue api → ℕ → Node
  new_node q work = record { id = q.next_node; work = work }

  abbrev pub emptied : WorkQueue api → WorkQueue api
  emptied q = record q { work_list = []; work_map = λ _. none }

  pub emptied-IsWellformed : (q : WorkQueue api) → IsWellformed (emptied q)
  emptied-IsWellformed q = record { known = λ w n h. grind arith; below = tt }

  -- QueueWork of a live work on a well-formed queue keeps the invariant, puts the work behind
  -- the pending ones, signals the event, lets the work know its queue, and leaves the map with
  -- an entry for it.
  pub queue_work_lem :
      (this work : ℕ) (w : Work) (q : WorkQueue api) (heap : Heap)
      → IsWellformed q
      → heap work ≡ some w
      → (t : WorkQueue api) × (heap' : Heap) × (queue_work api this work (q, heap) ≡ ok (t, heap'))
        × IsWellformed t
        × (pending t ≡ pending q ++ (work ∷ []))
        × (t.queue_event ≡ signal api q.queue_event)
        × (heap' work ≡ some (record w { thread = some this }))
        × ((n : ℕ) × (t.work_map work ≡ some n))
        × IsSameWorker q t
  unfolding queue_work update
  queue_work_lem this work w q heap wf alive = (
    record q {
      work_list = q.work_list ++ (new_node q work ∷ []);
      next_node = suc q.next_node;
      work_map = map_insert work q.next_node q.work_map;
      queue_event = signal api q.queue_event;
    },
    update work (some (record w { thread = some this })) heap,
    rw alive refl,
    record {
      known = λ v n h. elim (map_insert_known q.work_map work q.next_node v n h) [
        | inl (e, e') ↦ rw (e, e') (find_node-append_new (new_node q work) q.work_list wf.below)
        | inr e ↦ find_node-append n v q.work_list (new_node q work ∷ []) (wf.known v n e)
      ];
      below =
          AllBelow-append (suc q.next_node) q.work_list (new_node q work)
            (AllBelow-suc q.next_node q.work_list wf.below) (omega arith);
    },
    works-append q.work_list (new_node q work ∷ []),
    refl,
    rw (==_refl work) refl,
    map_insert_has q.work_map work q.next_node,
    record { same_func = refl; same_working = refl; same_current = refl },
  )

  -- DequeueWork on a well-formed queue returns a well-formed queue with the same event. A work
  -- that is not in the map changes nothing; of one that is there one entry among the pending
  -- works goes, the others keep their order, and the map forgets it.
  pub dequeue_work_lem :
      (work : ℕ) (q : WorkQueue api)
      → IsWellformed q
      → (t : WorkQueue api) × (dequeue_work api work q ≡ ok t)
        × IsWellformed t
        × IsSameWorker q t
        × (t.queue_event ≡ q.queue_event)
        × (((q.work_map work ≡ none) × (t ≡ q))
            ⊎ ((before : List ℕ) × (after : List ℕ) × (pending q ≡ before ++ (work ∷ after))
                × (pending t ≡ before ++ after)
                × (t.work_map work ≡ none)))
  unfolding dequeue_work update
  dequeue_work_lem work q wf = elim (Option-cases (q.work_map work)) [
    | inl e ↦ (q, rw (e, dequeue_work) refl, wf, same_worker q, refl, inl (e, refl))
    | inr (n, e) ↦
        let (rest, eq, r) = erase_node_lem n work q.work_list (wf.known work n e) in
        (
          record q { work_list = rest; work_map = update work none q.work_map },
          rw (e, dequeue_work, eq) refl,
          record {
            known = λ v k h.
                let (ne, old) = erased_known q.work_map work v k h in
                r.others k v
                  (node_differs k n v work q.work_list (wf.known v k old) (wf.known work n e) ne)
                  (wf.known v k old);
            below = r.bounded q.next_node wf.below;
          },
          record { same_func = refl; same_working = refl; same_current = refl },
          refl,
          inr (
            works r.before,
            works r.after,
            ap works r.whole
                ∙ works-append r.before (r.node ∷ r.after)
                ∙ ap (λ (k : ℕ). works r.before ++ (k ∷ works r.after)) r.stands_for,
            ap works r.left ∙ works-append r.before r.after,
            rw (==_refl work) refl,
          ),
        )
  ]

  -- The locked part of _Run that takes a work, on a well-formed queue: either nothing is pending
  -- and it breaks, or it takes the oldest pending work, notes it and that the worker works, and
  -- keeps the invariant.
  pub take_work_lem :
      (q : WorkQueue api)
      → IsWellformed q
      → ((take_work api q ≡ none) × (pending q ≡ []))
        ⊎ ((work : ℕ) × (t : WorkQueue api) × (take_work api q ≡ some t)
            × IsWellformed t
            × (pending q ≡ work ∷ pending t)
            × (t.current_work ≡ some work)
            × (t.is_working ≡ true)
            × (t.queue_event ≡ q.queue_event)
            × (t.default_work_func ≡ q.default_work_func))
  unfolding take_work update
  take_work_lem q wf = elim (List-cases q.work_list) [
    | inl e ↦ inl (rw e refl, rw e refl)
    | inr (x, xs, e) ↦ inr (
      x.work,
      record q {
        is_working = true;
        current_work = some x.work;
        work_list = xs;
        work_map = update x.work none q.work_map;
      },
      rw e refl,
      record {
        known = λ v k h.
            let (ne, old) = erased_known q.work_map x.work v k h in
            find_node_tail x xs k v (rw e at wf.known v k old) ne;
        below = (rw e at wf.below).1;
      },
      rw e refl,
      refl,
      refl,
      refl,
      refl,
    )
  ]
