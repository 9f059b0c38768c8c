-- ===== src/WorkQueue.antt =====
-- tools/work_queue.h: works, the queue of them and the loop of its thread, cut at the points where
-- another thread can come between.
pub mod Pending
pub mod Wellformed
pub mod Queued
pub mod Removal
pub mod Machine
mod Tests
use lite_cpplib.Base.{
  ℕ, zero, suc, ◌+◌, Bool, true, false, Option, none, some, List, [], ◌∷◌, ◌++◌, length, ◌==◌,
  if◌then◌else◌, u32, Outcome, ok, undefined, ◌>>=◌, defined,
}
use lite_cpplib.ByteOrder.{Os}
use lite_cpplib.ByteStream.{Cell, ByteStream, of_size, add, assign}
use lite_cpplib.Event.{EventApi, Event, signal}

-- struct Work. Pointers are numbers, NULL is none.
pub record Work : Type 0 where
  pub user_ptr : Option ℕ
  pub user_data : Option ℕ
  pub user_buffer : ByteStream
  pub work_func : Option ℕ
  pub thread : Option ℕ

-- Work() and Work(void* user_data); the buffer is an empty ByteStream.
unfoldable pub work_of_data : Os → Option ℕ → Work
work_of_data os user_data = record {
  user_ptr = none;
  user_data = user_data;
  user_buffer = of_size os 0;
  work_func = none;
  thread = none;
}

-- Work(uint8_t* buffer, uint32_t size)
unfoldable pub work_of_buffer : Os → Option (List Cell) → ℕ → Outcome Work
unfolding work_of_data
work_of_buffer os buffer size = do
  user_buffer ← add (of_size os 0) buffer size
  ok (record (work_of_data os none) { user_buffer = user_buffer })

-- operator =, onto another work
unfoldable pub assign_work : Work → Work → Outcome Work
assign_work this src = do
  user_buffer ← assign this.user_buffer src.user_buffer
  ok (record {
    user_ptr = src.user_ptr;
    user_data = src.user_data;
    user_buffer = user_buffer;
    work_func = src.work_func;
    thread = src.thread;
  })

-- Work(const Work& src)
unfoldable pub copy_work : Os → Work → Outcome Work
unfolding work_of_data assign_work
copy_work os src = assign_work (work_of_data os none) src

-- The works by their address; one that was deleted is none.
abbrev pub Heap : Type 0
Heap = ℕ → Option Work

unfoldable pub update {ℓ} : {A : Type ℓ} → ℕ → A → (ℕ → A) → ℕ → A
update key a m k = if k == key then a else m k

-- map::insert leaves the value of a key that is there.
unfoldable pub map_insert : ℕ → ℕ → (ℕ → Option ℕ) → ℕ → Option ℕ
unfolding update
map_insert key n m = elim (m key) [ none ↦ update key (some n) m | some _ ↦ m ]

-- A node of list<Work*>. An iterator is the identity of its node.
pub record Node : Type 0 where
  pub id : ℕ
  pub work : ℕ

-- list::erase; a node that the list does not have is undefined behaviour.
unfoldable pub erase_node : ℕ → List Node → Option (List Node)
erase_node n [] = none
erase_node n (x ∷ xs) =
    let rest = erase_node n xs in
    if x.id == n then some xs else elim rest [ none ↦ none | some ys ↦ some (x ∷ ys) ]

-- class WorkQueue, with the identity of the next node that is allocated.
pub record WorkQueue (api : EventApi) : Type 0 where
  pub queue_event : Event api
  pub work_list : List Node
  pub work_map : ℕ → Option ℕ
  pub default_work_func : Option ℕ
  pub is_working : Bool
  pub current_work : Option ℕ
  pub next_node : ℕ

-- WorkQueue(name, logger), with the event that its member's constructor makes.
abbrev pub new_queue : (api : EventApi) → Event api → WorkQueue api
new_queue api queue_event = record {
  queue_event = queue_event;
  work_list = [];
  work_map = λ _. none;
  default_work_func = none;
  is_working = false;
  current_work = none;
  next_node = 0;
}

abbrev pub is_empty : List Node → Bool
is_empty [] = true
is_empty (_ ∷ _) = false

module _ (api : EventApi) where
  -- Empty()
  abbrev pub empty : WorkQueue api → Bool
  empty q = is_empty q.work_list

  -- Idle()
  unfoldable pub idle : WorkQueue api → Bool
  idle q = if is_empty q.work_list then if q.is_working then false else true else false

  -- QueueWork(work) on the queue at the address `this`
  unfoldable pub queue_work : ℕ → ℕ → WorkQueue api × Heap → Outcome (WorkQueue api × Heap)
  unfolding update map_insert
  queue_work this work (q, heap) = do
    w ← defined (heap work)
    ok (
      record q {
        work_list = q.work_list ++ (record { id = q.next_node; work = work } ∷ []);
        next_node = suc q.next_node;
        work_map = map_insert work q.next_node q.work_map;
        queue_event = signal api q.queue_event;
      },
      update work (some (record w { thread = some this })) heap,
    )

  -- DequeueWork(work)
  unfoldable pub dequeue_work : ℕ → WorkQueue api → Outcome (WorkQueue api)
  unfolding erase_node update
  dequeue_work work q = elim (q.work_map work) [
    | none ↦ ok q
    | some it ↦ do
      rest ← defined (erase_node it q.work_list)
      ok (record q { work_list = rest; work_map = update work none q.work_map })
  ]

  -- PendingCount()
  unfoldable pub pending_count : WorkQueue api → ℕ
  pending_count q = u32 (length q.work_list)

  -- `delete` of every work of the list; a work that is gone is deleted twice.
  unfoldable pub delete_works : List Node → Heap → Outcome Heap
  unfolding update
  delete_works [] heap = ok heap
  delete_works (x ∷ xs) heap = do
    _ ← defined (heap x.work)
    delete_works xs (update x.work none heap)

  -- Flush(delete_work_flag)
  unfoldable pub flush : Bool → WorkQueue api × Heap → Outcome (WorkQueue api × Heap)
  unfolding delete_works
  flush delete_work_flag (q, heap) = do
    rest ← (if delete_work_flag then delete_works q.work_list heap else ok heap)
    ok (record q { work_list = []; work_map = λ _. none }, rest)

  -- SetDefaultWorkFunc and GetDefaultWorkFunc
  abbrev pub set_default_work_func : Option ℕ → WorkQueue api → WorkQueue api
  set_default_work_func work_func q = record q { default_work_func = work_func }

  abbrev pub get_default_work_func : WorkQueue api → Option ℕ
  get_default_work_func q = q.default_work_func

  -- The locked part of _Run that takes the first work; none is the `break`.
  unfoldable pub take_work : WorkQueue api → Option (WorkQueue api)
  unfolding update
  take_work q = elim q.work_list [
    | [] ↦ none
    | x ∷ xs ↦ some (record q {
      is_working = true;
      current_work = some x.work;
      work_list = xs;
      work_map = update x.work none q.work_map;
    })
  ]

  -- The work function that _Run calls, its own or the default one, if there is one, and its argument.
  unfoldable pub call_of : WorkQueue api → Heap → Outcome (List (ℕ × ℕ))
  call_of q heap = do
    work ← defined q.current_work
    w ← defined (heap work)
    elim w.work_func [
      | some f ↦ ok ((f, work) ∷ [])
      | none ↦ elim q.default_work_func [ some f ↦ ok ((f, work) ∷ []) | none ↦ ok [] ]
    ]

  -- The locked part of _Run behind the call
  abbrev pub finish_work : WorkQueue api → WorkQueue api
  finish_work q = record q { is_working = false; current_work = none }
