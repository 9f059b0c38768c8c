-- ===== src/Thread.antt =====
-- event/thread.h: class Thread on Windows and on Linux, from the answers of the system's calls. What a
-- thread logs is left out.
pub mod Stopping
pub mod Loop
mod Tests
use lite_cpplib.Base.{
  ℕ, ◌+◌, ◌-◌, ◌^◌, Bool, true, false, not, ◌||◌, Option, none, some, List, [], ◌∷◌, ltb, ◌==◌,
  if◌then◌else◌, u32, Outcome, ok, throw, runtime_error, ◌>>=◌, ◌>>◌, throw_if,
}
use lite_cpplib.Event.{
  EventApi, Event, reset, signal, wait, reset_linux, signal_linux, Wake, Waited, returned, asleep,
  wait_linux,
}

-- class Thread on Windows, without the logger. The handle is NULL or names a thread of the system.
pub record Thread (api : EventApi) : Type 0 where
  pub name : List ℕ
  pub id : ℕ
  pub event : Event api
  pub thread_handle : Option ℕ

module _ (api : EventApi) where
  -- Thread(name, logger), with the event that its member's constructor makes
  unfoldable pub new_thread : List ℕ → Event api → Thread api
  new_thread name event = record { name = name; id = 0; event = event; thread_handle = none }

  -- Name() and SetName(name)
  abbrev pub name_of : Thread api → List ℕ
  name_of t = t.name

  abbrev pub set_name : List ℕ → Thread api → Thread api
  set_name name t = record t { name = name }

  -- Id()
  abbrev pub id_of : Thread api → ℕ
  id_of t = t.id

  -- Signal()
  unfoldable pub signal_thread : Thread api → Thread api
  signal_thread t = record t { event = signal api t.event }

  -- Active(), from whether a wait of 0 ms for the thread ends in WAIT_TIMEOUT
  unfoldable pub active : Bool → Thread api → Bool
  active times_out t = elim t.thread_handle [ none ↦ false | some _ ↦ times_out ]

  -- _Signalled()
  unfoldable pub signalled : Thread api → Bool
  signalled t = wait api t.event

  -- The part of Start that makes the thread: the handle and the id of _beginthreadex, or none.
  unfoldable pub create_thread : Option (ℕ × ℕ) → Thread api → Outcome (Thread api)
  create_thread made t = elim t.thread_handle [
    | some _ ↦ ok t
    | none ↦ elim made [
      | none ↦ throw runtime_error
      | some (handle, id) ↦ ok (record t { thread_handle = some handle; id = id })
    ]
  ]

  -- Start(), with the answer of ResumeThread
  unfoldable pub start : Option (ℕ × ℕ) → ℕ → Thread api → Outcome (Bool × Thread api)
  unfolding create_thread
  start made resumed t = do
    t' ← create_thread made t
    ok (not (resumed == 0xffffffff), record t' { event = reset api t'.event })

-- `GetTickCount() - t1`
abbrev pub elapsed : ℕ → ℕ → ℕ
elapsed t1 ticks = u32 (ticks + 2 ^ 32 - t1)

-- A round of the loop that resumes the thread: what ResumeThread and GetTickCount answer.
pub record Resumption : Type 0 where
  pub result : ℕ
  pub ticks : ℕ

-- Whether the loop has ended with the answers so far.
unfoldable pub resume_loop : ℕ → ℕ → List Resumption → Bool
resume_loop timeout t1 [] = false
resume_loop timeout t1 (r ∷ rs) =
    let rest = resume_loop timeout t1 rs in
    if r.result == 0xffffffff || r.result == 0
    then true
    else if ltb timeout (elapsed t1 r.ticks)
    then true
    else rest

pub data WaitResult : Type 0 where
  wait_timeout wait_object_0 wait_failed : WaitResult

-- A round of the loop that waits for the thread: GetTickCount at its test, and what the wait of 15 ms
-- ends in.
pub record Look : Type 0 where
  pub ticks : ℕ
  pub result : WaitResult

-- How Stop leaves the thread: ended by itself, terminated because the wait failed, or terminated
-- because it was alive at the end of the timeout.
pub data Left : Type 0 where
  ended terminated_failed terminated_alive : Left

-- none as long as the answers so far leave the loop running
unfoldable pub wait_loop : ℕ → ℕ → List Look → Option Left
wait_loop timeout t1 [] = none
wait_loop timeout t1 (l ∷ ls) =
    let rest = wait_loop timeout t1 ls in
    if ltb (elapsed t1 l.ticks) timeout
    then elim l.result [
      | wait_timeout ↦ rest
      | wait_object_0 ↦ some ended
      | wait_failed ↦ some terminated_failed
    ]
    else some terminated_alive

module _ (api : EventApi) where
  -- Stop(timeout), which started at `t1`: how the thread is left, and the object; none as long as a
  -- loop goes on with the answers so far. It always returns true.
  unfoldable pub stop :
      ℕ → ℕ → List Resumption → List Look → Thread api → Option (Left × Thread api)
  unfolding resume_loop wait_loop signal_thread
  stop timeout t1 resumptions looks t =
      if resume_loop timeout t1 resumptions
      then elim (wait_loop timeout t1 looks) [
        | none ↦ none
        | some left ↦ some (left, record (signal_thread api t) { thread_handle = none })
      ]
      else none

  -- ~Thread()
  unfoldable pub destroy :
      ℕ → List Resumption → List Look → Thread api → Option (Option Left × Thread api)
  unfolding stop
  destroy t1 resumptions looks t = elim t.thread_handle [
    | none ↦ some (none, t)
    | some _ ↦ elim (stop 500 t1 resumptions looks t) [
      | none ↦ none
      | some (left, t') ↦ some (some left, t')
    ]
  ]

-- The members of the class on Linux: the handle is 0 or names a thread, and the event is its flag.
pub record ThreadLinux : Type 0 where
  pub id_linux : ℕ
  pub event_state : Bool
  pub handle_linux : ℕ

-- The calls that make a thread, in their order, with what they return.
pub record Creation : Type 0 where
  pub attr_init : ℕ
  pub attr_setstacksize : ℕ
  pub attr_setdetachstate : ℕ
  pub create : ℕ
  pub handle : ℕ

-- The `do … while (0)` of Start: `ret`, and the object. `pthread_create` has set the handle, whatever
-- it returns.
unfoldable pub create_linux : Creation → ThreadLinux → ℕ × ThreadLinux
create_linux c t =
    if not (c.attr_init == 0)
    then (c.attr_init, t)
    else if not (c.attr_setstacksize == 0)
    then (c.attr_setstacksize, t)
    else if not (c.attr_setdetachstate == 0)
    then (c.attr_setdetachstate, t)
    else (c.create, record t { handle_linux = c.handle; id_linux = u32 c.handle })

-- Start(), with the answer of pthread_mutex_lock in Reset
unfoldable pub start_linux : Creation → ℕ → ThreadLinux → Outcome ThreadLinux
unfolding create_linux
start_linux c lock_result t =
    let made = create_linux c t in
    let fresh : Outcome ThreadLinux = do
      throw_if (not (made.0 == 0)) runtime_error
      event_state ← reset_linux lock_result t.event_state
      ok (record (made.1) { event_state = event_state })
    in let again : Outcome ThreadLinux = do
      event_state ← reset_linux lock_result t.event_state
      ok (record t { event_state = event_state })
      in if t.handle_linux == 0 then fresh else again

-- How Stop leaves the thread on Linux: joined, or detached and cancelled.
pub data LeftLinux : Type 0 where
  joined cancelled : LeftLinux

-- Stop(timeout), where joins without a limit return: the answers of the event's lock, of the clock
-- and of pthread_timedjoin_np.
unfoldable pub stop_linux : ℕ → ℕ → Bool → ℕ → ThreadLinux → Outcome (LeftLinux × ThreadLinux)
stop_linux timeout lock_result clock_fails timedjoin_result t = do
  event_state ← signal_linux lock_result t.event_state
  ok (
    (if timeout == 0xffffffff
        then joined
        else if clock_fails
        then joined
        else if timedjoin_result == 0
        then joined
        else cancelled),
    record t { event_state = event_state; handle_linux = 0 },
  )

-- A test of `_Signalled()`: the answers of pthread_mutex_trylock and of clock_gettime, and the sleeps on
-- the condition.
pub record Test : Type 0 where
  pub lock_result : ℕ
  pub clock_fails : Bool
  pub wakes : List Wake

-- _Signalled() on Linux, if its wait has returned.
unfoldable pub signalled_linux : Test → Bool → Option Bool
signalled_linux q event_state =
    elim (wait_linux 0 q.lock_result q.clock_fails event_state q.wakes) [
      | returned answer _ ↦ some answer
      | asleep ↦ none
    ]
