-- ===== src/Event.antt =====
-- event/event.h: class Event on Windows, over the event objects of the system, and on Linux, over a
-- mutex, a condition and a flag.
pub mod Deadline
pub mod Windows
pub mod Linux
mod Tests
use lite_cpplib.Base.{
  ℕ, ◌+◌, ◌-◌, ◌*◌, ◌/◌, ◌%◌, ◌^◌, Bool, true, false, not, Option, none, some, List, [], ◌∷◌, leb,
  ◌==◌, if◌then◌else◌, Outcome, ok, throw, runtime_error, int_minus_one,
}

-- The manual-reset event objects of Windows: SetEvent, ResetEvent, and whether WaitForSingleObject
-- returns WAIT_OBJECT_0 when it ends in that state. CreateEvent's object starts as `created`.
pub record EventApi : Type 1 where
  pub State : Type 0
  pub created : State
  pub set_event : State → State
  pub reset_event : State → State
  pub wait_object : State → Bool

-- Class Event on Windows: the handle is NULL or denotes an object.
pub record Event (api : EventApi) : Type 0 where
  pub event_handle : Option api.State

-- Event(), from whether CreateEvent succeeds.
unfoldable pub new_event : (api : EventApi) → Bool → Outcome (Event api)
new_event api true = ok (record { event_handle = some api.created })
new_event api false = throw runtime_error

-- Reset()
unfoldable pub reset : (api : EventApi) → Event api → Event api
reset api e = elim e.event_handle [
  | none ↦ e
  | some s ↦ record { event_handle = some (api.reset_event s) }
]

-- Signal()
unfoldable pub signal : (api : EventApi) → Event api → Event api
signal api e = elim e.event_handle [
  | none ↦ e
  | some s ↦ record { event_handle = some (api.set_event s) }
]

-- Wait(timeout), from the state that the object has when the wait ends.
unfoldable pub wait : (api : EventApi) → Event api → Bool
wait api e = elim e.event_handle [ none ↦ false | some s ↦ api.wait_object s ]

-- The flag of the Linux class, with the answers of pthread_mutex_lock.
unfoldable pub reset_linux : ℕ → Bool → Outcome Bool
reset_linux lock_result event_state = if lock_result == 0 then ok false else throw int_minus_one

unfoldable pub signal_linux : ℕ → Bool → Outcome Bool
signal_linux lock_result event_state = if lock_result == 0 then ok true else throw runtime_error

-- What a sleep on the condition ends in: the code that pthread_cond_wait or pthread_cond_timedwait
-- returns, and the flag at that time.
pub record Wake : Type 0 where
  pub result : ℕ
  pub event_state : Bool

-- A wait has returned, with the flag it last saw, or still sleeps after the wakes so far.
pub data Waited : Type 0 where
  returned : Bool → Bool → Waited
  asleep : Waited

-- `while (!event_state_)` around pthread_cond_wait
unfoldable pub wait_signalled : Bool → List Wake → Waited
wait_signalled true ws = returned true true
wait_signalled false [] = asleep
wait_signalled false (w ∷ ws) =
    let rest = wait_signalled w.event_state ws in
    if w.result == 0 then rest else returned false w.event_state

-- `while (event_state_)` around the timed wait, as it is written
unfoldable pub wait_timed : Bool → List Wake → Waited
wait_timed false ws = returned true false
wait_timed true [] = asleep
wait_timed true (w ∷ ws) =
    let rest = wait_timed w.event_state ws in
    if w.result == 0 then rest else returned false w.event_state

pub record Timespec : Type 0 where
  pub tv_sec : ℕ
  pub tv_nsec : ℕ

-- The time that a wait of `timeout` milliseconds ends at. tv_sec and tv_nsec have 64 bits.
unfoldable pub deadline : ℕ → Timespec → Timespec
deadline timeout ts =
    let sec = ts.tv_sec + timeout / 1000 in
    let nsec = ts.tv_nsec + (timeout % 1000) * 1000000 in
    if leb 1000000000 nsec
    then record { tv_sec = sec + 1; tv_nsec = nsec - 1000000000 }
    else record { tv_sec = sec; tv_nsec = nsec }

-- Wait(timeout) on Linux: the answer of pthread_mutex_trylock (for a timeout of 0) or
-- pthread_mutex_lock, whether clock_gettime answers -1, the flag, and the sleeps on the condition.
unfoldable pub wait_linux : ℕ → ℕ → Bool → Bool → List Wake → Waited
unfolding wait_signalled wait_timed
wait_linux timeout lock_result clock_fails event_state ws =
    if not (lock_result == 0)
    then returned false event_state
    else if timeout == 0xffffffff
    then wait_signalled event_state ws
    else if clock_fails
    then returned false event_state
    else wait_timed event_state ws
