-- ===== src/Thread/Stopping.antt =====
-- Start and Stop of class Thread (event/thread.h): that Stop returns, how it leaves the thread, and what
-- Start does to a request to stop.
use lite_cpplib.Base.{
  ℕ, zero, suc, ◌-◌, ◌≤◌, ◌<◌, ◌≡◌, refl, ap, ◌∙◌, true, false, not, Option, none, some, List, [],
  ◌∷◌, ◌++◌, length, arith, lt→ltb, ge→ltb, ◌==◌, ok,
}
use lite_cpplib.Event.{EventApi, signal, reset}
use lite_cpplib.Event.Windows.{IsDocumented, HasHandle, event_lem}
use lite_cpplib.Thread.{
  Thread, signal_thread, signalled, create_thread, start, elapsed, Resumption, resume_loop,
  wait_timeout, wait_object_0, wait_failed, Look, Left, ended, terminated_failed, terminated_alive,
  wait_loop, stop,
}

-- What ResumeThread is documented to answer: the thread's suspend count, which it then lowers by one.
abbrev pub IsCountdown : ℕ → List Resumption → Type 0
IsCountdown n [] = Unit {0}
IsCountdown n (r ∷ rs) = (r.result ≡ n) × IsCountdown (n - 1) rs

resume_loop_lem :
    (timeout t1 n : ℕ) (rs : List Resumption)
    → IsCountdown n rs
    → n < length rs
    → resume_loop timeout t1 rs ≡ true
unfolding resume_loop
resume_loop_lem timeout t1 n [] h long = absurd (omega arith)
resume_loop_lem timeout t1 zero (r ∷ rs) (e, h) long = rw e refl
resume_loop_lem timeout t1 (suc n) (r ∷ rs) (e, h) long =
    ground (arith, resume_loop_lem timeout t1 (suc n - 1) rs h (omega arith))

-- The thread still runs at the looks, which are within the timeout.
abbrev pub AllRunning : ℕ → ℕ → List Look → Type 0
AllRunning timeout t1 [] = Unit {0}
AllRunning timeout t1 (l ∷ ls) =
    (elapsed t1 l.ticks < timeout) × (l.result ≡ wait_timeout) × AllRunning timeout t1 ls

-- A look that ends the loop, and how the thread is then left.
pub data Decides (timeout t1 : ℕ) (l : Look) : Left → Type 0 where
  has_ended : elapsed t1 l.ticks < timeout → l.result ≡ wait_object_0 → Decides timeout t1 l ended
  has_failed :
      elapsed t1 l.ticks < timeout → l.result ≡ wait_failed → Decides timeout t1 l terminated_failed
  too_late : timeout ≤ elapsed t1 l.ticks → Decides timeout t1 l terminated_alive

wait_loop_lem :
    (timeout t1 : ℕ) (before : List Look) (l : Look) (after : List Look) (left : Left)
    → AllRunning timeout t1 before
    → Decides timeout t1 l left
    → wait_loop timeout t1 (before ++ (l ∷ after)) ≡ some left
unfolding wait_loop
wait_loop_lem timeout t1 [] l after left h (has_ended lt e) = rw (lt→ltb _ _ lt, e) refl
wait_loop_lem timeout t1 [] l after left h (has_failed lt e) = rw (lt→ltb _ _ lt, e) refl
wait_loop_lem timeout t1 [] l after left h (too_late le) = rw (ge→ltb _ _ le) refl
wait_loop_lem timeout t1 (b ∷ before) l after left (lt, e, h) d =
    rw (lt→ltb _ _ lt, e) (wait_loop_lem timeout t1 before l after left h d)

-- Answers with which Stop comes to an end.
pub record IsEnding (timeout t1 : ℕ) (resumptions : List Resumption) (looks : List Look)
    : Type 0 where
  pub suspended : ℕ
  pub counts : IsCountdown suspended resumptions
  pub enough : suspended < length resumptions
  pub before : List Look
  pub last : Look
  pub after : List Look
  pub splits : looks ≡ before ++ (last ∷ after)
  pub running : AllRunning timeout t1 before
  pub left : Left
  pub decides : Decides timeout t1 last left

module _ (api : EventApi) (d : IsDocumented api) where
  -- On Windows, Stop of a thread that runs comes to an end when ResumeThread counts down as
  -- documented for long enough and a look of the wait loop decides: the thread is left as that
  -- look says (ended, or terminated because the wait failed or the time was over), the handle is
  -- gone, the stop request is set, and the name, the id and the event's handle stay.
  pub stop_lem :
      (timeout t1 n : ℕ) (resumptions : List Resumption) (before : List Look) (l : Look)
      (after : List Look) (left : Left) (t : Thread api)
      → IsCountdown n resumptions
      → n < length resumptions
      → AllRunning timeout t1 before
      → Decides timeout t1 l left
      → HasHandle api t.event
      → (t' : Thread api) × (stop api timeout t1 resumptions (before ++ (l ∷ after)) t
          ≡ some (left, t'))
        × (t'.thread_handle ≡ none)
        × (signalled api t' ≡ true)
        × (t'.name ≡ t.name)
        × (t'.id ≡ t.id)
        × HasHandle api t'.event
  unfolding stop signal_thread signalled
  stop_lem timeout t1 n resumptions before l after left t counts enough running decides held =
      let (set, _, kept, _) = event_lem api d t.event held in
      (
        record (signal_thread api t) { thread_handle = none },
        rw
            (
              resume_loop_lem timeout t1 n resumptions counts enough,
              wait_loop_lem timeout t1 before l after left running decides,
            )
            refl,
        refl,
        set,
        refl,
        refl,
        kept,
      )

  pub stop_ends :
      (timeout t1 : ℕ) (resumptions : List Resumption) (looks : List Look) (t : Thread api)
      → IsEnding timeout t1 resumptions looks
      → HasHandle api t.event
      → (left : Left) × (t' : Thread api) × (stop api timeout t1 resumptions looks t
          ≡ some (left, t'))
        × (t'.thread_handle ≡ none)
        × HasHandle api t'.event
  stop_ends timeout t1 resumptions looks t e held =
      let (t', ends, gone, _, _, _, kept) =
        stop_lem timeout t1 e.suspended resumptions e.before e.last e.after e.left t e.counts
          e.enough e.running e.decides held in
      (e.left, t', ap (λ l. stop api timeout t1 resumptions l t) e.splits ∙ ends, gone, kept)

  pub start_new :
      (handle id resumed : ℕ) (t : Thread api)
      → HasHandle api t.event
      → t.thread_handle ≡ none
      → (t' : Thread api) × (start api (some (handle, id)) resumed t
          ≡ ok (not (resumed == 0xffffffff), t'))
        × (t'.thread_handle ≡ some handle)
        × (t'.id ≡ id)
        × (signalled api t' ≡ false)
        × HasHandle api t'.event
  unfolding start create_thread signalled
  start_new handle id resumed t held e =
      let (_, unset, _, kept) = event_lem api d t.event held in
      (
        record t { thread_handle = some handle; id = id; event = reset api t.event },
        simp (start, create_thread, e) refl,
        refl,
        refl,
        unset,
        kept,
      )

  -- Start of a thread that has a handle makes no other one, but resets the event: a stop request
  -- that was signalled before is gone.
  pub start_again_cancels :
      (made : Option (ℕ × ℕ)) (handle resumed : ℕ) (t : Thread api)
      → HasHandle api t.event
      → t.thread_handle ≡ some handle
      → (t' : Thread api) × (start api made resumed (signal_thread api t)
          ≡ ok (not (resumed == 0xffffffff), t'))
        × (t'.thread_handle ≡ some handle)
        × (t'.id ≡ t.id)
        × (signalled api t' ≡ false)
  unfolding start create_thread signalled signal_thread
  start_again_cancels made handle resumed t held e =
      let (_, _, kept, _) = event_lem api d t.event held in
      let (_, unset, _, _) = event_lem api d (signal api t.event) kept in
      (
        record t { event = reset api (signal api t.event) },
        simp (start, create_thread, e) refl,
        e,
        refl,
        unset,
      )

  -- Start of a thread that has been stopped.
  pub restart_lem :
      (timeout t1 n : ℕ) (resumptions : List Resumption) (before : List Look) (l : Look)
      (after : List Look) (left : Left) (handle id resumed : ℕ) (t : Thread api)
      → IsCountdown n resumptions
      → n < length resumptions
      → AllRunning timeout t1 before
      → Decides timeout t1 l left
      → HasHandle api t.event
      → (s : Thread api) × (stop api timeout t1 resumptions (before ++ (l ∷ after)) t
          ≡ some (left, s))
        × (signalled api s ≡ true)
        × (t' : Thread api) × (start api (some (handle, id)) resumed s
            ≡ ok (not (resumed == 0xffffffff), t'))
        × (t'.thread_handle ≡ some handle)
        × (t'.id ≡ id)
        × (signalled api t' ≡ false)
  restart_lem timeout t1 n resumptions before l after left handle id resumed t counts enough running
        decides held =
      let (s, eq, gone, set, _, _, kept) =
        stop_lem timeout t1 n resumptions before l after left t counts enough running decides
          held in
      let (t', eq', has, same_id, unset, _) = start_new handle id resumed s kept gone in
      (s, eq, set, t', eq', has, same_id, unset)
