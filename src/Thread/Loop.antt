-- ===== src/Thread/Loop.antt =====
-- The loop `while (!_Signalled())` of a thread on Linux (event/thread.h over event/event.h).
use lite_cpplib.Base.{ℕ, suc, ◌≡◌, refl, Bool, true, false, none, some, List, [], ◌∷◌, length, ◌==◌}
use lite_cpplib.Event.{Wake, wait_linux, wait_timed}
use lite_cpplib.Thread.{Test, signalled_linux}

-- What has become of the loop behind some tests: it has ended, its last test has not come back, or it
-- goes on; each with the rounds that it has made.
pub data Rounds : Type 0 where
  loop_ended loop_asleep loop_running : ℕ → Rounds

abbrev pub one_more : Rounds → Rounds
one_more (loop_ended n) = loop_ended (suc n)
one_more (loop_asleep n) = loop_asleep (suc n)
one_more (loop_running n) = loop_running (suc n)

-- The loop of a thread over the answers to its tests, the flag being `event_state` all the time.
unfoldable pub rounds_linux : Bool → List Test → Rounds
unfolding signalled_linux
rounds_linux event_state [] = loop_running 0
rounds_linux event_state (q ∷ qs) =
    let rest = rounds_linux event_state qs in
    elim (signalled_linux q event_state) [
      | none ↦ loop_asleep 0
      | some true ↦ loop_ended 0
      | some false ↦ one_more rest
    ]

-- The mutex is free, the clock is read, and a sleep, whose time has passed when it begins, ends in an
-- error.
pub record IsAnswered (q : Test) : Type 0 where
  pub locks : q.lock_result ≡ 0
  pub reads_clock : q.clock_fails ≡ false
  pub first : Wake
  pub later : List Wake
  pub sleeps : q.wakes ≡ first ∷ later
  pub times_out : (first.result == 0) ≡ false

abbrev pub AllAnswered : List Test → Type 0
AllAnswered [] = Unit {0}
AllAnswered (q ∷ qs) = IsAnswered q × AllAnswered qs

signalled_linux_lem :
    (q : Test) (event_state : Bool)
    → IsAnswered q
    → signalled_linux q event_state ≡ some (elim event_state [ true ↦ false | false ↦ true ])
unfolding signalled_linux wait_linux wait_timed
signalled_linux_lem q true a =
    simp (signalled_linux, wait_linux, wait_timed, a.locks, a.reads_clock, a.sleeps, a.times_out)
      refl
signalled_linux_lem q false a =
    simp (signalled_linux, wait_linux, wait_timed, a.locks, a.reads_clock) refl

goes_on : (qs : List Test) → AllAnswered qs → rounds_linux true qs ≡ loop_running (length qs)
unfolding rounds_linux
goes_on [] h = refl
goes_on (q ∷ qs) (h, hs) = rw (rounds_linux, signalled_linux_lem q true h, goes_on qs hs) refl

-- On Linux, with a free mutex, a clock that is read and timed sleeps that end in an error, the
-- loop `while (!_Signalled())` over the cleared flag, which nobody has asked to stop, ends before
-- its first round, and over the set flag makes a round for each of the tests and has not ended.
pub linux_loop_inverted :
    (q : Test) (qs : List Test)
    → IsAnswered q
    → AllAnswered qs
    → (rounds_linux false (q ∷ qs) ≡ loop_ended 0)
      × (rounds_linux true (q ∷ qs) ≡ loop_running (length (q ∷ qs)))
unfolding rounds_linux
linux_loop_inverted q qs a others =
    (rw (rounds_linux, signalled_linux_lem q false a) refl, goes_on (q ∷ qs) (a, others))
