-- ===== src/Event/Linux.antt =====
-- Event::Wait on Linux (event/event.h): which waits end, and with which answer.
use lite_cpplib.Base.{
  ℕ, ◌<◌, ◌≡◌, inl, inr, refl, Bool, true, false, List, [], ◌∷◌, ◌++◌, arith, ◌==◌, Bool-cases,
}
use lite_cpplib.Event.{Wake, returned, asleep, wait_signalled, wait_timed, wait_linux}

-- Sleeps that all end because of a broadcast or spuriously, and find the flag as `state`.
abbrev pub AllWoken : Bool → List Wake → Type 0
AllWoken state [] = Unit {0}
AllWoken state (w ∷ ws) = (w.result ≡ 0) × (w.event_state ≡ state) × AllWoken state ws

wait_signalled_sleeps :
    (before : List Wake) (w : Wake) (after : List Wake)
    → AllWoken false before
    → w.result ≡ 0
    → w.event_state ≡ true
    → wait_signalled false (before ++ (w ∷ after)) ≡ returned true true
unfolding wait_signalled
wait_signalled_sleeps [] w after h ok_result set = rw (ok_result, set) refl
wait_signalled_sleeps (b ∷ before) w after (zero_result, unset, h) ok_result set =
    rw (zero_result, unset) (wait_signalled_sleeps before w after h ok_result set)

wait_signalled_sound :
    (e saw : Bool) (ws : List Wake) → wait_signalled e ws ≡ returned true saw → saw ≡ true
unfolding wait_signalled
wait_signalled_sound true saw ws h = grind arith
wait_signalled_sound false saw [] h = grind arith
wait_signalled_sound false saw (w ∷ ws) h =
    ground (arith, wait_signalled_sound w.event_state saw ws)

-- On Linux a wait without limit, with the mutex locked, that starts on a cleared flag goes on
-- through sleeps that end without an error and find the flag cleared, and answers true at the
-- first that finds it set.
pub wait_unlimited_returns :
    (clock_fails : Bool) (before : List Wake) (w : Wake) (after : List Wake)
    → AllWoken false before
    → w.result ≡ 0
    → w.event_state ≡ true
    → wait_linux 0xffffffff 0 clock_fails false (before ++ (w ∷ after)) ≡ returned true true
unfolding wait_linux
wait_unlimited_returns clock_fails = wait_signalled_sleeps

-- A wait without limit answers true only when the flag that it last saw is set.
pub wait_unlimited_sound :
    (lock_result : ℕ) (clock_fails e saw : Bool) (ws : List Wake)
    → wait_linux 0xffffffff lock_result clock_fails e ws ≡ returned true saw
    → saw ≡ true
unfolding wait_linux
wait_unlimited_sound lock_result clock_fails e saw ws h = elim (Bool-cases (lock_result == 0)) [
  | inl p ↦ wait_signalled_sound e saw ws (rw p at h)
  | inr p ↦ grind arith
]

-- On Linux a wait with a limit, with the mutex locked and the clock read, answers true at once
-- when the flag is cleared, and goes to sleep when it is set.
pub wait_limited_inverted :
    (timeout : ℕ) (ws : List Wake)
    → timeout < 0xffffffff
    → (wait_linux timeout 0 false false ws ≡ returned true false)
      × (wait_linux timeout 0 false true [] ≡ asleep)
unfolding wait_linux wait_timed
wait_limited_inverted timeout ws h = ground arith
