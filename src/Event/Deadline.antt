-- ===== src/Event/Deadline.antt =====
-- The deadline of a timed wait (event/event.h, Event::Wait on Linux).
use lite_cpplib.Base.{ℕ, ◌+◌, ◌*◌, ◌<◌, ◌≡◌, arith}
use lite_cpplib.Event.{Timespec, deadline}

-- Nanoseconds since the epoch.
abbrev pub nanoseconds : Timespec → ℕ
nanoseconds ts = ts.tv_sec * 1000000000 + ts.tv_nsec

-- On Linux the deadline of a timed wait that starts at a time of less than 10 ^ 9 nanoseconds is a
-- time of less than 10 ^ 9 nanoseconds, `timeout` milliseconds later.
pub deadline_lem :
    (timeout : ℕ) (ts : Timespec)
    → ts.tv_nsec < 1000000000
    → ((deadline timeout ts).tv_nsec < 1000000000)
      × (nanoseconds (deadline timeout ts) ≡ nanoseconds ts + timeout * 1000000)
unfolding deadline
deadline_lem timeout ts h = ground arith
