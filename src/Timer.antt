-- ===== src/Timer.antt =====
-- tools/timer.h: class Timer on Windows, and the thread that hosts the timers of low precision.
pub mod Counting
pub mod Hosting
mod Tests
use lite_cpplib.Base.{
  ℕ, suc, ◌+◌, ◌-◌, Bool, true, false, not, ◌&&◌, Option, none, some, List, [], ◌∷◌, ltb, ◌==◌,
  if◌then◌else◌, Outcome, ok, throw, undefined, invalid_param, ◌>>=◌, defined,
}
use lite_cpplib.Event.{EventApi, Event, reset, signal, wait}
use lite_cpplib.Thread.{Thread, new_thread, start, active, Resumption, Look, Left, stop}

-- Timer::TIMERTYPE
pub data TimerType : Type 0 where
  timer_default timer_high_resolution : TimerType

-- TimerHostThread: the thread, its events, and the request that StartTimer makes of it. A timer's handle
-- and its object are numbers, with none for NULL.
pub record TimerHostThread (api : EventApi) : Type 0 where
  pub thread : Thread api
  pub event_action : Event api
  pub event_done : Event api
  pub timer : Option ℕ
  pub timespan : ℕ
  pub user_data : Option ℕ
  pub ret : Bool

-- `==` of two values of type bool
abbrev pub same_bool : Bool → Bool → Bool
same_bool true b = b
same_bool false b = not b

abbrev pub is_given : Option ℕ → Bool
is_given none = false
is_given (some _) = true

module _ (api : EventApi) where
  -- TimerHostThread(), with the events that the constructors of its members make
  unfoldable pub new_host : Event api → Event api → Event api → TimerHostThread api
  unfolding new_thread
  new_host event event_action event_done = record {
    thread = new_thread api [] event;
    event_action = event_action;
    event_done = event_done;
    timer = none;
    timespan = 0;
    user_data = none;
    ret = false;
  }

  -- StartTimer up to its test of Active()
  unfoldable pub request : Option ℕ → ℕ → Option ℕ → TimerHostThread api → TimerHostThread api
  request timer timespan user_data h = record h {
    timer = timer;
    timespan = timespan;
    user_data = user_data;
    ret = false;
    event_done = reset api h.event_done;
    event_action = signal api h.event_action;
  }

  -- The body of the loop of _Run, from what SetWaitableTimer answers. Nobody catches the exception: it
  -- ends the program.
  unfoldable pub serve : Bool → TimerHostThread api → Outcome (TimerHostThread api)
  serve sets h =
      let taken = record h { event_action = reset api h.event_action } in
      let answered = ok (record taken { ret = sets; event_done = signal api h.event_done }) in
      let acts =
        if is_given h.timer && ltb 0 h.timespan && is_given h.user_data
        then answered
        else throw invalid_param in
      if wait api h.event_action then acts else ok h

  -- StartTimer(timer, timespan, user_data): the wait of an active thread ends when the thread has
  -- served the request; none if it never does.
  unfoldable pub start_timer :
      Bool
      → Bool
      → Option ℕ
      → ℕ
      → Option ℕ
      → TimerHostThread api
      → Outcome (Option (Bool × TimerHostThread api))
  unfolding request serve active
  start_timer times_out sets timer timespan user_data h = do
    let asked = request timer timespan user_data h
    let waits : Outcome (Option (Bool × TimerHostThread api)) = do
      h' ← serve sets asked
      ok (if wait api h'.event_done then some (h'.ret, h') else none)
    if active api times_out asked.thread then waits else ok (some (asked.ret, asked))

-- class Timer. `time_span` is not negative.
pub record Timer (api : EventApi) : Type 0 where
  pub type_of : TimerType
  pub time_span : ℕ
  pub not_running : Event api
  pub is_started : Bool
  pub timer_handle : Option ℕ
  pub timer_id : ℕ

-- The static variables of Activate, which all timers share
pub record Shared (api : EventApi) : Type 0 where
  pub default_timer_counter : ℕ
  pub timer_host_thread : Option (TimerHostThread api)

-- What the system answers to Activate: CreateWaitableTimer, _beginthreadex and ResumeThread for the
-- host's thread, the wait of Active, SetWaitableTimer, timeSetEvent, and what Stop of the host sees.
pub record Activation : Type 0 where
  pub creates : Option ℕ
  pub thread_made : Option (ℕ × ℕ)
  pub resumed : ℕ
  pub times_out : Bool
  pub sets : Bool
  pub event_id : ℕ
  pub t1 : ℕ
  pub resumptions : List Resumption
  pub looks : List Look

module _ (api : EventApi) where
  -- Timer(time_span, type), with the event of its member
  unfoldable pub new_timer : ℕ → TimerType → Event api → Timer api
  new_timer time_span type_of event = record {
    type_of = type_of;
    time_span = if time_span == 0 then 1000 else time_span;
    not_running = reset api event;
    is_started = false;
    timer_handle = none;
    timer_id = 0;
  }

  -- timerproc_default and timerproc_highresolution, before and after OnTimer
  unfoldable pub begin_callback : Timer api → Timer api
  begin_callback t = record t { not_running = reset api t.not_running }

  unfoldable pub end_callback : Timer api → Timer api
  end_callback t = record t { not_running = signal api t.not_running }

  -- `if (--default_timer_counter == 0)` with its block; none as long as Stop of the host goes on. The
  -- counter is not 0 before (`Counting`).
  unfoldable pub release_host : Activation → Shared api → Outcome (Option (Shared api))
  unfolding stop
  release_host q g =
      let fewer = g.default_timer_counter - 1 in
      let stops : Outcome (Option (Shared api)) = do
        h ← defined g.timer_host_thread
        ok (elim (stop api 0xffffffff q.t1 q.resumptions q.looks h.thread) [
          | none ↦ none
          | some _ ↦ some (record { default_timer_counter = fewer; timer_host_thread = none })
        ])
      in if fewer == 0 then stops else ok (some (record g { default_timer_counter = fewer }))

  -- The host's thread, made and started if there is none. `fresh` is the object that `new` makes.
  unfoldable pub host_of :
      TimerHostThread api → Activation → Shared api → Outcome (TimerHostThread api)
  unfolding start
  host_of fresh q g = elim g.timer_host_thread [
    | some h ↦ ok h
    | none ↦ do
      (_, thread) ← start api q.thread_made q.resumed fresh.thread
      ok (record fresh { thread = thread })
  ]

  -- What StartTimer's answer makes of the timer, where the counter has become `more`
  unfoldable pub after_start :
      Activation
      → ℕ
      → Timer api
      → ℕ
      → Option (Bool × TimerHostThread api)
      → Outcome (Option (Timer api × Shared api))
  unfolding release_host
  after_start q handle t more none = ok none
  after_start q handle t more (some (true, h)) = ok (
      some (
        record t { timer_handle = some handle; is_started = true },
        record { default_timer_counter = more; timer_host_thread = some h },
      ))
  after_start q handle t more (some (false, h)) = do
    released ← release_host q (record { default_timer_counter = more; timer_host_thread = some h })
    ok (elim released [
      | none ↦ none
      | some g ↦ some (record t { timer_handle = none; is_started = false }, g)
    ])

  -- The case TIMER_Default of Activate(true), from the timer's handle on
  unfoldable pub open_default :
      ℕ
      → TimerHostThread api
      → Activation
      → ℕ
      → Timer api
      → Shared api
      → Outcome (Option (Timer api × Shared api))
  unfolding host_of start_timer after_start
  open_default this fresh q handle t g = do
    h ← host_of fresh q g
    started ← start_timer api q.times_out q.sets (some handle) t.time_span (some this) h
    after_start q handle t (suc g.default_timer_counter) started

  -- Activate(true) of a timer at the address `this`
  unfoldable pub open_timer :
      ℕ
      → TimerHostThread api
      → Activation
      → Timer api
      → Shared api
      → Outcome (Option (Timer api × Shared api))
  unfolding open_default
  open_timer this fresh q t g =
      let t' = record t { not_running = signal api t.not_running } in
      elim t.type_of [
        | timer_default ↦ elim q.creates [
          | none ↦ ok (some (record t' { timer_handle = none; is_started = false }, g))
          | some handle ↦ open_default this fresh q handle t' g
        ]
        | timer_high_resolution ↦
            ok (some (record t' { timer_id = q.event_id; is_started = not (q.event_id == 0) }, g))
      ]

  -- `not_running_.Wait()` and what follows; none if the wait does not end
  unfoldable pub close_rest : Timer api × Shared api → Option (Timer api × Shared api)
  close_rest (t, g) =
      if wait api t.not_running then some (record t { is_started = false }, g) else none

  -- Activate(false)
  unfoldable pub close_timer :
      Activation → Timer api → Shared api → Outcome (Option (Timer api × Shared api))
  unfolding release_host close_rest
  close_timer q t g = elim t.type_of [
    | timer_default ↦ elim t.timer_handle [
      | none ↦ ok (close_rest (t, g))
      | some _ ↦ do
        released ← release_host q g
        ok (elim released [
          | none ↦ none
          | some g' ↦ close_rest (record t { timer_handle = none }, g')
        ])
    ]
    | timer_high_resolution ↦ ok (close_rest (record t { timer_id = 0 }, g))
  ]

  -- Activate(is_open): its answer, or none while it is waited for
  unfoldable pub activate :
      Bool
      → ℕ
      → TimerHostThread api
      → Activation
      → Timer api
      → Shared api
      → Outcome (Option (Bool × (Timer api × Shared api)))
  unfolding open_timer close_timer
  activate is_open this fresh q t g = do
    let opens : Outcome (Option (Bool × (Timer api × Shared api))) = do
      r ← open_timer this fresh q t g
      ok (elim r [ none ↦ none | some (t', g') ↦ some (t'.is_started, (t', g')) ])
    let closes : Outcome (Option (Bool × (Timer api × Shared api))) = do
      r ← close_timer q t g
      ok (elim r [ none ↦ none | some s ↦ some (true, s) ])
    let changes = if is_open then opens else closes
    if same_bool is_open t.is_started then ok (some (true, (t, g))) else changes

  -- Activate(time_span, type)
  unfoldable pub activate_as :
      ℕ
      → TimerType
      → ℕ
      → TimerHostThread api
      → Activation
      → Timer api
      → Shared api
      → Outcome (Option (Bool × (Timer api × Shared api)))
  unfolding activate
  activate_as time_span type_of this fresh q t g =
      if t.is_started
      then ok (some (true, (t, g)))
      else activate true this fresh q (record t { time_span = time_span; type_of = type_of }) g
