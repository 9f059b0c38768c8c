-- ===== src/Timer/Hosting.antt =====
-- StartTimer and its host (tools/timer.h), and a timer that is opened and closed.
use lite_cpplib.Base.{
  ℕ, ◌<◌, ◌≡◌, refl, ap, ap₂, ◌∙◌, Bool, true, false, not, ◌&&◌, none, some, ltb, lt→ltb, ◌==◌, ok,
  throw, invalid_param, ◌>>=◌, bind_then, bind_throw, if_then, if_else,
}
use lite_cpplib.Event.{EventApi, reset, signal, wait}
use lite_cpplib.Event.Windows.{IsDocumented, HasHandle, event_lem}
use lite_cpplib.Thread.{start, active}
use lite_cpplib.Thread.Stopping.{IsEnding, stop_ends, start_new}
use lite_cpplib.Timer.{
  timer_default, TimerHostThread, is_given, same_bool, Timer, Shared, Activation, request, serve,
  start_timer, release_host, host_of, after_start, open_default, open_timer, close_rest,
  close_timer, activate, activate_as,
}

module _ (api : EventApi) (d : IsDocumented api) where
  -- A host whose events have their handles
  pub record IsReady (h : TimerHostThread api) : Type 0 where
    pub thread_event : HasHandle api h.thread.event
    pub action : HasHandle api h.event_action
    pub done : HasHandle api h.event_done

  -- StartTimer of a host that runs and answers in time.
  pub start_timer_lem :
      (sets : Bool) (timer timespan user_data handle : ℕ) (h : TimerHostThread api)
      → IsReady h
      → h.thread.thread_handle ≡ some handle
      → 0 < timespan
      → (h' : TimerHostThread api) × (start_timer api true sets
            (some timer)
            timespan
            (some user_data)
            h
          ≡ ok (some (sets, h')))
        × (h'.thread ≡ h.thread)
        × (h'.timer ≡ some timer)
        × (h'.timespan ≡ timespan)
        × (wait api h'.event_action ≡ false)
        × IsReady h'
  unfolding start_timer request serve active
  start_timer_lem sets timer timespan user_data handle h ready runs long =
      let (set, _, kept, _) = event_lem api d h.event_action ready.action in
      let (_, _, _, kept') = event_lem api d h.event_done ready.done in
      let (_, unset, _, kept_action) = event_lem api d (signal api h.event_action) kept in
      let (done, _, kept_done, _) = event_lem api d (reset api h.event_done) kept' in
      let asked = request api (some timer) timespan (some user_data) h in
      let h' : TimerHostThread api = record asked {
        ret = sets;
        event_action = reset api (signal api h.event_action);
        event_done = signal api (reset api h.event_done);
      } in
      let is_active : active api true h.thread ≡ true = rw runs refl in
      let tests : (is_given asked.timer && ltb 0 asked.timespan && is_given asked.user_data)
          ≡ true =
        rw (lt→ltb 0 timespan long) refl in
      let serves : serve api sets asked ≡ ok h' = if_then _ _ set (if_then _ _ tests refl) in
      (
        h',
        if_then _ _ is_active (bind_then (serve api sets asked) _ serves (rw done refl)),
        refl,
        refl,
        refl,
        unset,
        record { thread_event = ready.thread_event; action = kept_action; done = kept_done },
      )

  -- A span of 0 ends the program.
  start_timer_throws :
      (sets : Bool) (timer : ℕ) (user_data : ℕ) (handle : ℕ) (h : TimerHostThread api)
      → IsReady h
      → h.thread.thread_handle ≡ some handle
      → start_timer api true sets (some timer) 0 (some user_data) h ≡ throw invalid_param
  unfolding start_timer request serve active
  start_timer_throws sets timer user_data handle h ready runs =
      let (set, _, _, _) = event_lem api d h.event_action ready.action in
      let asked = request api (some timer) 0 (some user_data) h in
      let is_active : active api true h.thread ≡ true = rw runs refl in
      let throws : serve api sets asked ≡ throw invalid_param = if_then _ _ set refl in
      if_then _ _ is_active (bind_throw (serve api sets asked) _ throws)

  -- A host that is made new has a thread that runs.
  host_of_new :
      (fresh : TimerHostThread api) (q : Activation) (handle id : ℕ) (g : Shared api)
      → IsReady fresh
      → fresh.thread.thread_handle ≡ none
      → g.timer_host_thread ≡ none
      → q.thread_made ≡ some (handle, id)
      → (h : TimerHostThread api) × (host_of api fresh q g ≡ ok h)
        × IsReady h
        × (h.thread.thread_handle ≡ some handle)
  unfolding host_of
  host_of_new fresh q handle id g ready unstarted none_there made =
      let (t, e, runs, _, _, kept) =
        start_new api d handle id q.resumed fresh.thread ready.thread_event unstarted in
      let e' : start api q.thread_made q.resumed fresh.thread
          ≡ ok (not (q.resumed == 0xffffffff), t) =
        ap (λ m. start api m q.resumed fresh.thread) made ∙ e in
      (
        record fresh { thread = t },
        rw (none_there, host_of, e') refl,
        record { thread_event = kept; action = ready.action; done = ready.done },
        runs,
      )

  -- Activate of a timer that is not started with the span 0 and low precision, while there is no
  -- host and the system grants the handle and the thread, throws in the host's thread, where
  -- nobody catches.
  pub span_0_ends_program :
      (this : ℕ) (fresh : TimerHostThread api) (q : Activation) (timer handle id : ℕ)
      (t : Timer api) (g : Shared api)
      → t.is_started ≡ false
      → IsReady fresh
      → fresh.thread.thread_handle ≡ none
      → g.timer_host_thread ≡ none
      → q.thread_made ≡ some (handle, id)
      → q.creates ≡ some timer
      → q.times_out ≡ true
      → activate_as api 0 timer_default this fresh q t g ≡ throw invalid_param
  unfolding activate_as activate open_timer open_default
  span_0_ends_program this fresh q timer handle id t g stopped ready unstarted none_there made
        creates alive =
      let (h, e, ready_h, runs) = host_of_new fresh q handle id g ready unstarted none_there made in
      let ends : start_timer api q.times_out q.sets (some timer) 0 (some this) h
          ≡ throw invalid_param =
        ap (λ b. start_timer api b q.sets (some timer) 0 (some this) h) alive
        ∙ start_timer_throws q.sets timer this handle h ready_h runs in
      let t' = record t {
        time_span = 0;
        type_of = timer_default;
        not_running = signal api t.not_running;
      } in
      let opens : open_default api this fresh q timer t' g ≡ throw invalid_param =
        bind_then (host_of api fresh q g) _ e
          (bind_throw (start_timer api q.times_out q.sets (some timer) 0 (some this) h) _ ends) in
      let t0 : Timer api = record t { time_span = 0; type_of = timer_default } in
      let opened : open_timer api this fresh q t0 g ≡ throw invalid_param =
        rw (open_timer, creates) opens in
      if_else _ _ stopped
        (if_else _ _ stopped (bind_throw (open_timer api this fresh q t0 g) _ opened))

  close_quiet :
      (t : Timer api) (g : Shared api)
      → wait api t.not_running ≡ true
      → close_rest api (t, g) ≡ some (record t { is_started = false }, g)
  unfolding close_rest
  close_quiet t g e = rw e refl

  close_timer-release_host :
      (q : Activation) (timer : ℕ) (t : Timer api) (g : Shared api)
      → t.type_of ≡ timer_default
      → t.timer_handle ≡ some timer
      → close_timer api q t g ≡ (
          release_host api q g >>= λ released. ok (elim released [
            | none ↦ none
            | some g' ↦ close_rest api (record t { timer_handle = none }, g')
          ]))
  unfolding close_timer
  close_timer-release_host q timer t g type has = rw (close_timer, type, has) refl

  open_timer-open_default :
      (this : ℕ) (fresh : TimerHostThread api) (q : Activation) (timer : ℕ) (t : Timer api)
      (g : Shared api)
      → t.type_of ≡ timer_default
      → q.creates ≡ some timer
      → open_timer api this fresh q t g
        ≡ open_default api this fresh q timer
            (record t { not_running = signal api t.not_running })
            g
  unfolding open_timer
  open_timer-open_default this fresh q timer t g type creates =
      simp (open_timer, type, creates) refl

  close_last :
      (this : ℕ) (fresh h : TimerHostThread api) (q : Activation) (timer : ℕ) (t : Timer api)
      → t.type_of ≡ timer_default
      → t.is_started ≡ true
      → t.timer_handle ≡ some timer
      → wait api t.not_running ≡ true
      → HasHandle api h.thread.event
      → IsEnding 0xffffffff q.t1 q.resumptions q.looks
      → activate api false this fresh q t
          (record { default_timer_counter = 1; timer_host_thread = some h })
        ≡ ok (
            some (
              true,
              (
                record t { timer_handle = none; is_started = false },
                record { default_timer_counter = 0; timer_host_thread = none },
              ),
            ))
  unfolding activate close_timer release_host close_rest
  close_last this fresh h q timer t type started has quiet held ending =
      let (left, thread', ends, _, _) =
        stop_ends api d 0xffffffff q.t1 q.resumptions q.looks h.thread ending held in
      let g1 : Shared api = record { default_timer_counter = 1; timer_host_thread = some h } in
      let released : release_host api q g1
          ≡ ok (some (record { default_timer_counter = 0; timer_host_thread = none })) =
        rw (release_host, ends) refl in
      let closed : close_timer api q t g1
          ≡ ok (
              some (
                record t { timer_handle = none; is_started = false },
                record { default_timer_counter = 0; timer_host_thread = none },
              )) =
        close_timer-release_host q timer t g1 type has
        ∙ bind_then (release_host api q g1)
            (λ r. ok (elim r [
              | none ↦ none
              | some g' ↦ close_rest api (record t { timer_handle = none }, g')
            ]))
            released
            (ap ok (
              close_quiet (record t { timer_handle = none })
                (record { default_timer_counter = 0; timer_host_thread = none }) quiet)) in
      let off : same_bool false t.is_started ≡ false = rw started refl in
      if_else _ _ off (bind_then (close_timer api q t g1) _ closed refl)

  -- A timer of low precision that is not started, with a span above 0, opened while there is no
  -- host, with all calls granted, and then closed, with a host whose Stop comes to an end: both
  -- calls return true, between them the timer has its handle and the counter is 1, and after
  -- them there are no host, handle or count.
  pub open_then_close :
      (this : ℕ) (fresh : TimerHostThread api) (q q2 : Activation) (timer handle id : ℕ)
      (t : Timer api) (g : Shared api)
      → t.is_started ≡ false
      → t.type_of ≡ timer_default
      → 0 < t.time_span
      → HasHandle api t.not_running
      → g.default_timer_counter ≡ 0
      → g.timer_host_thread ≡ none
      → IsReady fresh
      → fresh.thread.thread_handle ≡ none
      → q.thread_made ≡ some (handle, id)
      → q.creates ≡ some timer
      → q.times_out ≡ true
      → q.sets ≡ true
      → IsEnding 0xffffffff q2.t1 q2.resumptions q2.looks
      → (t1 t2 : Timer api) × (g1 : Shared api) × (activate api true this fresh q t g
          ≡ ok (some (true, (t1, g1))))
        × (t1.timer_handle ≡ some timer)
        × (g1.default_timer_counter ≡ 1)
        × (activate api false this fresh q2 t1 g1
            ≡ ok
                (some (true, (t2, record { default_timer_counter = 0; timer_host_thread = none }))))
        × (t2.timer_handle ≡ none)
        × (t2.is_started ≡ false)
  unfolding activate open_timer open_default after_start
  open_then_close this fresh q q2 timer handle id t g stopped type long held counter none_there
        ready unstarted made creates alive sets ending =
      let (h, e, ready_h, runs) = host_of_new fresh q handle id g ready unstarted none_there made in
      let (quiet, _, _, _) = event_lem api d t.not_running held in
      let (h', starts, same_thread, _, _, _, ready') =
        start_timer_lem true timer t.time_span this handle h ready_h runs long in
      let starts' : start_timer api q.times_out q.sets (some timer) t.time_span (some this) h
          ≡ ok (some (true, h')) =
        ap₂ (λ b c. start_timer api b c (some timer) t.time_span (some this) h) alive sets
        ∙ starts in
      let t0 : Timer api = record t { not_running = signal api t.not_running } in
      let t1 : Timer api = record t0 { timer_handle = some timer; is_started = true } in
      let g1 : Shared api = record { default_timer_counter = 1; timer_host_thread = some h' } in
      let opens : open_default api this fresh q timer t0 g ≡ ok (some (t1, g1)) =
        bind_then (host_of api fresh q g) _ e (
          bind_then (start_timer api q.times_out q.sets (some timer) t.time_span (some this) h) _
            starts' (rw counter refl)) in
      let opened : open_timer api this fresh q t g ≡ ok (some (t1, g1)) =
        open_timer-open_default this fresh q timer t g type creates ∙ opens in
      (
        t1,
        record t1 { timer_handle = none; is_started = false },
        g1,
        if_else _ _ stopped (bind_then (open_timer api this fresh q t g) _ opened refl),
        refl,
        refl,
        close_last this fresh h' q2 timer t1 type refl refl quiet ready'.thread_event ending,
        refl,
        refl,
      )
