-- ===== src/Timer/Counting.antt =====
-- The counter of the hosted timers (tools/timer.h): the host lives as long as a timer has a handle.
use lite_cpplib.Base.{
  ℕ, suc, ◌+◌, ◌-◌, ◌≡◌, refl, sym, ap, subst, ◌∙◌, inl, inr, ◌⊎◌, Bool, true, false, not, ◌&&◌,
  Option, none, some, arith, ◌==◌, Bool-cases, Option-cases, true_not_false, and_true, not-true, ok,
  defined, Ensures, Ensures-value, Ensures-bind, Ensures-any, Ensures-if,
}
use lite_cpplib.Event.{EventApi, signal, wait}
use lite_cpplib.Thread.{stop}
use lite_cpplib.Timer.{
  TimerType, timer_default, timer_high_resolution, TimerHostThread, is_given, Timer, Shared,
  Activation, start_timer, release_host, host_of, after_start, open_default, open_timer, close_rest,
  close_timer, activate,
}

abbrev pub held : Option ℕ → ℕ
held none = 0
held (some _) = 1

abbrev pub is_hosted {ℓ} : {A : Type ℓ} → Option A → Bool
is_hosted none = false
is_hosted (some _) = true

module _ (api : EventApi) where
  -- Whether a timer is started, by what it holds for its type
  abbrev pub runs : Timer api → Bool
  runs t = elim t.type_of [
    | timer_default ↦ is_given t.timer_handle
    | timer_high_resolution ↦ not (t.timer_id == 0)
  ]

  -- A timer that is not hosted has no handle.
  abbrev pub Handles : TimerType → Option ℕ → Type 0
  Handles timer_default h = Unit {0}
  Handles timer_high_resolution h = h ≡ none

  pub record IsHosted (n : ℕ) (g : Shared api) : Type 0 where
    pub counts : g.default_timer_counter ≡ n
    pub hosted : is_hosted g.timer_host_thread ≡ not (n == 0)

  -- The other timers hold `others` Handles: with the timer's they are as many as the counter says, the
  -- host is there unless they are none, and the timer is started if it holds what its type needs.
  pub record IsCounted (others : ℕ) (t : Timer api) (g : Shared api) : Type 0 where
    pub shared : IsHosted (others + held t.timer_handle) g
    pub started : t.is_started ≡ runs t
    pub fits : Handles t.type_of t.timer_handle

  abbrev WhenShared : ℕ → Option (Shared api) → Type 0
  WhenShared n none = Unit {0}
  WhenShared n (some g) = IsHosted n g

  abbrev WhenCounted : ℕ → Option (Timer api × Shared api) → Type 0
  WhenCounted n none = Unit {0}
  WhenCounted n (some (t, g)) = IsCounted n t g

  release_host-IsHosted :
      (q : Activation) (g : Shared api) (n : ℕ)
      → IsHosted (suc n) g
      → Ensures (WhenShared n) (release_host api q g)
  unfolding release_host
  release_host-IsHosted q g n h =
      let one_less : g.default_timer_counter - 1 ≡ n = omega (arith, h.counts) in
      Ensures-if (g.default_timer_counter - 1 == 0)
        (λ e. Ensures-any (defined g.timer_host_thread) _ (λ host _.
          elim (Option-cases (stop api 0xffffffff q.t1 q.resumptions q.looks host.thread)) [
            | inl e' ↦ rw e' (Ensures-value _ tt)
            | inr (_, e') ↦ rw e' (
                Ensures-value _
                  (record { counts = one_less; hosted = ground (arith, one_less, e) }))
          ]))
        (λ e.
          Ensures-value _
            (record { counts = one_less; hosted = h.hosted ∙ ground (arith, one_less, e) }))

  -- A released host leaves a timer without a handle.
  released-IsCounted :
      (n : ℕ) (t : Timer api) (o : Option (Shared api))
      → Handles t.type_of none
      → t.type_of ≡ timer_default
      → WhenShared n o
      → WhenCounted n (elim o [
        | none ↦ none
        | some g ↦ some (record t { timer_handle = none; is_started = false }, g)
      ])
  released-IsCounted n t none f type h = tt
  released-IsCounted n t (some g) f type h = record {
    shared = record { counts = h.counts ∙ omega arith; hosted = h.hosted ∙ ground arith };
    started = rw type refl;
    fits = f;
  }

  after_start-IsCounted :
      (q : Activation) (handle n more : ℕ) (t : Timer api)
      (started : Option (Bool × TimerHostThread api))
      → t.type_of ≡ timer_default
      → more ≡ suc n
      → Ensures (WhenCounted n) (after_start api q handle t more started)
  unfolding after_start
  after_start-IsCounted q handle n more t none type e = Ensures-value _ tt
  after_start-IsCounted q handle n more t (some (true, h)) type e = Ensures-value _ (record {
    shared = record { counts = omega (arith, e); hosted = ground arith };
    started = rw type refl;
    fits = rw type tt;
  })
  after_start-IsCounted q handle n more t (some (false, h)) type e =
      Ensures-bind
        (release_host api q (record { default_timer_counter = more; timer_host_thread = some h })) _
        (release_host-IsHosted q
          (record { default_timer_counter = more; timer_host_thread = some h }) n
          (record { counts = e; hosted = ground arith }))
        (λ o k. Ensures-value _ (released-IsCounted n t o (rw type tt) type k))

  open_default-IsCounted :
      (this : ℕ) (fresh : TimerHostThread api) (q : Activation) (handle n : ℕ) (t : Timer api)
      (g : Shared api)
      → t.type_of ≡ timer_default
      → IsHosted n g
      → Ensures (WhenCounted n) (open_default api this fresh q handle t g)
  unfolding open_default
  open_default-IsCounted this fresh q handle n t g type h =
      Ensures-any (host_of api fresh q g) _ (λ host _.
        Ensures-any (start_timer api q.times_out q.sets (some handle) t.time_span (some this) host)
          _ (λ started _. after_start-IsCounted q handle n _ t started type (ap suc h.counts)))

  TimerType-cases : (k : TimerType) → (k ≡ timer_default) ⊎ (k ≡ timer_high_resolution)
  TimerType-cases timer_default = inl refl
  TimerType-cases timer_high_resolution = inr refl

  -- A hosted timer that is not started has no handle.
  stopped-IsHosted :
      (n : ℕ) (t : Timer api) (g : Shared api)
      → IsCounted n t g
      → t.is_started ≡ false
      → (t.timer_handle ≡ none) × IsHosted n g
  stopped-IsHosted n t g h stopped =
      let empty : t.timer_handle ≡ none = elim (TimerType-cases t.type_of) [
        | inl type ↦
            let e : t.is_started ≡ is_given t.timer_handle = rw type at h.started in
            elim (Option-cases t.timer_handle) [
              | inl e' ↦ e'
              | inr (x, e') ↦ absurd (true_not_false (sym (rw e' at e) ∙ stopped))
            ]
        | inr type ↦ (rw type at h.fits)
      ] in
      let e : held t.timer_handle ≡ 0 = rw empty refl in
      (
        empty,
        record {
          counts = h.shared.counts ∙ omega (arith, e);
          hosted = h.shared.hosted ∙ ap (λ k. not (k == 0)) (omega (arith, e));
        },
      )

  open_timer-IsCounted :
      (this : ℕ) (fresh : TimerHostThread api) (q : Activation) (n : ℕ) (t : Timer api)
      (g : Shared api)
      → IsCounted n t g
      → t.is_started ≡ false
      → Ensures (WhenCounted n) (open_timer api this fresh q t g)
  unfolding open_timer
  open_timer-IsCounted this fresh q n t g h stopped =
      let (empty, hosted) = stopped-IsHosted n t g h stopped in
      let zero_more : IsHosted (n + 0) g = record {
        counts = hosted.counts ∙ omega arith;
        hosted = hosted.hosted ∙ ap (λ k. not (k == 0)) (omega arith);
      } in
      elim (TimerType-cases t.type_of) [
        | inl type ↦ elim (Option-cases q.creates) [
          | inl e ↦
              rw (open_timer, type, e)
                (Ensures-value _
                  (record { shared = zero_more; started = rw type refl; fits = rw type tt }))
          | inr (handle, e) ↦
              rw (open_timer, type, e)
                (open_default-IsCounted this fresh q handle n
                  (record t { not_running = signal api t.not_running }) g type hosted)
        ]
        | inr type ↦
            let none_held : IsHosted (n + held t.timer_handle) g = rw empty zero_more in
            rw (open_timer, type)
              (Ensures-value _
                (record { shared = none_held; started = rw type refl; fits = rw type empty }))
      ]

  abbrev WhenClosed : ℕ → Option (Timer api × Shared api) → Type 0
  WhenClosed n none = Unit {0}
  WhenClosed n (some (t, g)) = IsCounted n t g × (t.is_started ≡ false)

  close_rest-IsCounted :
      (n : ℕ) (t : Timer api) (g : Shared api)
      → IsHosted (n + held t.timer_handle) g
      → runs t ≡ false
      → Handles t.type_of t.timer_handle
      → WhenClosed n (close_rest api (t, g))
  unfolding close_rest
  close_rest-IsCounted n t g h off fits = elim (Bool-cases (wait api t.not_running)) [
    | inl e ↦ rw e (record { shared = h; started = sym off; fits = fits }, refl)
    | inr e ↦ rw e tt
  ]

  closed_rest :
      (n : ℕ) (t : Timer api) (o : Option (Shared api))
      → t.type_of ≡ timer_default
      → WhenShared n o
      → WhenClosed n
          (elim o [ none ↦ none | some g ↦ close_rest api (record t { timer_handle = none }, g) ])
  closed_rest n t none type h = tt
  closed_rest n t (some g) type h =
      close_rest-IsCounted n (record t { timer_handle = none }) g
        (record {
          counts = h.counts ∙ omega arith;
          hosted = h.hosted ∙ ap (λ k. not (k == 0)) (omega arith);
        })
        (rw type refl) (rw type tt)

  close_timer-IsCounted :
      (q : Activation) (n : ℕ) (t : Timer api) (g : Shared api)
      → IsCounted n t g
      → Ensures (WhenClosed n) (close_timer api q t g)
  unfolding close_timer
  close_timer-IsCounted q n t g h = elim (TimerType-cases t.type_of) [
    | inr type ↦
        let empty : t.timer_handle ≡ none = rw type at h.fits in
        rw (close_timer, type)
          (Ensures-value _ (
            close_rest-IsCounted n (record t { timer_id = 0 }) g h.shared (rw type refl)
              (rw type empty)))
    | inl type ↦ elim (Option-cases t.timer_handle) [
      | inl e ↦
          rw (close_timer, type, e)
            (Ensures-value _ (close_rest-IsCounted n t g h.shared (rw (type, e) refl) h.fits))
      | inr (handle, e) ↦
          let one : n + held t.timer_handle ≡ suc n = rw e (omega arith) in
          rw (close_timer, type, e)
            (Ensures-bind (release_host api q g) _
              (release_host-IsHosted q g n (subst (λ k. IsHosted k g) one h.shared))
              (λ o k. Ensures-value _ (closed_rest n t o type k)))
    ]
  ]

  -- The answer of Activate(is_open) says whether the timer is in the state that was asked for.
  abbrev WhenActive : ℕ → Bool → Option (Bool × (Timer api × Shared api)) → Type 0
  WhenActive n is_open none = Unit {0}
  WhenActive n is_open (some (answer, (t, g))) =
      IsCounted n t g × (t.is_started ≡ (answer && is_open))

  opened-WhenActive :
      (n : ℕ) (o : Option (Timer api × Shared api))
      → WhenCounted n o
      → WhenActive n true (elim o [ none ↦ none | some (t, g) ↦ some (t.is_started, (t, g)) ])
  opened-WhenActive n none h = tt
  opened-WhenActive n (some (t, g)) h = (h, sym (and_true t.is_started))

  closed-WhenActive :
      (n : ℕ) (o : Option (Timer api × Shared api))
      → WhenClosed n o
      → WhenActive n false (elim o [ none ↦ none | some s ↦ some (true, s) ])
  closed-WhenActive n none h = tt
  closed-WhenActive n (some (t, g)) h = h

  activate-IsCounted :
      (is_open : Bool) (this : ℕ) (fresh : TimerHostThread api) (q : Activation) (n : ℕ)
      (t : Timer api) (g : Shared api)
      → IsCounted n t g
      → Ensures (WhenActive n is_open) (activate api is_open this fresh q t g)
  unfolding activate
  activate-IsCounted true this fresh q n t g h =
      Ensures-if t.is_started (λ e. Ensures-value _ (h, e))
        (λ e.
          Ensures-bind (open_timer api this fresh q t g) _
            (open_timer-IsCounted this fresh q n t g h e)
            (λ o k. Ensures-value _ (opened-WhenActive n o k)))
  activate-IsCounted false this fresh q n t g h =
      Ensures-if (not t.is_started) (λ e. Ensures-value _ (h, not-true t.is_started e))
        (λ e.
          Ensures-bind (close_timer api q t g) _ (close_timer-IsCounted q n t g h)
            (λ o k. Ensures-value _ (closed-WhenActive n o k)))

  -- Activate keeps, for a timer among others that hold a given number of handles: the counter is
  -- the number of handles, the host is there unless the counter is 0, a timer is started just if
  -- it holds what its type needs, and a timer of high resolution has no handle. If the answer is
  -- true the timer is as was asked for, if false it is not started.
  pub activate_lem :
      (is_open : Bool) (this : ℕ) (fresh : TimerHostThread api) (q : Activation) (n : ℕ)
      (t : Timer api) (g : Shared api) (answer : Bool) (t' : Timer api) (g' : Shared api)
      → IsCounted n t g
      → activate api is_open this fresh q t g ≡ ok (some (answer, (t', g')))
      → IsCounted n t' g' × (t'.is_started ≡ (answer && is_open))
  activate_lem is_open this fresh q n t g answer t' g' h e =
      (activate-IsCounted is_open this fresh q n t g h).holds (some (answer, (t', g'))) e
