-- ===== src/Event/Windows.antt =====
-- Class Event on Windows (event/event.h) over event objects that behave as documented.
use lite_cpplib.Base.{◌≡◌, refl, true, false, some, ok}
use lite_cpplib.Event.{EventApi, Event, new_event, reset, signal, wait}

-- What Windows documents of a manual-reset event that CreateEvent makes unsignalled.
pub record IsDocumented (api : EventApi) : Type 0 where
  pub created_unset : api.wait_object api.created ≡ false
  pub set_signals : (s : api.State) → api.wait_object (api.set_event s) ≡ true
  pub reset_clears : (s : api.State) → api.wait_object (api.reset_event s) ≡ false

abbrev pub HasHandle : (api : EventApi) → Event api → Type 0
HasHandle api e = (s : api.State) × (e.event_handle ≡ some s)

module _ (api : EventApi) (d : IsDocumented api) where
  -- On Windows, over event objects that behave as documented, an event with a handle lets a wait
  -- through after Signal and not after Reset, and keeps its handle.
  pub event_lem :
      (e : Event api)
      → HasHandle api e
      → (wait api (signal api e) ≡ true)
        × (wait api (reset api e) ≡ false)
        × HasHandle api (signal api e)
        × HasHandle api (reset api e)
  unfolding signal reset wait
  event_lem e (s, h) =
      rw h (d.set_signals s, d.reset_clears s, (api.set_event s, refl), (api.reset_event s, refl))

  -- A constructor that returns makes an unsignalled event with a handle.
  pub new_event_lem :
      (e : Event api) × (new_event api true ≡ ok e) × HasHandle api e × (wait api e ≡ false)
  unfolding new_event wait
  new_event_lem =
      (record { event_handle = some api.created }, refl, (api.created, refl), d.created_unset)
