-- ===== src/Platform.antt =====
-- The interface of src/AbstractEventDispatcher.h, and the classes that give it: each inherits the
-- operations of src/EventDispatcherDefault.h, which call the hooks of its own class.
pub mod Inherits
pub mod Classes
use qobject_mimic.Base.{
  ℕ, ◌+◌, ◌*◌, List, [], ◌∷◌, ◌++◌, Option, none, some, Bool, true, false, if◌then◌else◌, is_null,
  any, remove_if, keep_if, map, ℤ, pos, negsuc, ◌==◌, ◌≡◌, is_some,
}
use qobject_mimic.Event.{Event, TimerRegistration}
use qobject_mimic.Dispatcher.{
  Dispatcher, EventPair, TimerData, wake_waiter, set_wake_callback, remove_events_for_receiver,
  has_timer, replace_timer, take_timers_for_receiver, ns_per_ms, registration,
}
use qobject_mimic.Loop.{Host, process_events, process_deferred_deletes}

-- The operations of a dispatcher in a program `W`. processDeferredDeletes() takes fuel for its
-- rounds; registerTimer() reads the clock.
pub record AbstractEventDispatcher (W : Type 0) : Type 0 where
  pub process_events : W → W × Bool
  pub wake_up : W → W
  pub interrupt : W → W
  pub set_wake_callback : Option ℕ → W → W
  pub process_deferred_deletes : ℕ → W → Option W
  pub register_timer : ℕ → ℤ → ℕ → W → W
  pub unregister_timer : ℕ → W → W × Bool
  pub post_event : ℕ → Option Event → W → W
  pub remove_events_for_receiver : ℕ → W → W
  pub take_timers_for_receiver : ℕ → W → W × List TimerRegistration

-- What a class adds: the hooks waitForEvents() and processPlatformEvents(), which are in the host,
-- and wakeWaiter(), which does at least what that of the default class does.
pub record Platform (W : Type 0) : Type 0 where
  pub host : Host W
  pub wake : W → W
  pub dispatcher-wake : (w : W) → host.dispatcher (wake w) ≡ wake_waiter (host.dispatcher w)

-- What the operations do to the members while they hold mMutex.
abbrev pub queue_pair : EventPair → Dispatcher → Dispatcher
queue_pair ep d = record d { event_queue = d.event_queue ++ ep ∷ [] }

abbrev pub put_timer : TimerData → Dispatcher → Dispatcher
put_timer td d = record d {
  timers =
      if has_timer td.timer_id d.timers then replace_timer td d.timers else d.timers ++ td ∷ [];
  timers_changed = true;
}

abbrev pub drop_timers : (TimerData → Bool) → Dispatcher → Dispatcher
drop_timers test d = record d { timers = remove_if test d.timers; timers_changed = true }

module _ {W : Type 0} (p : Platform W) where
  -- A write of the members of the default class.
  abbrev pub change : (Dispatcher → Dispatcher) → W → W
  change f w = p.host.set_dispatcher (f (p.host.dispatcher w)) w

  abbrev pub members : W → Dispatcher
  members w = p.host.dispatcher w

  abbrev pub post_and_wake : ℕ → Option Event → W → W
  post_and_wake receiver none w = w
  post_and_wake receiver (some e) w =
      if is_null receiver
      then w
      else p.wake (change (queue_pair (record { receiver = receiver; event = some e })) w)

  abbrev pub install_and_wake : TimerData → W → W
  install_and_wake td w = p.wake (change (put_timer td) w)

  abbrev pub register_and_wake : ℕ → ℤ → ℕ → W → W
  register_and_wake i (negsuc n) object w = w
  register_and_wake i (pos interval) object w =
      if is_null object
      then w
      else install_and_wake
          (record {
            timer_id = i;
            interval_ms = interval;
            receiver = object;
            next_fire = p.host.now w + interval * ns_per_ms;
          })
          w

  abbrev pub unregister_timer_and_wake : ℕ → W → W × Bool
  unregister_timer_and_wake i w =
      if has_timer i (members w).timers
      then (p.wake (change (drop_timers (λ t. t.timer_id == i)) w), true)
      else (w, false)

  abbrev pub take_timers_and_wake : ℕ → W → W × List TimerRegistration
  take_timers_and_wake receiver w =
      if is_null receiver
      then (w, [])
      else let mine = λ (t : TimerData). t.receiver == receiver in
        if any mine (members w).timers
        then (
          p.wake (change (drop_timers mine) w),
          map registration (keep_if mine (members w).timers),
        )
        else (w, [])

  -- The class EventDispatcherDefault, and any class under it.
  unfoldable pub event_dispatcher : AbstractEventDispatcher W
  event_dispatcher = record {
    process_events = process_events p.host;
    wake_up = λ w. p.wake (change (λ d. record d { wake_up_requested = true }) w);
    interrupt = λ w. p.wake (change (λ d. record d { interrupted = true }) w);
    set_wake_callback = λ c w. change (set_wake_callback c) w;
    process_deferred_deletes = process_deferred_deletes p.host;
    register_timer = register_and_wake;
    unregister_timer = unregister_timer_and_wake;
    post_event = post_and_wake;
    remove_events_for_receiver = λ r w. change (remove_events_for_receiver r) w;
    take_timers_for_receiver = take_timers_and_wake;
  }
