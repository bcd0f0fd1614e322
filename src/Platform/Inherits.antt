-- ===== src/Platform/Inherits.antt =====
-- The operations of EventDispatcherDefault in a class under it (src/EventDispatcherDefault.cpp).
use qobject_mimic.Base.{
  ℕ, ◌+◌, ◌*◌, Option, none, some, true, ℤ, pos, negsuc, ◌≡◌, refl, arith, ◌==◌,
}
use qobject_mimic.Event.{Event}
use qobject_mimic.Dispatcher.{
  Dispatcher, EventPair, TimerData, wake_waiter, set_wake_callback, post_event,
  remove_events_for_receiver, register_timer, install_timer, unregister_timer,
  take_timers_for_receiver, wake_up, interrupt, ns_per_ms,
}
use qobject_mimic.Platform.{
  Platform, change, event_dispatcher, members, install_and_wake, queue_pair, put_timer, drop_timers,
}

module _ {W : Type 0} (p : Platform W) where
  -- A change that wakes the waiter, and one that does not.
  change-members :
      (f : Dispatcher → Dispatcher) (w : W) → members p (change p f w) ≡ f (members p w)
  change-members f w = p.host.dispatcher-set_dispatcher (f (members p w)) w

  wake-members :
      (f : Dispatcher → Dispatcher) (w : W)
      → members p (p.wake (change p f w)) ≡ wake_waiter (f (members p w))
  wake-members f w = ground (arith, p.dispatcher-wake (change p f w), change-members f w)

  post-members :
      (r : ℕ) (e : Option Event) (w : W)
      → members p ((event_dispatcher p).post_event r e w) ≡ post_event r e (members p w)
  unfolding event_dispatcher post_event
  post-members r none w = refl
  post-members r (some e) w =
      let pair : EventPair = record { receiver = r; event = some e } in
      ground (arith, wake-members (queue_pair pair) w)

  install-members :
      (td : TimerData) (w : W)
      → members p (install_and_wake p td w) ≡ install_timer td (members p w)
  unfolding install_timer
  install-members td w = wake-members (put_timer td) w

  register-members :
      (i : ℕ) (n : ℤ) (o : ℕ) (w : W)
      → members p ((event_dispatcher p).register_timer i n o w)
        ≡ register_timer (p.host.now w) i n o (members p w)
  unfolding event_dispatcher register_timer
  register-members i (negsuc n) o w = refl
  register-members i (pos n) o w =
      let td : TimerData = record {
        timer_id = i;
        interval_ms = n;
        receiver = o;
        next_fire = p.host.now w + n * ns_per_ms;
      } in
      ground (arith, install-members td w)

  -- In a dispatcher of any class under EventDispatcherDefault, whatever its hooks are, each
  -- operation but processEvents() and processDeferredDeletes() does to the members of
  -- EventDispatcherDefault what it does in that class itself, and gives the same result, as far as
  -- wakeWaiter() of the class does; registerTimer() reads the clock of the program.
  pub inherits :
      (i o r : ℕ) (n : ℤ) (e : Option Event) (callback : Option ℕ) (w : W)
      → let a = event_dispatcher p in
        let d = members p w in
        (members p (a.post_event r e w) ≡ post_event r e d)
        × (members p (a.register_timer i n o w) ≡ register_timer (p.host.now w) i n o d)
        × (members p (a.unregister_timer i w).0 ≡ (unregister_timer i d).0)
        × ((a.unregister_timer i w).1 ≡ (unregister_timer i d).1)
        × (members p (a.take_timers_for_receiver r w).0 ≡ (take_timers_for_receiver r d).0)
        × ((a.take_timers_for_receiver r w).1 ≡ (take_timers_for_receiver r d).1)
        × (members p (a.remove_events_for_receiver r w) ≡ remove_events_for_receiver r d)
        × (members p (a.wake_up w) ≡ wake_up d)
        × (members p (a.interrupt w) ≡ interrupt d)
        × (members p (a.set_wake_callback callback w) ≡ set_wake_callback callback d)
  unfolding event_dispatcher unregister_timer take_timers_for_receiver wake_up interrupt
  inherits i o r n e callback w = (
    post-members r e w,
    register-members i n o w,
    ground (arith, wake-members (drop_timers (λ t. t.timer_id == i)) w),
    ground arith,
    ground (arith, wake-members (drop_timers (λ t. t.receiver == r)) w),
    ground arith,
    change-members (remove_events_for_receiver r) w,
    wake-members (λ x. record x { wake_up_requested = true }) w,
    wake-members (λ x. record x { interrupted = true }) w,
    change-members (set_wake_callback callback) w,
  )
