-- ===== src/Dispatcher/Waiting.antt =====
-- The wait of waitForEvents() in src/EventDispatcherDefault.cpp, as interleaved steps of the loop's
-- thread and of any number of other threads that call the dispatcher.
use qobject_mimic.Base.{
  ℕ, ◌+◌, ◌-◌, ◌<◌, List, [], ◌∷◌, none, some, Bool, true, false, ◌==◌, ◌≡◌, ◌≢◌, ◌⊎◌, refl, arith,
  is_empty, remove_if, pos, negsuc,
}
use qobject_mimic.Dispatcher.{
  Dispatcher, wake_condition, post_event, remove_events_for_receiver, register_timer, install_timer,
  unregister_timer, take_timers_for_receiver, wake_up, interrupt, set_wake_callback,
  take_deferred_deletes, wake_waiter, is_deferred_pair,
}
use qobject_mimic.Dispatcher.Invariant.{
  Call, perform, posts, removes, registers, unregisters, takes, wakes, interrupts, sets_callback,
  expires, drains, takes_deferred,
}

-- The loop's thread is about to test the predicate, or blocked, or back from the wait.
pub data WaitPhase : Type 0 where
  awake asleep finished : WaitPhase

-- `notifying` counts the threads that have changed the state and not yet notified.
pub record Waiter : Type 0 where
  pub phase : WaitPhase
  pub state : Dispatcher
  pub notifying : ℕ

abbrev pub roused : WaitPhase → WaitPhase
roused awake = awake
roused asleep = awake
roused finished = finished

-- mCv.wait() and mCv.wait_for() with the predicate: a test and the sleep that follows it are one
-- step under mMutex, and a wakeup may be spurious. Calls of other threads come in between, as long
-- as the wait is not over; each changes the state under mMutex, and notifies then or later.
pub data WaitStep (timed : Bool) (s : Waiter) : Waiter → Type 0 where
  finds_work :
      s.phase ≡ awake
      → wake_condition s.state ≡ true
      → WaitStep timed s (record s { phase = finished })
  falls_asleep :
      s.phase ≡ awake
      → wake_condition s.state ≡ false
      → WaitStep timed s (record s { phase = asleep })
  called :
      (c : Call)
      → s.phase ≢ finished
      → WaitStep timed s (record {
        phase = s.phase;
        state = perform c s.state;
        notifying = s.notifying + ((perform c s.state).notified - s.state.notified);
      })
  notifies :
      (n : ℕ)
      → s.notifying ≡ n + 1
      → WaitStep timed s (record s { phase = roused s.phase; notifying = n })
  spurious : s.phase ≡ asleep → WaitStep timed s (record s { phase = awake })
  times_out : timed ≡ true → s.phase ≡ asleep → WaitStep timed s (record s { phase = finished })

pub data WaitReach (timed : Bool) (d : Dispatcher) : Waiter → Type 0 where
  enters : WaitReach timed d (record { phase = awake; state = d; notifying = 0 })
  goes_on : {s t : Waiter} → WaitReach timed d s → WaitStep timed s t → WaitReach timed d t

-- After a call in a state without work, there is none still, or the call notifies.
abbrev Notifies : Dispatcher → Dispatcher → Type 0
Notifies d d' = (wake_condition d' ≡ false) ⊎ (d'.notified ≡ d.notified + 1)

is_empty-remove_if {ℓ} :
    {A : Type ℓ} (p : A → Bool) (xs : List A)
    → is_empty xs ≡ true
    → is_empty (remove_if p xs) ≡ true
is_empty-remove_if p [] e = refl
is_empty-remove_if p (x ∷ xs) e = ground arith

perform-Notifies : (c : Call) (d : Dispatcher) → wake_condition d ≡ false → Notifies d (perform c d)
unfolding perform post_event remove_events_for_receiver register_timer install_timer
    unregister_timer take_timers_for_receiver wake_up interrupt set_wake_callback
    take_deferred_deletes wake_waiter
perform-Notifies (posts r none) d e = ground arith
perform-Notifies (posts r (some x)) d e = ground arith
perform-Notifies (removes r) d e =
    ground (arith, is_empty-remove_if (λ ep. ep.receiver == r) d.event_queue)
perform-Notifies (registers now i (pos n) o) d e = ground arith
perform-Notifies (registers now i (negsuc n) o) d e = ground arith
perform-Notifies (unregisters i) d e = ground arith
perform-Notifies (takes r) d e = ground arith
perform-Notifies wakes d e = ground arith
perform-Notifies interrupts d e = ground arith
perform-Notifies (sets_callback c) d e = ground arith
perform-Notifies (expires now) d e = ground arith
perform-Notifies drains d e = ground arith
perform-Notifies takes_deferred d e =
    ground (arith, is_empty-remove_if is_deferred_pair d.event_queue)

-- If there is work while the loop is blocked, a notification is under way; and an untimed wait is
-- over only if there is work.
pub record Sound (timed : Bool) (s : Waiter) : Type 0 where
  pub told : s.phase ≡ asleep → wake_condition s.state ≡ true → 0 < s.notifying
  pub ended : timed ≡ false → s.phase ≡ finished → wake_condition s.state ≡ true

WaitStep-Sound : {timed : Bool} {s t : Waiter} → WaitStep timed s t → Sound timed s → Sound timed t
WaitStep-Sound (finds_work p e) v = ground arith
WaitStep-Sound (falls_asleep p e) v = ground arith
WaitStep-Sound {s = s} (called c p) v = ground (arith, perform-Notifies c s.state)
WaitStep-Sound (notifies n e) v = ground arith
WaitStep-Sound (spurious p) v = ground arith
WaitStep-Sound (times_out t p) v = ground arith

pub WaitReach-Sound :
    {timed : Bool} {d : Dispatcher} {s : Waiter} → WaitReach timed d s → Sound timed s
WaitReach-Sound enters = ground arith
WaitReach-Sound (goes_on r st) = WaitStep-Sound st (WaitReach-Sound r)

-- No wakeup is lost: in every interleaving with the calls of other threads, if the loop is blocked
-- in its wait and no thread is about to notify it, then nothing is pending that its predicate looks
-- at: the queue is empty, and mInterrupted, mTimersChanged and mWakeUpRequested are all false.
pub never_sleeps_on_work :
    (timed : Bool) (d : Dispatcher) (s : Waiter)
    → WaitReach timed d s
    → s.phase ≡ asleep
    → s.notifying ≡ 0
    → (is_empty s.state.event_queue ≡ true)
      × (s.state.interrupted ≡ false)
      × (s.state.timers_changed ≡ false)
      × (s.state.wake_up_requested ≡ false)
never_sleeps_on_work timed d s r blocked quiet = ground (arith, WaitReach-Sound r)

-- An untimed wait ends only with work to do.
pub untimed_wait_lem :
    (d : Dispatcher) (s : Waiter)
    → WaitReach false d s
    → s.phase ≡ finished
    → wake_condition s.state ≡ true
untimed_wait_lem d s r over = ground (arith, WaitReach-Sound r)
