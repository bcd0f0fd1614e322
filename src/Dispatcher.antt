-- ===== src/Dispatcher.antt =====
-- src/EventDispatcherDefault.h and the queue and timer operations of src/EventDispatcherDefault.cpp.
-- Each operation is what the source does while it holds mMutex, so a call is one step. Times are
-- nanoseconds of the steady clock; addresses are numbers, and 0 is `nullptr`.
pub mod Queue
pub mod Timers
pub mod Expiry
pub mod Invariant
pub mod Wait
pub mod Waiting
use qobject_mimic.Base.{
  ℕ, ◌+◌, ◌-◌, ◌*◌, ◌/◌, List, [], ◌∷◌, ◌++◌, Option, none, some, Bool, true, false, ◌||◌, not, ltb,
  leb, ◌==◌, if◌then◌else◌, is_null, ℤ, pos, negsuc, remove_if, keep_if, any, foldl, is_empty, map,
}
use qobject_mimic.Event.{Event, timer, deferred_delete, is_deferred_delete, TimerRegistration}

pub record EventPair : Type 0 where
  pub receiver : ℕ
  pub event : Option Event

pub record TimerData : Type 0 where
  pub timer_id : ℕ
  pub interval_ms : ℕ
  pub receiver : ℕ
  pub next_fire : ℕ

-- `notified` counts the notifications of the condition variable, and `nudges` lists the wake
-- callbacks that were invoked, latest first.
pub record Dispatcher : Type 0 where
  pub event_queue : List EventPair
  pub timers : List TimerData
  pub interrupted : Bool
  pub timers_changed : Bool
  pub wake_up_requested : Bool
  pub wake_callback : Option ℕ
  pub notified : ℕ
  pub nudges : List ℕ

-- EventDispatcherDefault().
unfoldable pub new_dispatcher : Dispatcher
new_dispatcher = record {
  event_queue = [];
  timers = [];
  interrupted = false;
  timers_changed = false;
  wake_up_requested = false;
  wake_callback = none;
  notified = 0;
  nudges = [];
}

-- ~EventDispatcherDefault(): the events it frees, front first.
unfoldable pub destroy_dispatcher : Dispatcher → Dispatcher × List (Option Event)
destroy_dispatcher d = (record d { event_queue = [] }, map (λ ep. ep.event) d.event_queue)

-- Milliseconds of an interval, as a duration of the steady clock.
abbrev pub ns_per_ms : ℕ
ns_per_ms = 1000000

abbrev add_nudge : Option ℕ → List ℕ → List ℕ
add_nudge none ns = ns
add_nudge (some c) ns = c ∷ ns

-- wakeWaiter().
unfoldable pub wake_waiter : Dispatcher → Dispatcher
wake_waiter d = record d { notified = d.notified + 1; nudges = add_nudge d.wake_callback d.nudges }

-- setWakeCallback().
unfoldable pub set_wake_callback : Option ℕ → Dispatcher → Dispatcher
set_wake_callback c d = record d { wake_callback = c }

-- postEvent(). An event that is not queued is freed by the call.
unfoldable pub post_event : ℕ → Option Event → Dispatcher → Dispatcher
unfolding wake_waiter
post_event receiver none d = d
post_event receiver (some e) d =
    if is_null receiver
    then d
    else wake_waiter (record d {
      event_queue = d.event_queue ++ record { receiver = receiver; event = some e } ∷ [];
    })

-- removeEventsForReceiver().
unfoldable pub remove_events_for_receiver : ℕ → Dispatcher → Dispatcher
remove_events_for_receiver receiver d = if is_null receiver then d else record d {
  event_queue = remove_if (λ ep. ep.receiver == receiver) d.event_queue;
  timers = remove_if (λ t. t.receiver == receiver) d.timers;
}

-- The loop of registerTimer(): the first timer of that id is replaced.
unfoldable pub replace_timer : TimerData → List TimerData → List TimerData
replace_timer td [] = []
replace_timer td (t ∷ ts) =
    let rest = replace_timer td ts in if t.timer_id == td.timer_id then td ∷ ts else t ∷ rest

abbrev pub has_timer : ℕ → List TimerData → Bool
has_timer i ts = any (λ t. t.timer_id == i) ts

-- The part of registerTimer() after its guard.
unfoldable pub install_timer : TimerData → Dispatcher → Dispatcher
unfolding replace_timer wake_waiter
install_timer td d = wake_waiter (record d {
  timers =
      if has_timer td.timer_id d.timers then replace_timer td d.timers else d.timers ++ td ∷ [];
  timers_changed = true;
})

-- registerTimer() at the time `now`.
unfoldable pub register_timer : ℕ → ℕ → ℤ → ℕ → Dispatcher → Dispatcher
unfolding install_timer
register_timer now i (negsuc n) object d = d
register_timer now i (pos interval) object d =
    if is_null object
    then d
    else install_timer
        (record {
          timer_id = i;
          interval_ms = interval;
          receiver = object;
          next_fire = now + interval * ns_per_ms;
        })
        d

-- unregisterTimer().
unfoldable pub unregister_timer : ℕ → Dispatcher → Dispatcher × Bool
unfolding wake_waiter
unregister_timer i d =
    if has_timer i d.timers
    then (
      wake_waiter
          (record d { timers = remove_if (λ t. t.timer_id == i) d.timers; timers_changed = true }),
      true,
    )
    else (d, false)

abbrev pub registration : TimerData → TimerRegistration
registration t = record { timer_id = t.timer_id; interval_ms = t.interval_ms }

-- takeTimersForReceiver().
unfoldable pub take_timers_for_receiver : ℕ → Dispatcher → Dispatcher × List TimerRegistration
unfolding wake_waiter
take_timers_for_receiver receiver d =
    if is_null receiver
    then (d, [])
    else let mine = λ (t : TimerData). t.receiver == receiver in
      if any mine d.timers
      then (
        wake_waiter (record d { timers = remove_if mine d.timers; timers_changed = true }),
        map registration (keep_if mine d.timers),
      )
      else (d, [])

-- wakeUp().
unfoldable pub wake_up : Dispatcher → Dispatcher
unfolding wake_waiter
wake_up d = wake_waiter (record d { wake_up_requested = true })

-- interrupt().
unfoldable pub interrupt : Dispatcher → Dispatcher
unfolding wake_waiter
interrupt d = wake_waiter (record d { interrupted = true })

-- The timer events of the loop "Collect expired timers" of processEvents().
unfoldable pub expired_events : ℕ → List TimerData → List EventPair
expired_events now [] = []
expired_events now (t ∷ ts) =
    let rest = expired_events now ts in
    if leb t.next_fire now
    then record { receiver = t.receiver; event = some (timer t.timer_id) } ∷ rest
    else rest

-- The same loop's writes of mNextFire.
unfoldable pub reschedule : ℕ → List TimerData → List TimerData
reschedule now [] = []
reschedule now (t ∷ ts) =
    let rest = reschedule now ts in
    if leb t.next_fire now
    then record t { next_fire = now + t.interval_ms * ns_per_ms } ∷ rest
    else t ∷ rest

-- The loop that finds `minFire`, from the first timer's.
unfoldable pub min_fire : ℕ → List TimerData → ℕ
min_fire least [] = least
min_fire least (t ∷ ts) = min_fire (if ltb t.next_fire least then t.next_fire else least) ts

-- `timeoutMs` of processEvents(); `none` is -1, no deadline. duration_cast drops a part of a
-- millisecond.
unfoldable pub wait_timeout : ℕ → List TimerData → Option ℕ
unfolding min_fire
wait_timeout now [] = none
wait_timeout now (t ∷ ts) =
    let least = min_fire t.next_fire (t ∷ ts) in
    if ltb now least then some ((least - now) / ns_per_ms) else some 0

-- The predicate of waitForEvents().
abbrev pub wake_condition : Dispatcher → Bool
wake_condition d =
    not (is_empty d.event_queue) || (d.interrupted || (d.timers_changed || d.wake_up_requested))

abbrev pub is_deferred_pair : EventPair → Bool
is_deferred_pair ep = elim ep.event [ none ↦ false | some e ↦ is_deferred_delete e ]

-- The locked loop of processDeferredDeletes(): the deferred deletes taken out of the queue.
unfoldable pub take_deferred_deletes : Dispatcher → Dispatcher × List EventPair
take_deferred_deletes d = (
  record d { event_queue = remove_if is_deferred_pair d.event_queue },
  keep_if is_deferred_pair d.event_queue,
)
