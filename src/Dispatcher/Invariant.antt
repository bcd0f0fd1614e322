-- ===== src/Dispatcher/Invariant.antt =====
-- What holds of an EventDispatcherDefault between two calls, over every sequence of its operations.
use qobject_mimic.Base.{
  ℕ, ◌+◌, ◌*◌, List, [], ◌∷◌, Option, none, some, true, ◌≡◌, refl, ◌≢◌, arith, All, All-append,
  All-remove_if, nullptr, is_some, ℤ, pos, negsuc, ◌==◌,
}
use qobject_mimic.Event.{Event}
use qobject_mimic.Dispatcher.{
  Dispatcher, EventPair, TimerData, new_dispatcher, set_wake_callback, post_event,
  remove_events_for_receiver, register_timer, install_timer, replace_timer, unregister_timer,
  take_timers_for_receiver, wake_up, interrupt, reschedule, take_deferred_deletes, has_timer,
  ns_per_ms,
}
use qobject_mimic.Dispatcher.Timers.{UniqueIds, UniqueIds-remove_if, install_timer-UniqueIds}

abbrev pub IsQueueable : EventPair → Type 0
IsQueueable ep = (ep.receiver ≢ nullptr) × (is_some ep.event ≡ true)

abbrev pub HasReceiver : TimerData → Type 0
HasReceiver t = t.receiver ≢ nullptr

-- Timer ids are distinct, and neither list holds a null receiver or a null event.
pub record IsValid (d : Dispatcher) : Type 0 where
  pub unique : UniqueIds d.timers
  pub queued : All IsQueueable d.event_queue
  pub timed : All HasReceiver d.timers

-- The operations, the locked steps of processEvents() and processDeferredDeletes() included.
pub data Call : Type 0 where
  posts : ℕ → Option Event → Call
  removes : ℕ → Call
  registers : ℕ → ℕ → ℤ → ℕ → Call
  unregisters : ℕ → Call
  takes : ℕ → Call
  wakes : Call
  interrupts : Call
  sets_callback : Option ℕ → Call
  expires : ℕ → Call
  drains : Call
  takes_deferred : Call

unfoldable pub perform : Call → Dispatcher → Dispatcher
perform (posts r e) d = post_event r e d
perform (removes r) d = remove_events_for_receiver r d
perform (registers now i n o) d = register_timer now i n o d
perform (unregisters i) d = (unregister_timer i d).0
perform (takes r) d = (take_timers_for_receiver r d).0
perform wakes d = wake_up d
perform interrupts d = interrupt d
perform (sets_callback c) d = set_wake_callback c d
perform (expires now) d = record d { timers = reschedule now d.timers }
perform drains d = record d { event_queue = [] }
perform takes_deferred d = (take_deferred_deletes d).0

unfoldable pub perform_all : List Call → Dispatcher → Dispatcher
perform_all [] d = d
perform_all (c ∷ cs) d = perform_all cs (perform c d)

post_event-IsValid :
    (r : ℕ) (e : Option Event) (d : Dispatcher) → IsValid d → IsValid (post_event r e d)
unfolding post_event
post_event-IsValid r none d v = v
post_event-IsValid r (some e) d v =
    ground
      (arith, All-append IsQueueable d.event_queue (record { receiver = r; event = some e } ∷ []))

remove_events-IsValid :
    (r : ℕ) (d : Dispatcher) → IsValid d → IsValid (remove_events_for_receiver r d)
unfolding remove_events_for_receiver
remove_events-IsValid r d v = ground (
  arith,
  All-remove_if IsQueueable (λ ep. ep.receiver == r) d.event_queue v.queued,
  All-remove_if HasReceiver (λ t. t.receiver == r) d.timers v.timed,
  UniqueIds-remove_if (λ t. t.receiver == r) d.timers v.unique,
)

All-replace :
    (td : TimerData) (ts : List TimerData)
    → HasReceiver td
    → All HasReceiver ts
    → All HasReceiver (replace_timer td ts)
unfolding replace_timer
All-replace td [] h a = tt
All-replace td (t ∷ ts) h a = ground (arith, All-replace td ts h a.1)

install_timer-IsValid :
    (td : TimerData) (d : Dispatcher) → HasReceiver td → IsValid d → IsValid (install_timer td d)
unfolding install_timer
install_timer-IsValid td d h v = record {
  unique = install_timer-UniqueIds td d v.unique;
  queued = v.queued;
  timed =
      ground (
        arith,
        All-replace td d.timers h v.timed,
        All-append HasReceiver d.timers (td ∷ []) v.timed,
      );
}

register_timer-IsValid :
    (now i : ℕ) (n : ℤ) (o : ℕ) (d : Dispatcher) → IsValid d → IsValid (register_timer now i n o d)
unfolding register_timer
register_timer-IsValid now i (negsuc n) o d v = v
register_timer-IsValid now i (pos n) o d v =
    let td : TimerData = record {
      timer_id = i;
      interval_ms = n;
      receiver = o;
      next_fire = now + n * ns_per_ms;
    } in
    ground (arith, install_timer-IsValid td d)

unregister_timer-IsValid : (i : ℕ) (d : Dispatcher) → IsValid d → IsValid (unregister_timer i d).0
unfolding unregister_timer
unregister_timer-IsValid i d v = ground (
  arith,
  All-remove_if HasReceiver (λ t. t.timer_id == i) d.timers v.timed,
  UniqueIds-remove_if (λ t. t.timer_id == i) d.timers v.unique,
)

take_timers-IsValid :
    (r : ℕ) (d : Dispatcher) → IsValid d → IsValid (take_timers_for_receiver r d).0
unfolding take_timers_for_receiver
take_timers-IsValid r d v = ground (
  arith,
  All-remove_if HasReceiver (λ t. t.receiver == r) d.timers v.timed,
  UniqueIds-remove_if (λ t. t.receiver == r) d.timers v.unique,
)

has_timer-reschedule :
    (now i : ℕ) (ts : List TimerData) → has_timer i (reschedule now ts) ≡ has_timer i ts
unfolding reschedule
has_timer-reschedule now i [] = refl
has_timer-reschedule now i (t ∷ ts) = ground (arith, has_timer-reschedule now i ts)

reschedule-UniqueIds :
    (now : ℕ) (ts : List TimerData) → UniqueIds ts → UniqueIds (reschedule now ts)
unfolding reschedule
reschedule-UniqueIds now [] u = tt
reschedule-UniqueIds now (t ∷ ts) u =
    ground (arith, reschedule-UniqueIds now ts u.1, has_timer-reschedule now t.timer_id ts)

reschedule-HasReceiver :
    (now : ℕ) (ts : List TimerData) → All HasReceiver ts → All HasReceiver (reschedule now ts)
unfolding reschedule
reschedule-HasReceiver now [] a = tt
reschedule-HasReceiver now (t ∷ ts) a = ground (arith, reschedule-HasReceiver now ts a.1)

perform-IsValid : (c : Call) (d : Dispatcher) → IsValid d → IsValid (perform c d)
unfolding perform wake_up interrupt set_wake_callback take_deferred_deletes
perform-IsValid (posts r e) d v = post_event-IsValid r e d v
perform-IsValid (removes r) d v = remove_events-IsValid r d v
perform-IsValid (registers now i n o) d v = register_timer-IsValid now i n o d v
perform-IsValid (unregisters i) d v = unregister_timer-IsValid i d v
perform-IsValid (takes r) d v = take_timers-IsValid r d v
perform-IsValid wakes d v = record { unique = v.unique; queued = v.queued; timed = v.timed }
perform-IsValid interrupts d v = record { unique = v.unique; queued = v.queued; timed = v.timed }
perform-IsValid (sets_callback c) d v = record {
  unique = v.unique;
  queued = v.queued;
  timed = v.timed;
}
perform-IsValid (expires now) d v = record {
  unique = reschedule-UniqueIds now d.timers v.unique;
  queued = v.queued;
  timed = reschedule-HasReceiver now d.timers v.timed;
}
perform-IsValid drains d v = record { unique = v.unique; queued = tt; timed = v.timed }
perform-IsValid takes_deferred d v = record {
  unique = v.unique;
  queued = All-remove_if IsQueueable _ d.event_queue v.queued;
  timed = v.timed;
}

-- In whatever order its operations are called, a dispatcher that satisfies the invariant goes on
-- satisfying it: timer ids are distinct, and no receiver and no event is null.
pub perform_all-IsValid : (cs : List Call) (d : Dispatcher) → IsValid d → IsValid (perform_all cs d)
unfolding perform_all
perform_all-IsValid [] d v = v
perform_all-IsValid (c ∷ cs) d v = perform_all-IsValid cs (perform c d) (perform-IsValid c d v)

pub new_dispatcher-IsValid : IsValid new_dispatcher
unfolding new_dispatcher
new_dispatcher-IsValid = record { unique = tt; queued = tt; timed = tt }
