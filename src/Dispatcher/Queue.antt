-- ===== src/Dispatcher/Queue.antt =====
-- The event queue of EventDispatcherDefault: postEvent() and removeEventsForReceiver().
use qobject_mimic.Base.{
  ℕ, ◌+◌, List, [], ◌∷◌, ◌++◌, some, Bool, true, false, ◌==◌, ◌≡◌, refl, ◌≢◌, if◌then◌else◌,
  is_null, nullptr, remove_if, keep_if, any, arith, is_some, any-remove_if, is_empty-append,
}
use mathlib.Core.List.{append-nil, append_assoc}
use qobject_mimic.Event.{Event}
use qobject_mimic.Dispatcher.{
  Dispatcher, EventPair, TimerData, post_event, remove_events_for_receiver, wake_condition,
}

abbrev pub targets : ℕ → EventPair → Bool
targets r ep = ep.receiver == r

abbrev pub owned_by : ℕ → TimerData → Bool
owned_by r t = t.receiver == r

-- What a series of posts asks to queue: the pairs with a receiver and an event.
unfoldable pub postable : List EventPair → List EventPair
postable [] = []
postable (ep ∷ eps) =
    let rest = postable eps in
    if is_null ep.receiver then rest else if is_some ep.event then ep ∷ rest else rest

unfoldable pub post_all : List EventPair → Dispatcher → Dispatcher
post_all [] d = d
post_all (ep ∷ eps) d = post_all eps (post_event ep.receiver ep.event d)

post_event-queue :
    (ep : EventPair) (d : Dispatcher)
    → (post_event ep.receiver ep.event d).event_queue ≡ d.event_queue ++ postable (ep ∷ [])
unfolding post_event postable
post_event-queue ep d = ground (arith, append-nil d.event_queue)

postable-cons :
    (ep : EventPair) (eps : List EventPair)
    → postable (ep ∷ eps) ≡ postable (ep ∷ []) ++ postable eps
unfolding postable
postable-cons ep eps = ground arith

-- Posting any series of pairs appends, in order, exactly those with a receiver and an event.
pub post_all-queue :
    (eps : List EventPair) (d : Dispatcher)
    → (post_all eps d).event_queue ≡ d.event_queue ++ postable eps
unfolding post_all postable
post_all-queue [] d = ground (arith, append-nil d.event_queue)
post_all-queue (ep ∷ eps) d = rw (
  post_all-queue eps (post_event ep.receiver ep.event d),
  post_event-queue ep d,
  postable-cons ep eps,
  append_assoc,
)

-- A post that queues makes the condition of a wait true, and notifies once.
pub post_event_wakes :
    (r : ℕ) (e : Event) (d : Dispatcher)
    → r ≢ nullptr
    → (wake_condition (post_event r (some e) d) ≡ true)
      × ((post_event r (some e) d).notified ≡ d.notified + 1)
unfolding post_event
post_event_wakes r e d h =
    ground (arith, is_empty-append d.event_queue [] (record { receiver = r; event = some e }))

keep_if-remove_if :
    (r s : ℕ)
    → r ≢ s
    → (q : List EventPair) → keep_if (targets s) (remove_if (targets r) q) ≡ keep_if (targets s) q
keep_if-remove_if r s h [] = refl
keep_if-remove_if r s h (ep ∷ q) = ground (arith, keep_if-remove_if r s h q)

keep_if-remove_if_timers :
    (r s : ℕ)
    → r ≢ s
    → (q : List TimerData)
    → keep_if (owned_by s) (remove_if (owned_by r) q) ≡ keep_if (owned_by s) q
keep_if-remove_if_timers r s h [] = refl
keep_if-remove_if_timers r s h (t ∷ q) = ground (arith, keep_if-remove_if_timers r s h q)

-- After removeEventsForReceiver no event and no timer of the receiver is left, and the events and
-- timers of any other receiver are those of before, in the same order.
pub remove_events_lem :
    (r s : ℕ) (d : Dispatcher)
    → r ≢ nullptr
    → r ≢ s
    → (any (targets r) (remove_events_for_receiver r d).event_queue ≡ false)
      × (any (owned_by r) (remove_events_for_receiver r d).timers ≡ false)
      × (keep_if (targets s) (remove_events_for_receiver r d).event_queue
          ≡ keep_if (targets s) d.event_queue)
      × (keep_if (owned_by s) (remove_events_for_receiver r d).timers
          ≡ keep_if (owned_by s) d.timers)
unfolding remove_events_for_receiver
remove_events_lem r s d h g = ground (
  arith,
  any-remove_if (targets r) d.event_queue,
  any-remove_if (owned_by r) d.timers,
  keep_if-remove_if r s g d.event_queue,
  keep_if-remove_if_timers r s g d.timers,
)
