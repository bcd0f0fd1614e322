-- ===== src/Dispatcher/Expiry.antt =====
-- The loop "Collect expired timers" of processEvents(), and the transfer of takeTimersForReceiver().
use qobject_mimic.Base.{
  ℕ, ◌⊎◌, ◌+◌, ◌*◌, ◌≤◌, ◌<◌, List, [], ◌∷◌, some, Bool, false, leb, ◌≡◌, refl, ◌≢◌, remove_if,
  keep_if, arith, All, map, nullptr, any, any-remove_if, remove_if_of_none,
}
use qobject_mimic.Event.{timer}
use qobject_mimic.Dispatcher.{
  Dispatcher, EventPair, TimerData, expired_events, reschedule, ns_per_ms, registration,
  take_timers_for_receiver,
}
use qobject_mimic.Dispatcher.Queue.{owned_by}

abbrev pub is_due : ℕ → TimerData → Bool
is_due now t = leb t.next_fire now

abbrev pub timer_pair : TimerData → EventPair
timer_pair t = record { receiver = t.receiver; event = some (timer t.timer_id) }

expired_events_lem :
    (now : ℕ) (ts : List TimerData)
    → expired_events now ts ≡ map timer_pair (keep_if (is_due now) ts)
unfolding expired_events
expired_events_lem now [] = refl
expired_events_lem now (t ∷ ts) = ground (arith, expired_events_lem now ts)

reschedule-registrations :
    (now : ℕ) (ts : List TimerData) → map registration (reschedule now ts) ≡ map registration ts
unfolding reschedule
reschedule-registrations now [] = refl
reschedule-registrations now (t ∷ ts) = ground (arith, reschedule-registrations now ts)

reschedule-receivers :
    (now : ℕ) (ts : List TimerData)
    → map (λ t. t.receiver) (reschedule now ts) ≡ map (λ t. t.receiver) ts
unfolding reschedule
reschedule-receivers now [] = refl
reschedule-receivers now (t ∷ ts) = ground (arith, reschedule-receivers now ts)

-- A timer that was due is due again at once only if its interval is 0.
reschedule_not_due :
    (now : ℕ) (ts : List TimerData)
    → All
        (λ t. (now < t.next_fire) ⊎ ((t.next_fire ≡ now) × (t.interval_ms ≡ 0)))
        (reschedule now ts)
unfolding reschedule
reschedule_not_due now [] = tt
reschedule_not_due now (t ∷ ts) = ground (arith, reschedule_not_due now ts)

reschedule_bound :
    (now : ℕ) (ts : List TimerData)
    → All (λ t. t.next_fire ≤ now + t.interval_ms * ns_per_ms) ts
    → All (λ t. t.next_fire ≤ now + t.interval_ms * ns_per_ms) (reschedule now ts)
unfolding reschedule
reschedule_bound now [] h = tt
reschedule_bound now (t ∷ ts) h = ground (arith, reschedule_bound now ts h.1)

-- One pass collects one timer event for each timer that is due, in registration order, and keeps
-- every timer with its id, interval and receiver. None is left that fires before now, and none that
-- fires now but those with an interval of 0: every other timer next fires after now.
pub expiry_lem :
    (now : ℕ) (ts : List TimerData)
    → (expired_events now ts ≡ map timer_pair (keep_if (is_due now) ts))
      × (map registration (reschedule now ts) ≡ map registration ts)
      × (map (λ t. t.receiver) (reschedule now ts) ≡ map (λ t. t.receiver) ts)
      × (All
          (λ t. (now < t.next_fire) ⊎ ((t.next_fire ≡ now) × (t.interval_ms ≡ 0)))
          (reschedule now ts))
expiry_lem now ts = (
  expired_events_lem now ts,
  reschedule-registrations now ts,
  reschedule-receivers now ts,
  reschedule_not_due now ts,
)

keep_if_of_none {ℓ} :
    {A : Type ℓ} (p : A → Bool) (xs : List A) → any p xs ≡ false → keep_if p xs ≡ []
keep_if_of_none p [] h = refl
keep_if_of_none p (x ∷ xs) h = ground (arith, keep_if_of_none p xs)

-- takeTimersForReceiver() hands over the registrations of exactly the receiver's timers, in order,
-- and leaves exactly the other timers, in order; the queue is as it was.
pub take_timers_lem :
    (r : ℕ) (d : Dispatcher)
    → r ≢ nullptr
    → ((take_timers_for_receiver r d).1 ≡ map registration (keep_if (owned_by r) d.timers))
      × ((take_timers_for_receiver r d).0.timers ≡ remove_if (owned_by r) d.timers)
      × (any (owned_by r) (take_timers_for_receiver r d).0.timers ≡ false)
      × ((take_timers_for_receiver r d).0.event_queue ≡ d.event_queue)
unfolding take_timers_for_receiver
take_timers_lem r d h = ground (
  arith,
  any-remove_if (owned_by r) d.timers,
  remove_if_of_none (owned_by r) d.timers,
  keep_if_of_none (owned_by r) d.timers,
)
