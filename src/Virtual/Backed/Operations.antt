-- ===== src/Virtual/Backed/Operations.antt =====
-- The operations of src/Object.cpp and src/Timer.cpp that a delivery runs, on objects of the thread.
use qobject_mimic.Base.{
  ℕ, ◌+◌, ◌*◌, List, [], ◌∷◌, some, true, false, ◌==◌, ◌≡◌, refl, arith, All, All-remove_if,
  All-append, ℤ, pos, negsuc, Option-cases, inl, inr,
}
use qobject_mimic.Event.{TimerRegistration}
use qobject_mimic.Dispatcher.{
  Dispatcher, TimerData, register_timer, install_timer, replace_timer, unregister_timer,
  wake_waiter, ns_per_ms,
}
use qobject_mimic.World.{
  World, Object, TimerFields, object_dispatcher, data_dispatcher, on_dispatcher,
}
use qobject_mimic.Object.Timers.{kill_timer, no_timer}
use qobject_mimic.Object.MetaCall.{register_each, rearm_timers}
use qobject_mimic.Timer
use qobject_mimic.Virtual.Backed.{
  is_home, IsBacked, IsTimed, IsSound, Fine, Fine-refl, Fine-then, Fine-warn, Fine-put, Fine-on,
}

pub home_object :
    (k o : ℕ) (w : World)
    → is_home k w o ≡ true
    → (ob : Object) × (w.heap o ≡ some ob) × (object_dispatcher ob w ≡ k)
unfolding is_home object_dispatcher data_dispatcher
home_object k o w h = elim (Option-cases (w.heap o)) [
  | inl e ↦ ground arith
  | inr (ob, e) ↦ (ob, e, ground arith)
]

unregister_timer-IsTimed :
    (k i : ℕ) (w : World) (d : Dispatcher)
    → All (IsBacked k w) d.event_queue
    → All (IsTimed k w) d.timers
    → All (IsBacked k w) (unregister_timer i d).0.event_queue
      × All (IsTimed k w) (unregister_timer i d).0.timers
unfolding unregister_timer wake_waiter
unregister_timer-IsTimed k i w d q t =
    ground (arith, All-remove_if (IsTimed k w) (λ t. t.timer_id == i) d.timers t)

replace_timer-IsTimed :
    (k : ℕ) (w : World) (td : TimerData) (ts : List TimerData)
    → IsTimed k w td
    → All (IsTimed k w) ts
    → All (IsTimed k w) (replace_timer td ts)
unfolding replace_timer
replace_timer-IsTimed k w td [] h a = tt
replace_timer-IsTimed k w td (t ∷ ts) h a = ground (arith, replace_timer-IsTimed k w td ts h a.1)

install_timer-IsTimed :
    (k : ℕ) (w : World) (td : TimerData) (d : Dispatcher)
    → IsTimed k w td
    → All (IsBacked k w) d.event_queue
    → All (IsTimed k w) d.timers
    → All (IsBacked k w) (install_timer td d).event_queue
      × All (IsTimed k w) (install_timer td d).timers
unfolding install_timer wake_waiter
install_timer-IsTimed k w td d h q t = ground (
  arith,
  replace_timer-IsTimed k w td d.timers h t,
  All-append (IsTimed k w) d.timers (td ∷ []) t,
)

pub register_timer-IsTimed :
    (k now i : ℕ) (n : ℤ) (o : ℕ) (w : World) (d : Dispatcher)
    → is_home k w o ≡ true
    → All (IsBacked k w) d.event_queue
    → All (IsTimed k w) d.timers
    → All (IsBacked k w) (register_timer now i n o d).event_queue
      × All (IsTimed k w) (register_timer now i n o d).timers
unfolding register_timer
register_timer-IsTimed k now i (negsuc n) o w d h q t = (q, t)
register_timer-IsTimed k now i (pos n) o w d h q t =
    let td : TimerData = record {
      timer_id = i;
      interval_ms = n;
      receiver = o;
      next_fire = now + n * ns_per_ms;
    } in
    ground (arith, install_timer-IsTimed k w td d)

pub kill_timer-Fine :
    (k caller o i : ℕ) (w : World)
    → IsSound k w
    → is_home k w o ≡ true
    → Fine k w (kill_timer caller o i w)
unfolding kill_timer
kill_timer-Fine k caller o i w s h =
    let (ob, e, home) = home_object k o w h in
    let on =
      Fine-on k k (λ d. (unregister_timer i d).0) w s
        (λ same. unregister_timer-IsTimed k i w (w.dispatchers k) s.queued s.timed) in
    ground (arith, Fine-warn k w s, Fine-refl k w s, on)

pub put_fields-Fine :
    (k o : ℕ) (f : TimerFields) (w : World)
    → IsSound k w
    → is_home k w o ≡ true
    → Fine k w (Timer.put_fields o f w)
unfolding Timer.put_fields
put_fields-Fine k o f w s h =
    let (ob, e, home) = home_object k o w h in
    ground
      (arith, Fine-put k o ob (record ob { timer = some f }) w s e refl refl (λ h listed. listed))

pub stop-Fine :
    (k caller o : ℕ) (f : TimerFields) (w : World)
    → IsSound k w
    → is_home k w o ≡ true
    → Timer.timer_fields o w ≡ some f
    → Fine k w (Timer.stop caller o w)
unfolding Timer.stop Timer.timer_fields
stop-Fine k caller o f w s h e =
    let v = kill_timer caller o f.timer_id w in
    let off = record f { timer_id = no_timer; active = false } in
    let killed = kill_timer-Fine k caller o f.timer_id w s h in
    let stopped =
      Fine-then k w v (Timer.put_fields o off v) killed
        (λ s'. put_fields-Fine k o off v s' (killed.1 o refl h).1) in
    ground (arith, Fine-refl k w s, stopped)

register_each-Fine :
    (k i t o : ℕ) (rs : List TimerRegistration) (w : World)
    → IsSound k w
    → is_home k w o ≡ true
    → Fine k w (register_each rs o i t w)
unfolding register_each
register_each-Fine k i t o [] w s h = Fine-refl k w s
register_each-Fine k i t o (r ∷ rs) w s h =
    let f = register_timer t r.timer_id (pos r.interval_ms) o in
    let on = Fine-on k i f w s (λ same.
      register_timer-IsTimed k t r.timer_id (pos r.interval_ms) o w (w.dispatchers k) h s.queued
        s.timed) in
    Fine-then k w (on_dispatcher i f w) _ on
      (λ s'. register_each-Fine k i t o rs (on_dispatcher i f w) s' (on.1 o refl h).1)

pub rearm_timers-Fine :
    (k o : ℕ) (rs : List TimerRegistration) (w : World)
    → IsSound k w
    → is_home k w o ≡ true
    → Fine k w (rearm_timers o rs w)
unfolding rearm_timers
rearm_timers-Fine k o rs w s h =
    let (ob, e, home) = home_object k o w h in
    ground (arith, Fine-refl k w s, register_each-Fine k k w.clock o rs w s h)
