-- ===== src/Examples/Deletes.antt =====
-- The theorem on processDeferredDeletes() and the objects of a thread at a concrete input.
use qobject_mimic.Base.{
  ◌∙◌, ℕ, ◌<◌, ◌≤◌, List, [], ◌∷◌, some, true, false, ◌≡◌, refl, arith, length, any, foldl,
  remove_if, keep_if, length-remove_if, is_empty, ◌==◌, pos, nullptr,
}
use qobject_mimic.Dispatcher.{
  interrupt, wake_up, EventPair, remove_events_for_receiver, unregister_timer, wake_waiter,
  is_deferred_pair, take_deferred_deletes,
}
use qobject_mimic.World.{World, Object, on_dispatcher, set_affinity}
use qobject_mimic.Thread.{
  exit, is_finished, is_running, own_dispatcher, bind_affinity_to_self, ensure_dispatcher,
}
use qobject_mimic.Thread.Running.{Body, enter, drain_deletes, thread_body}
use qobject_mimic.Thread.Body.{after_run, thread_body_lem}
use qobject_mimic.Loop.{Host, Pass, delete_one, delete_round, process_deferred_deletes}
use qobject_mimic.Virtual.{host, event, delete_this}
use qobject_mimic.Virtual.Backed.{IsSound}
use qobject_mimic.Virtual.Backed.Deletes.{process_deferred_deletes_safe}
use qobject_mimic.Object.Timers.{kill_timer}
use qobject_mimic.Object.Lifetime.{
  destroy_cleanup, destroy_object, wind_down, release, check_thread, take_incoming, take_callbacks,
  disconnect_all, run_callbacks,
}
use qobject_mimic.Timer.{stop, put_fields, destroy_timer}
use qobject_mimic.Signal.{Entry, has_handle, destroy_slots}
use qobject_mimic.Examples.Sample.{sample}
use qobject_mimic.Examples.Signals.{boost_code}
use qobject_mimic.Examples.Safety.{stay, still, sample-IsSound, boost_code-IsCareful}

abbrev waiting : World → ℕ
waiting w = length (w.dispatchers 21).event_queue

cleanup-waiting : (o life h : ℕ) (w : World) → waiting (destroy_cleanup o life h w) ≡ waiting w
unfolding destroy_cleanup
cleanup-waiting o life h w = ground arith

slots-waiting : (es : List Entry) (w : World) → waiting (destroy_slots es w) ≡ waiting w
unfolding destroy_slots
slots-waiting [] w = refl
slots-waiting (e ∷ es) w =
    slots-waiting es (destroy_cleanup e.2.receiver e.2.life e.0 w)
    ∙ cleanup-waiting e.2.receiver e.2.life e.0 w

disconnects-waiting :
    (hs : List ℕ) (w : World) → waiting (disconnect_all boost_code hs w) ≡ waiting w
unfolding disconnect_all
disconnects-waiting [] w = refl
disconnects-waiting (c ∷ hs) w =
    disconnects-waiting hs (boost_code.disconnect c w)
    ∙ slots-waiting (keep_if (has_handle c) w.connections) _

callbacks-waiting : (cs : List ℕ) (w : World) → waiting (run_callbacks boost_code cs w) ≡ waiting w
unfolding run_callbacks
callbacks-waiting [] w = refl
callbacks-waiting (c ∷ cs) w = callbacks-waiting cs (boost_code.run c w)

wind_down-waiting :
    (o : ℕ) (ob : Object) (w : World) → waiting (wind_down boost_code 1 o ob w) ≡ waiting w
unfolding wind_down check_thread take_incoming take_callbacks
wind_down-waiting o ob w = grind (arith, disconnects-waiting, callbacks-waiting)

release-waiting :
    (o : ℕ) (ob : Object) (w : World) → waiting (release boost_code o ob w) ≤ waiting w
unfolding release on_dispatcher remove_events_for_receiver
release-waiting o ob w =
    ground (
      arith,
      length-remove_if (λ (ep : EventPair). ep.receiver == o) (w.dispatchers 21).event_queue,
    )

stop-waiting : (o : ℕ) (w : World) → waiting (stop 1 o w) ≡ waiting w
unfolding stop put_fields kill_timer on_dispatcher unregister_timer wake_waiter
stop-waiting o w = ground arith

destroy_object-waiting : (o : ℕ) (w : World) → waiting (destroy_object boost_code 1 o w) ≤ waiting w
unfolding destroy_object
destroy_object-waiting o w = grind (arith, release-waiting, wind_down-waiting)

destroy_timer-waiting : (o : ℕ) (w : World) → waiting (destroy_timer boost_code 1 o w) ≤ waiting w
unfolding destroy_timer
destroy_timer-waiting o w =
    ground
      (arith, destroy_object-waiting o w, destroy_object-waiting o (stop 1 o w), stop-waiting o w)

delete_this-waiting : (o : ℕ) (w : World) → waiting (delete_this boost_code 1 o w) ≤ waiting w
unfolding delete_this
delete_this-waiting o w =
    let v = boost_code.destructor o w in
    ground (arith, destroy_object-waiting o v, destroy_timer-waiting o v)

abbrev loop : Host World
loop = host boost_code 1 21 stay still

delete_one-waiting :
    (p : Pass World) (ep : EventPair)
    → is_deferred_pair ep ≡ true
    → waiting (delete_one loop p ep).world ≤ waiting p.world
unfolding delete_one host event
delete_one-waiting p ep doomed = ground (arith, delete_this-waiting ep.receiver p.world)

deletes-waiting :
    (eps : List EventPair) (p : Pass World)
    → waiting (foldl (delete_one loop) p (keep_if is_deferred_pair eps)).world ≤ waiting p.world
deletes-waiting [] p = ground arith
deletes-waiting (ep ∷ eps) p = ground (
  arith,
  delete_one-waiting p ep,
  deletes-waiting eps p,
  deletes-waiting eps (delete_one loop p ep),
)

nonempty-length : (q : List EventPair) → is_empty q ≡ false → 0 < length q
nonempty-length [] h = ground arith
nonempty-length (ep ∷ q) h = omega arith

round-waiting :
    (p q : Pass World) → delete_round loop p ≡ some q → waiting q.world < waiting p.world
unfolding delete_round take_deferred_deletes host
round-waiting p q e =
    let d = p.world.dispatchers 21 in
    let left = record d { event_queue = remove_if is_deferred_pair d.event_queue } in
    let p' = record p { world = loop.set_dispatcher left p.world } in
    ground (
      arith,
      deletes-waiting d.event_queue p',
      nonempty-length (keep_if is_deferred_pair d.event_queue),
      length-remove_if is_deferred_pair d.event_queue,
    )

process_deferred_deletes_safe_example :
    (v : World) × (process_deferred_deletes loop 3 sample ≡ some v)
    × IsSound 21 v
    × (any is_deferred_pair (v.dispatchers 21).event_queue ≡ false)
process_deferred_deletes_safe_example =
    process_deferred_deletes_safe boost_code 1 21 stay still refl boost_code-IsCareful waiting
      (λ p q s. round-waiting p q) 3 sample sample-IsSound (omega arith)

-- A run() that asks the first thread to exit.
abbrev body : Body
body = record {
  wait_hook = stay;
  platform_hook = still;
  run = λ w. exit 1 (pos 4) w;
  emit_started = still;
  emit_finished = still;
}

abbrev done : World
done = after_run boost_code body 7 1 sample

thread_body_lem_example :
    (v : World) × (u : World) × (drain_deletes boost_code body 4 1 done ≡ some v)
    × (thread_body boost_code body 4 7 1 sample ≡ some u)
    × (any is_deferred_pair (u.dispatchers 21).event_queue ≡ false)
    × (is_finished 1 u ≡ true)
    × (is_running 1 u ≡ false)
    × (u.current 7 ≡ nullptr)
    × (own_dispatcher 1 u ≡ own_dispatcher 1 v)
    × ((u.threads 1).exit_code ≡ (v.threads 1).exit_code)
unfolding enter exit bind_affinity_to_self ensure_dispatcher on_dispatcher set_affinity interrupt
    wake_up
thread_body_lem_example =
    thread_body_lem boost_code body waiting 4 7 1 sample round-waiting (omega arith) refl
