-- ===== src/Object/Lifetime/Destroyed.antt =====
-- ~Object() of src/Object.cpp: the state that it leaves.
use qobject_mimic.Base.{
  ℕ, List, [], ◌∷◌, ◌++◌, none, some, true, false, nullptr, ◌==◌, ◌≡◌, ◌≢◌, arith, any, remove_if,
  any-remove_if, keep_if,
}
use qobject_mimic.Key.{CallLaterKey}
use qobject_mimic.Event.{TimerRegistration, rearm}
use qobject_mimic.Object.MetaCall.{run_task, rearm_timers}
use qobject_mimic.Dispatcher.Queue.{targets, owned_by, remove_events_lem}
use qobject_mimic.World.{World, Code, Object, object_dispatcher, on_dispatcher}
use qobject_mimic.Object.Lifetime.{
  destroy_object, release, wind_down, track_incoming, destroy_cleanup,
}

-- After ~Object() the address holds no object, callLater() has nothing pending for it, and the
-- dispatcher of the thread that it lived in at the end has no event and no timer for it, while the
-- events and timers there for any other object are untouched by the last step.
pub destroy_object_lem :
    (code : Code) (caller o s : ℕ) (ob : Object) (w : World)
    → o ≢ nullptr
    → o ≢ s
    → w.heap o ≡ some ob
    → object_dispatcher ob (wind_down code caller o ob w) ≢ nullptr
    → let v = wind_down code caller o ob w in
      let w' = destroy_object code caller o w in
      let k = object_dispatcher ob v in
      (w'.heap o ≡ none)
      × (any (λ entry. entry.0.context == o) w'.pending ≡ false)
      × (any (targets o) (w'.dispatchers k).event_queue ≡ false)
      × (any (owned_by o) (w'.dispatchers k).timers ≡ false)
      × (keep_if (targets s) (w'.dispatchers k).event_queue
          ≡ keep_if (targets s) (v.dispatchers k).event_queue)
      × (keep_if (owned_by s) (w'.dispatchers k).timers
          ≡ keep_if (owned_by s) (v.dispatchers k).timers)
unfolding destroy_object release on_dispatcher object_dispatcher
destroy_object_lem code caller o s ob w set apart e has =
    let v = wind_down code caller o ob w in
    let k = object_dispatcher ob v in
    ground (
      arith,
      any-remove_if (λ (entry : CallLaterKey × ℕ). entry.0.context == o) v.pending,
      remove_events_lem o s (v.dispatchers k) set apart,
    )

-- Only the dispatcher of the object's last thread is cleared: an event for the object in the queue
-- of any other dispatcher, where a move left it, outlives the object; and the call that registers
-- carried-over timers, if it runs then, reads the destroyed object.
pub destroy_object_elsewhere :
    (code : Code) (caller o k : ℕ) (rs : List TimerRegistration) (ob : Object) (w : World)
    → w.heap o ≡ some ob
    → object_dispatcher ob (wind_down code caller o ob w) ≢ k
    → let v = wind_down code caller o ob w in
      let w' = destroy_object code caller o w in
      (w'.heap o ≡ none)
      × (w'.dispatchers k ≡ v.dispatchers k)
      × ((run_task code (rearm o rs) w').fault ≡ true)
unfolding destroy_object release on_dispatcher object_dispatcher run_task rearm_timers
destroy_object_elsewhere code caller o k rs ob w e far = ground arith

pub remove_if-append_one :
    (h : ℕ) (cs : List ℕ)
    → any (λ c. c == h) cs ≡ false
    → remove_if (λ c. c == h) (cs ++ h ∷ []) ≡ cs
remove_if-append_one h [] e = ground arith
remove_if-append_one h (c ∷ cs) e = ground (arith, remove_if-append_one h cs)

-- A connection that is made and then ends, while its receiver lives, leaves the receiver as it was
-- if the connection's handle was not in its list, and leaves every other object alone.
pub track_then_cleanup :
    (o other life h : ℕ) (ob : Object) (w : World)
    → o ≢ nullptr
    → o ≢ other
    → w.heap o ≡ some ob
    → w.alive life ≡ true
    → any (λ c. c == h) ob.incoming ≡ false
    → ((destroy_cleanup o life h (track_incoming o h w)).heap o ≡ some ob)
      × ((destroy_cleanup o life h (track_incoming o h w)).heap other ≡ w.heap other)
unfolding destroy_cleanup track_incoming
track_then_cleanup o other life h ob w set apart e lives new =
    ground (arith, remove_if-append_one h ob.incoming new)
