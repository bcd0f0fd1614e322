-- ===== src/SingleShot/Fires.antt =====
-- What singleShot() registers, what its helper does when the timer fires, and a negative interval.
use qobject_mimic.Base.{
  ℕ, ◌+◌, ◌*◌, [], ◌∷◌, ◌++◌, none, some, false, nullptr, ◌≡◌, ◌≢◌, refl, arith, pos, negsuc,
}
use qobject_mimic.Event.{deferred_delete}
use qobject_mimic.Dispatcher.{ns_per_ms}
use qobject_mimic.Dispatcher.Timers.{find_timer}
use qobject_mimic.World.{World, Code, Object, object_thread, object_dispatcher}
use qobject_mimic.Object.Timers.{no_timer}
use qobject_mimic.Object.Timers.Ids.{start_kill, start_timer_negative}
use qobject_mimic.Timer.States.{start_timer-heap}
use qobject_mimic.Object.Lifetime.{construct}
use qobject_mimic.Virtual.DeleteLater.{delete_later_once, delete_later_all}
use qobject_mimic.SingleShot.{arm_helper, helper_event, single_shot}

-- The object that construct() puts at the address.
abbrev pub fresh_object : World → Object
fresh_object w = record {
  life = w.next_id + 1;
  affinity = w.next_id + 2;
  delete_later_posted = false;
  name = [];
  cleanup_callbacks = [];
  incoming = [];
  timer = none;
}

construct-heap :
    (caller o : ℕ) (w : World) → (construct caller o none w).heap o ≡ some (fresh_object w)
unfolding construct
construct-heap caller o w = ground arith

construct-counters :
    (caller o : ℕ) (w : World)
    → ((construct caller o none w).next_timer_id ≡ w.next_timer_id)
      × ((construct caller o none w).clock ≡ w.clock)
      × ((construct caller o none w).dispatchers ≡ w.dispatchers)
unfolding construct
construct-counters caller o w = (refl, refl, refl)

-- singleShot() with an interval of at least 0, on a thread `caller` with a dispatcher, when the ids
-- have not wrapped around to -1: a new object stands at the address, with one timer, of a new id,
-- due one interval from now. When its event arrives, the functor runs, and if that leaves the
-- helper undeleted and in a thread with a dispatcher, one deferred delete for it is queued last.
-- Events of other ids do nothing.
pub single_shot_lem :
    (code : Code) (caller o n fn j : ℕ) (ob : Object) (w v : World)
    → o ≢ nullptr
    → object_thread (fresh_object w) (construct caller o none w) ≡ caller
    → object_dispatcher (fresh_object w) (construct caller o none w) ≢ nullptr
    → w.next_timer_id ≢ no_timer
    → j ≢ w.next_timer_id
    → (code.run fn v).heap o ≡ some ob
    → ob.delete_later_posted ≡ false
    → object_dispatcher ob (code.run fn v) ≢ nullptr
    → let r = single_shot code caller o (pos n) fn w in
      let k = object_dispatcher (fresh_object w) (construct caller o none w) in
      let k' = object_dispatcher ob (code.run fn v) in
      (r.0.heap o ≡ some (fresh_object w))
      × (find_timer r.1.id (r.0.dispatchers k).timers
          ≡ some (record {
            timer_id = w.next_timer_id;
            interval_ms = n;
            receiver = o;
            next_fire = w.clock + n * ns_per_ms;
          }))
      × (((helper_event code caller o r.1 w.next_timer_id v).dispatchers k').event_queue
          ≡ ((code.run fn v).dispatchers k').event_queue
            ++ record { receiver = o; event = some deferred_delete } ∷ [])
      × (helper_event code caller o r.1 j v ≡ v)
unfolding single_shot arm_helper helper_event delete_later_all
single_shot_lem code caller o n fn j ob w v set own has id other alive new has' =
    let made = construct caller o none w in
    let clock = construct-counters caller o w in
    let started =
      start_kill caller o n w.next_timer_id (fresh_object w) made set (construct-heap caller o w)
        own has in
    (
      ground (
        arith,
        clock,
        started.0,
        start_timer-heap caller o (pos n) made,
        construct-heap caller o w,
      ),
      ground (arith, clock, started),
      ground (
        arith,
        clock,
        started.0,
        (delete_later_once code caller [] o ob (code.run fn v) set alive new has').0,
      ),
      ground (arith, clock, started.0),
    )

-- singleShot() with a negative interval registers nothing, yet keeps the helper: no dispatcher has
-- other timers than before, and the object at the address stays, with nothing to delete it.
pub single_shot_negative :
    (code : Code) (caller o n fn k : ℕ) (w : World)
    → object_thread (fresh_object w) (construct caller o none w) ≡ caller
    → object_dispatcher (fresh_object w) (construct caller o none w) ≢ nullptr
    → w.next_timer_id ≢ no_timer
    → let r = single_shot code caller o (negsuc n) fn w in
      (r.0.heap o ≡ some (fresh_object w)) × (r.0.dispatchers k ≡ w.dispatchers k)
unfolding single_shot arm_helper
single_shot_negative code caller o n fn k w own has id =
    let made = construct caller o none w in
    let clock = construct-counters caller o w in
    let started =
      start_timer_negative caller o n k (fresh_object w) made (construct-heap caller o w) own has in
    (
      ground (
        arith,
        clock,
        started.0,
        start_timer-heap caller o (negsuc n) made,
        construct-heap caller o w,
      ),
      ground (arith, clock, started),
    )
