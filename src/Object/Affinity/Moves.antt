-- ===== src/Object/Affinity/Moves.antt =====
-- moveToThread(): refusals, the new affinity, the timers that follow, and the events that stay.
use qobject_mimic.Base.{
  ℕ, List, [], ◌∷◌, ◌++◌, some, true, if◌then◌else◌, nullptr, ◌==◌, ◌≡◌, refl, ◌≢◌, arith, is_empty,
  map, keep_if, remove_if, ◌&&◌, ◌||◌, ◌∙◌, Bool-cases, inl, inr,
}
use qobject_mimic.Event.{meta_call, Task, rearm, TimerRegistration}
use qobject_mimic.Dispatcher.{Dispatcher, post_event, take_timers_for_receiver, registration}
use qobject_mimic.Dispatcher.Queue.{owned_by}
use qobject_mimic.Dispatcher.Expiry.{take_timers_lem}
use qobject_mimic.World.{
  World, Code, Object, queued_connection, object_thread, object_dispatcher, on_dispatcher,
  set_affinity, warn,
}
use qobject_mimic.Object.MetaCall.{dispatch_meta_call}
use qobject_mimic.Object.Affinity.{
  move_to_thread, rehome, may_move, timers_to_move, take_timers, thread_data_of,
}

-- moveToThread() succeeds exactly if the object already lives in the target, or the caller is the
-- thread that it lives in, or it lives nowhere and the caller takes it over; if it fails, nothing
-- but a warning has happened.
pub move_to_thread_allowed :
    (code : Code) (caller o target : ℕ) (ob : Object) (w : World)
    → w.heap o ≡ some ob
    → let current = object_thread ob w in
      ((move_to_thread code caller o target w).1 ≡ (
        (current == target)
        || (((current == nullptr) && (target == caller)) || (current == caller))))
      × ((if (move_to_thread code caller o target w).1
            then w
            else (move_to_thread code caller o target w).0)
          ≡ (if (move_to_thread code caller o target w).1 then w else warn w))
unfolding move_to_thread
move_to_thread_allowed code caller o target ob w e = ground arith

object_thread-on_dispatcher :
    (ob : Object) (k : ℕ) (f : Dispatcher → Dispatcher) (w : World)
    → object_thread ob (on_dispatcher k f w) ≡ object_thread ob w
unfolding object_thread on_dispatcher
object_thread-on_dispatcher ob k f w = refl

-- The timers of an object on a dispatcher, as they are carried over.
abbrev pub carried : ℕ → Dispatcher → List TimerRegistration
carried o d = map registration (keep_if (owned_by o) d.timers)

-- A move that the rules allow, of an object at `o` in a thread with the dispatcher `k`, to the
-- thread `target` with the ThreadData `data_` and the dispatcher `k'`.
module _ (code : Code) (caller o target data_ k k' : ℕ) (ob : Object) (w : World)
    (set : o ≢ nullptr) (object : w.heap o ≡ some ob) (elsewhere : object_thread ob w ≢ target)
    (allowed : may_move caller (object_thread ob w) target ≡ true)
    (here : object_dispatcher ob w ≡ k) (has : k ≢ nullptr) (aim : target ≢ nullptr)
    (its_data : (w.threads target).thread_data ≡ data_) (real : data_ ≢ nullptr)
    (its_thread : (w.datas data_).thread ≡ target) (there : (w.datas data_).dispatcher ≡ k')
    (has' : k' ≢ nullptr) (apart : k ≢ k') where
  -- The world with the timers taken and the affinity changed.
  abbrev middle : World
  middle = set_affinity ob (thread_data_of target w) (take_timers o ob w)

  middle-thread : object_thread ob middle ≡ target
  unfolding object_thread set_affinity take_timers on_dispatcher thread_data_of
  middle-thread = ground arith

  middle-dispatcher : object_dispatcher ob middle ≡ k'
  unfolding object_dispatcher set_affinity take_timers on_dispatcher thread_data_of
  middle-dispatcher = ground arith

  middle-heap : middle.heap o ≡ some ob
  unfolding set_affinity take_timers on_dispatcher
  middle-heap = ground arith

  middle-old : middle.dispatchers k ≡ (take_timers_for_receiver o (w.dispatchers k)).0
  unfolding set_affinity take_timers on_dispatcher
  middle-old = ground arith

  middle-new : middle.dispatchers k' ≡ w.dispatchers k'
  unfolding set_affinity take_timers on_dispatcher
  middle-new = ground arith

  moved : timers_to_move o ob w ≡ carried o (w.dispatchers k)
  unfolding timers_to_move
  moved = ground (arith, take_timers_lem o (w.dispatchers k) set)

  queued_in_middle :
      (slot : Task)
      → dispatch_meta_call code caller o slot queued_connection middle
        ≡ (on_dispatcher k' (post_event o (some (meta_call slot))) middle, true)
  unfolding dispatch_meta_call
  queued_in_middle slot = ground (arith, middle-dispatcher, middle-heap)

  rehomed : rehome code caller o ob target w ≡ (
      if is_empty (carried o (w.dispatchers k))
      then middle
      else on_dispatcher k'
          (post_event o (some (meta_call (rearm o (carried o (w.dispatchers k))))))
          middle)
  unfolding rehome
  rehomed = rw moved (ground (arith, queued_in_middle (rearm o (carried o (w.dispatchers k)))))

  moved_world : move_to_thread code caller o target w ≡ (rehome code caller o ob target w, true)
  unfolding move_to_thread
  moved_world = ground arith

  -- Let moveToThread() be called for a move that its rules allow, of an object in a thread with a
  -- dispatcher to another thread that has a dispatcher of its own, not the same one. Then the
  -- object lives in the target; its timers are off the old dispatcher, and the other timers there
  -- and all of its queue are as before, so that what was queued for the object stays on the old
  -- thread; and if it had timers, one metacall that registers exactly those, with their ids and
  -- intervals, stands last in the new dispatcher's queue.
  pub move_to_thread_lem :
      let w' = (move_to_thread code caller o target w).0 in
      let timers = carried o (w.dispatchers k) in
      (object_thread ob w' ≡ target)
      × ((w'.dispatchers k).timers ≡ remove_if (owned_by o) (w.dispatchers k).timers)
      × ((w'.dispatchers k).event_queue ≡ (w.dispatchers k).event_queue)
      × ((w'.dispatchers k').event_queue ≡ (
          if is_empty timers
          then (w.dispatchers k').event_queue
          else (w.dispatchers k').event_queue
            ++ record { receiver = o; event = some (meta_call (rearm o timers)) } ∷ []))
  unfolding on_dispatcher post_event
  move_to_thread_lem =
      let taken = take_timers_lem o (w.dispatchers k) set in
      rw (moved_world, rehomed)
        (elim (Bool-cases (is_empty (carried o (w.dispatchers k)))) [
          | inl e ↦ rw e (ground (arith, middle-thread, middle-old, middle-new, taken))
          | inr e ↦ rw e (
            object_thread-on_dispatcher ob k'
                  (post_event o (some (meta_call (rearm o (carried o (w.dispatchers k)))))) middle
                ∙ middle-thread,
            ground (arith, middle-old, taken),
            ground (arith, middle-old, taken),
            ground (arith, middle-new),
          )
        ])
