-- ===== src/Object/Timers/Ids.antt =====
-- startTimer() and killTimer(): thread confinement, ids, and what a negative interval does.
use qobject_mimic.Base.{
  ℕ, ◌+◌, ◌*◌, none, some, if◌then◌else◌, nullptr, ◌==◌, ◌≡◌, ◌≢◌, arith, ℤ, pos, negsuc,
}
use qobject_mimic.Dispatcher.{register_timer, ns_per_ms}
use qobject_mimic.Dispatcher.Timers.{find_timer, register_timer_lem, unregister_timer_lem}
use qobject_mimic.World.{World, Object, object_thread, object_dispatcher, on_dispatcher, warn}
use qobject_mimic.Object.Timers.{start_timer, kill_timer, no_timer, next_int}

-- From any other thread startTimer() and killTimer() do nothing but warn, and startTimer() gives -1.
pub timers_confined :
    (caller o i : ℕ) (interval : ℤ) (ob : Object) (w : World)
    → w.heap o ≡ some ob
    → object_thread ob w ≢ caller
    → (start_timer caller o interval w ≡ (warn w, no_timer)) × (kill_timer caller o i w ≡ warn w)
unfolding start_timer kill_timer
timers_confined caller o i interval ob w e far = ground arith

-- On the object's own thread, with a dispatcher, startTimer() with an interval of at least 0 takes
-- the next id, and that id then names a timer of the object, first due one interval from now;
-- every other id is as it was. killTimer() of the id afterwards leaves it unregistered.
pub start_kill :
    (caller o n j : ℕ) (ob : Object) (w : World)
    → o ≢ nullptr
    → w.heap o ≡ some ob
    → object_thread ob w ≡ caller
    → object_dispatcher ob w ≢ nullptr
    → let k = object_dispatcher ob w in
      let i = w.next_timer_id in
      let w' = (start_timer caller o (pos n) w).0 in
      ((start_timer caller o (pos n) w).1 ≡ i)
      × (w'.next_timer_id ≡ next_int i)
      × (find_timer j (w'.dispatchers k).timers ≡ (
          if i == j
          then some (record {
            timer_id = i;
            interval_ms = n;
            receiver = o;
            next_fire = w.clock + n * ns_per_ms;
          })
          else find_timer j (w.dispatchers k).timers))
      × (find_timer i ((kill_timer caller o i w').dispatchers k).timers ≡ none)
unfolding start_timer kill_timer on_dispatcher object_thread object_dispatcher
start_kill caller o n j ob w set e own has =
    let k = object_dispatcher ob w in
    let i = w.next_timer_id in
    let d' = register_timer w.clock i (pos n) o (w.dispatchers k) in
    ground
      (arith, register_timer_lem w.clock i j n o (w.dispatchers k) set, unregister_timer_lem i i d')

-- A negative interval is not refused: startTimer() gives an id and uses it up, but no dispatcher
-- has another timer than before.
pub start_timer_negative :
    (caller o n k : ℕ) (ob : Object) (w : World)
    → w.heap o ≡ some ob
    → object_thread ob w ≡ caller
    → object_dispatcher ob w ≢ nullptr
    → ((start_timer caller o (negsuc n) w).1 ≡ w.next_timer_id)
      × ((start_timer caller o (negsuc n) w).0.next_timer_id ≡ next_int w.next_timer_id)
      × ((start_timer caller o (negsuc n) w).0.dispatchers k ≡ w.dispatchers k)
unfolding start_timer on_dispatcher register_timer
start_timer_negative caller o n k ob w e own has = ground arith
