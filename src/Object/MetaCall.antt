-- ===== src/Object/MetaCall.antt =====
-- The dispatch of a call to the thread where it belongs: dispatchMetaCall(), dispatchMetaCallTo(),
-- and the closures that they queue.
pub mod Queued
use qobject_mimic.Base.{
  ℕ, ◌+◌, List, [], ◌∷◌, ◌++◌, Option, none, some, Bool, true, false, if◌then◌else◌, is_null,
  nullptr, update, pos, ◌==◌, ◌≡◌, refl, ◌≢◌, foldl, arith, ◌⊎◌, inl, inr, remove_if,
}
use qobject_mimic.Key.{CallLaterKey, key_eq}
use qobject_mimic.Event.{
  Event, meta_call, Task, empty, user, bound_slot, run_later, rearm, TimerRegistration,
}
use qobject_mimic.Dispatcher.{Dispatcher, EventPair, register_timer, post_event}
use qobject_mimic.World.{
  World, Code, Object, ConnectionType, auto_connection, direct_connection, queued_connection,
  object_thread, object_dispatcher, data_thread, data_dispatcher, on_dispatcher, faulted,
  free_event, affinity_data,
}

-- `sPending.erase( aKey )`.
abbrev pub erase_pending : CallLaterKey → List (CallLaterKey × ℕ) → List (CallLaterKey × ℕ)
erase_pending key = remove_if (λ entry. key_eq entry.0 key)

-- The loop of that metacall.
unfoldable pub register_each : List TimerRegistration → ℕ → ℕ → ℕ → World → World
register_each [] o k t w = w
register_each (r ∷ rs) o k t w =
    register_each rs o k t (on_dispatcher k (register_timer t r.timer_id (pos r.interval_ms) o) w)

-- The metacall that moveToThread() queues.
unfoldable pub rearm_timers : ℕ → List TimerRegistration → World → World
unfolding register_each
rearm_timers o rs w = elim (w.heap o) [
  | none ↦ faulted w
  | some ob ↦
      let k = object_dispatcher ob w in if is_null k then w else register_each rs o k w.clock w
]

module _ (code : Code) where
  unfoldable pub run_node : Option ℕ → ℕ → World → World
  run_node none life w = w
  run_node (some slot) life w = if w.alive life then code.run slot w else w

  -- The metacall that scheduleCallLater() queues: it takes the key out, moves the invoker out of
  -- the node, and runs it if the object still lives.
  unfoldable pub run_call_later : CallLaterKey → ℕ → ℕ → World → World
  unfolding run_node
  run_call_later key node life w =
      run_node (w.nodes node) life
        (record w { pending = erase_pending key w.pending; nodes = update w.nodes node none })

  -- A call of a `std::function<void()>`. An empty one is not called anywhere.
  unfoldable pub run_task : Task → World → World
  unfolding run_call_later rearm_timers
  run_task empty w = w
  run_task (user n) w = code.run n w
  run_task (bound_slot life slot) w = if w.alive life then code.run slot w else w
  run_task (run_later key node life) w = run_call_later key node life w
  run_task (rearm o rs) w = rearm_timers o rs w

  abbrev pub resolve : ConnectionType → Bool → ConnectionType
  resolve auto_connection same = if same then direct_connection else queued_connection
  resolve direct_connection same = direct_connection
  resolve queued_connection same = queued_connection

  -- `if( activeType == QueuedConnection ) … ; aSlot(); return true;`, with the dispatcher found.
  unfoldable pub post_or_run : ConnectionType → ℕ → ℕ → Task → World → World × Bool
  post_or_run queued_connection k receiver slot w =
      if is_null k
      then (free_event (some (meta_call slot)) w, false)
      else (on_dispatcher k (post_event receiver (some (meta_call slot))) w, true)
  post_or_run direct_connection k receiver slot w = (run_task slot w, true)
  post_or_run auto_connection k receiver slot w = (run_task slot w, true)

  -- dispatchMetaCallTo().
  unfoldable pub dispatch_meta_call_to : ℕ → ℕ → ℕ → Task → ConnectionType → World → World × Bool
  unfolding post_or_run
  dispatch_meta_call_to caller data_ receiver slot type w =
      post_or_run (resolve type (caller == data_thread data_ w)) (data_dispatcher data_ w) receiver
        slot w

  -- dispatchMetaCall() over an Affinity box.
  unfoldable pub dispatch_through_box : ℕ → ℕ → ℕ → Task → ConnectionType → World → World × Bool
  unfolding dispatch_meta_call_to
  dispatch_through_box caller box receiver slot type w =
      dispatch_meta_call_to caller (if is_null box then nullptr else w.boxes box) receiver slot type
        w

  -- dispatchMetaCall() over an Object.
  unfoldable pub dispatch_meta_call : ℕ → ℕ → Task → ConnectionType → World → World × Bool
  unfolding post_or_run
  dispatch_meta_call caller target slot type w =
      if is_null target then (w, false) else elim (w.heap target) [
        | none ↦ (faulted w, false)
        | some ob ↦
            post_or_run (resolve type (caller == object_thread ob w)) (object_dispatcher ob w)
              target slot w
      ]

  -- The wrapper that connect() gives to the signal, called at emission: all ten overloads.
  unfoldable pub connect_wrapper : ℕ → ℕ → ℕ → ℕ → ℕ → ConnectionType → World → World
  unfolding dispatch_through_box
  connect_wrapper caller life box receiver slot type w =
      if w.alive life
      then (dispatch_through_box caller box receiver (bound_slot life slot) type w).0
      else w
