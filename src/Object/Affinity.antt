-- ===== src/Object/Affinity.antt =====
-- moveToThread(): who may move an object, and what moves with it.
pub mod Moves
pub mod Rearm
use qobject_mimic.Base.{
  ℕ, List, [], ◌∷◌, Option, none, some, Bool, true, false, ◌&&◌, ◌||◌, not, if◌then◌else◌, is_null,
  nullptr, ◌==◌, update, is_empty,
}
use qobject_mimic.Event.{Task, rearm, TimerRegistration}
use qobject_mimic.Dispatcher.{take_timers_for_receiver}
use qobject_mimic.World.{
  World, Code, Object, queued_connection, object_thread, object_dispatcher, on_dispatcher,
  set_affinity, faulted, warn,
}
use qobject_mimic.Object.MetaCall.{dispatch_meta_call}

-- The timers that come off the outgoing dispatcher, if there is one.
unfoldable pub timers_to_move : ℕ → Object → World → List TimerRegistration
timers_to_move o ob w =
    let k = object_dispatcher ob w in
    if is_null k then [] else (take_timers_for_receiver o (w.dispatchers k)).1

unfoldable pub take_timers : ℕ → Object → World → World
take_timers o ob w =
    let k = object_dispatcher ob w in
    if is_null k then w else on_dispatcher k (λ d. (take_timers_for_receiver o d).0) w

-- `aThread ? aThread->threadData() : nullptr`.
unfoldable pub thread_data_of : ℕ → World → ℕ
thread_data_of t w = if is_null t then nullptr else (w.threads t).thread_data

abbrev pub may_move : ℕ → ℕ → ℕ → Bool
may_move caller current target = ((current == nullptr) && (target == caller)) || (current == caller)

module _ (code : Code) where
  -- The move itself, once it is allowed.
  unfoldable pub rehome : ℕ → ℕ → Object → ℕ → World → World
  rehome caller o ob target w =
      let moved = timers_to_move o ob w in
      let w' = set_affinity ob (thread_data_of target w) (take_timers o ob w) in
      if is_empty moved
      then w'
      else (dispatch_meta_call code caller o (rearm o moved) queued_connection w').0

  -- moveToThread().
  unfoldable pub move_to_thread : ℕ → ℕ → ℕ → World → World × Bool
  move_to_thread caller o target w = elim (w.heap o) [
    | none ↦ (faulted w, false)
    | some ob ↦
        if object_thread ob w == target
        then (w, true)
        else if may_move caller (object_thread ob w) target
        then (rehome caller o ob target w, true)
        else (warn w, false)
  ]
