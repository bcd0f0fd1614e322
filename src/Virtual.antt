-- ===== src/Virtual.antt =====
-- The virtual calls of Object: its destructor, timerEvent(), and event(), which the event queue
-- calls; deleteLater(), and the dispatcher of a thread as a host of the dispatch loops.
pub mod Backed
pub mod DeleteLater
pub mod Emission
pub mod Threads
use qobject_mimic.Base.{
  ℕ, List, [], ◌∷◌, Option, none, some, Bool, true, false, if◌then◌else◌, is_null, update, ◌≡◌,
  refl, arith, ◌==◌,
}
use qobject_mimic.Event.{Event, meta_call, timer, deferred_delete}
use qobject_mimic.Dispatcher.{Dispatcher, post_event}
use qobject_mimic.World.{
  World, Code, Object, object_dispatcher, on_dispatcher, faulted, put_object, free_event,
}
use qobject_mimic.Object.MetaCall.{run_task}
use qobject_mimic.Object.Lifetime.{destroy_object}
use qobject_mimic.Loop.{Host}
use qobject_mimic.Timer

module _ (code : Code) where
  -- `delete this`: the destructors of the object's own class, then ~Timer() if it is a Timer, and
  -- ~Object(). Those of the class below are taken to return, as every `Code` does.
  unfoldable pub delete_this : ℕ → ℕ → World → World
  delete_this caller o w = elim (w.heap o) [
    | none ↦ faulted w
    | some ob ↦ elim ob.timer [
      | none ↦ destroy_object code caller o (code.destructor o w)
      | some f ↦ Timer.destroy_timer code caller o (code.destructor o w)
    ]
  ]

  -- timerEvent(), of a Timer or of a class of the user's.
  unfoldable pub timer_event : ℕ → ℕ → ℕ → World → World
  timer_event caller o i w = elim (w.heap o) [
    | none ↦ faulted w
    | some ob ↦ elim ob.timer [
      | none ↦ code.timer_event o i w
      | some f ↦ Timer.timer_event code caller o i w
    ]
  ]

  -- event(). A metacall reads nothing of the object.
  unfoldable pub event : ℕ → ℕ → Option Event → World → World × Bool
  unfolding delete_this timer_event
  event caller o none w = (w, false)
  event caller o (some (timer i)) w = (timer_event caller o i w, true)
  event caller o (some deferred_delete) w = (delete_this caller o w, true)
  event caller o (some (meta_call t)) w = (run_task code t w, true)

  -- deleteLater().
  unfoldable pub delete_later : ℕ → ℕ → World → World
  unfolding delete_this
  delete_later caller o w = elim (w.heap o) [
    | none ↦ faulted w
    | some ob ↦
        let k = object_dispatcher ob w in
        let w1 = put_object o (record ob { delete_later_posted = true }) w in
        if ob.delete_later_posted
        then w
        else if is_null k
        then delete_this caller o (free_event (some deferred_delete) w1)
        else on_dispatcher k (post_event o (some deferred_delete)) w1
  ]

  -- The thread `caller`, running the loops of the dispatcher at `k`. `wait` and `platform` are
  -- what the hooks of its class do, and what other threads do meanwhile.
  module _ (caller k : ℕ) (wait : Option ℕ → World → World) (platform : World → World) where
    pub put-get :
        (d : Dispatcher) (w : World)
        → (record w { dispatchers = update w.dispatchers k d }).dispatchers k ≡ d
    put-get d w = ground arith

    unfoldable pub host : Host World
    unfolding event
    host = record {
      dispatcher = λ w. w.dispatchers k;
      set_dispatcher = λ d w. record w { dispatchers = update w.dispatchers k d };
      now = λ w. w.clock;
      wait = wait;
      platform = platform;
      deliver = λ o e w. (event caller o (some e) w).0;
      free = free_event;
      dispatcher-set_dispatcher = put-get;
    }
