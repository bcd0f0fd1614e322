-- ===== src/Event.antt =====
-- src/Event.h: what the queues carry.
-- A `std::function<void()>` is a `Task`: the closures that the library itself makes are its
-- constructors, and code of the library's user is a number that stands for it.
use qobject_mimic.Base.{ℕ, List, Bool, true, false}
use qobject_mimic.Key.{CallLaterKey}

-- What moveToThread carries over for one timer.
pub record TimerRegistration : Type 0 where
  pub timer_id : ℕ
  pub interval_ms : ℕ

-- `bound_slot life slot`: the closure of a connect() wrapper, guarded by the receiver's life token.
-- `run_later key node life`: the metacall of scheduleCallLater().
-- `rearm object timers`: the metacall of moveToThread().
pub data Task : Type 0 where
  empty : Task
  user : ℕ → Task
  bound_slot : ℕ → ℕ → Task
  run_later : CallLaterKey → ℕ → ℕ → Task
  rearm : ℕ → List TimerRegistration → Task

pub data Event : Type 0 where
  meta_call : Task → Event
  timer : ℕ → Event
  deferred_delete : Event

-- `aEvent->type() == Event::DeferredDelete`.
abbrev pub is_deferred_delete : Event → Bool
is_deferred_delete (meta_call t) = false
is_deferred_delete (timer i) = false
is_deferred_delete deferred_delete = true

-- A `std::function` converted to `bool`.
abbrev pub is_callable : Task → Bool
is_callable empty = false
is_callable (user n) = true
is_callable (bound_slot l s) = true
is_callable (run_later k n l) = true
is_callable (rearm o ts) = true
