-- ===== src/Application/Exec.antt =====
-- When exec() refuses, what an earlier exit request means to it, and which instance is kept.
use qobject_mimic.Base.{
  ℕ, ◌+◌, some, true, false, if◌then◌else◌, is_null, nullptr, ℤ, negsuc, ◌≡◌, ◌≢◌, arith,
}
use qobject_mimic.Base.{[], ◌≤◌}
use qobject_mimic.Dispatcher.{new_dispatcher}
use qobject_mimic.World.{World, Code, warn, set_dispatcher, make_dispatcher, on_dispatcher}
use qobject_mimic.Object.Lifetime.{construct}
use qobject_mimic.Thread.{exit, own_dispatcher}
use qobject_mimic.Thread.Running.{Body, exec_loop}
use qobject_mimic.Application.{put_app, construct_app, adopt_main_thread, enter_exec, exec}

-- CoreApplication() takes the place of the instance exactly if there is none; otherwise it warns
-- and the first stays. In either case the thread that constructs it gets a new dispatcher, which is
-- empty: what was queued and registered on the dispatcher `k` that the thread had before stays
-- there, where the thread's loop does not look any more.
pub construct_app_lem :
    (caller a k : ℕ) (w : World)
    → a ≢ nullptr
    → own_dispatcher caller w ≡ k
    → k ≤ w.next_id
    → let v = construct_app caller a w in
      let k' = own_dispatcher caller v in
      (v.instance_ ≡ (if is_null w.instance_ then a else w.instance_))
      × (v.warnings ≡ (if is_null w.instance_ then w.warnings else w.warnings + 1))
      × ((v.apps a).main_thread ≡ caller)
      × (k' ≡ (v.apps a).dispatcher)
      × (k' ≢ k)
      × ((v.dispatchers k').event_queue ≡ [])
      × ((v.dispatchers k').timers ≡ [])
      × (v.dispatchers k ≡ w.dispatchers k)
unfolding construct_app adopt_main_thread construct set_dispatcher make_dispatcher new_dispatcher
construct_app_lem caller a k w set own old = ground arith

module _ (code : Code) (body : Body) where
  -- exec() called from another thread, or while it runs, changes nothing but a warning and gives
  -- -1. Otherwise it starts its loop as not exiting, whatever exit() asked of it before, and with
  -- itself marked as running; if the loop ends with a code, exec() gives that code and can be
  -- called again.
  pub exec_lem :
      (fuel caller other a : ℕ) (c r : ℤ) (w v : World)
      → caller ≡ (w.apps a).main_thread
      → other ≢ caller
      → (w.apps a).in_exec ≡ false
      → exec_loop code body fuel caller (enter_exec code body a (exit caller c w)) ≡ some (v, r)
      → let asked = exit caller c w in
        let entered = enter_exec code body a asked in
        (u : World) × (exec code body fuel caller a asked ≡ some (u, r))
        × ((u.apps a).in_exec ≡ false)
        × ((entered.threads caller).exiting ≡ false)
        × ((entered.apps a).in_exec ≡ true)
        × (exec code body fuel caller a entered ≡ some (warn entered, negsuc 0))
        × (exec code body fuel other a asked ≡ some (warn asked, negsuc 0))
  unfolding exec enter_exec exit on_dispatcher
  exec_lem fuel caller other a c r w v main stranger free loop = (
    put_app a (record (v.apps a) { in_exec = false }) v,
    ground arith,
    ground arith,
    ground arith,
    ground arith,
    ground arith,
    ground arith,
  )
