-- ===== src/Thread/Running.antt =====
-- exec(), processEvents() and threadBody() of src/Thread.cpp.
use qobject_mimic.Base.{
  ℕ, zero, suc, Option, none, some, Bool, true, false, not, if◌then◌else◌, is_null, nullptr, update,
  ℤ, ◌==◌,
}
use qobject_mimic.World.{World, Code, set_thread_running, set_dispatcher, warn}
use qobject_mimic.Virtual.{host}
use qobject_mimic.Loop.{process_events, process_deferred_deletes}
use qobject_mimic.Thread.{own_dispatcher, bind_affinity_to_self, ensure_dispatcher, put_thread}

-- The hooks of the dispatcher's class, and the code of a Thread's user: run() and the emissions of
-- started and finished.
pub record Body : Type 0 where
  pub wait_hook : Option ℕ → World → World
  pub platform_hook : World → World
  pub run : World → World
  pub emit_started : World → World
  pub emit_finished : World → World

module _ (code : Code) (body : Body) where
  -- One pass of the dispatcher at `k`, on the thread `t`.
  unfoldable pub pass : ℕ → ℕ → World → World
  pass t k w = (process_events (host code t k body.wait_hook body.platform_hook) w).0

  -- The loop of exec(), with fuel for its passes; `none` means that it ran out.
  unfoldable pub exec_loop : ℕ → ℕ → World → Option (World × ℤ)
  exec_loop zero t w = none
  exec_loop (suc fuel) t w =
      let rest = exec_loop fuel t (pass t (own_dispatcher t w) w) in
      if (w.threads t).exiting
      then some (w, (w.threads t).exit_code)
      else if is_null (own_dispatcher t w)
      then some (w, (w.threads t).exit_code)
      else rest

  -- processEvents(), called on the thread `caller`.
  unfoldable pub process_thread_events : ℕ → ℕ → World → World
  process_thread_events caller t w =
      let k = own_dispatcher t w in
      if not (t == caller) then warn w else if is_null k then w else pass t k w

  -- threadBody() up to run(): the thread registers itself, applies a priority that start() could
  -- not (which changes nothing on POSIX), and gets a dispatcher.
  unfoldable pub enter : ℕ → ℕ → World → World
  unfolding bind_affinity_to_self ensure_dispatcher
  enter native t w =
      let w1 = bind_affinity_to_self t (record w { current = update w.current native t }) in
      ensure_dispatcher t (put_thread t (record (w1.threads t) { priority_needs_reset = false }) w1)

  -- threadBody() after the deferred deletes; `created` is `createdDispatcher`.
  unfoldable pub leave : Bool → ℕ → ℕ → World → World
  leave created native t w =
      let w1 = if created then set_dispatcher (w.threads t).thread_data nullptr w else w in
      let w2 = set_thread_running (w1.threads t).thread_data false w1 in
      record (put_thread t (record (w2.threads t) { finished = true }) w2) {
        current = update w2.current native nullptr;
      }

  unfoldable pub drain_deletes : ℕ → ℕ → World → Option World
  drain_deletes fuel t w =
      let k = own_dispatcher t w in
      let drained =
        process_deferred_deletes (host code t k body.wait_hook body.platform_hook) fuel w in
      if is_null k then some w else drained

  -- threadBody(), with fuel for the rounds of deferred deletes.
  unfoldable pub thread_body : ℕ → ℕ → ℕ → World → Option World
  unfolding enter leave drain_deletes
  thread_body fuel native t w =
      let created = is_null (own_dispatcher t w) in
      elim (drain_deletes fuel t
        (body.emit_finished (body.run (body.emit_started (enter native t w))))) [
          | none ↦ none
          | some w' ↦ some (leave created native t w')
        ]
