-- ===== src/Thread/Body.antt =====
-- exec() and threadBody(): when the loop ends, and what a run leaves behind.
use qobject_mimic.Base.{
  ℕ, zero, suc, ◌<◌, ◌≤◌, some, Bool, true, false, if◌then◌else◌, is_null, nullptr, ℤ, ◌≡◌, ◌≢◌,
  ◌⊎◌, inl, inr, arith, Bool-cases, any,
}
use qobject_mimic.Dispatcher.{is_deferred_pair}
use qobject_mimic.Loop.{Host, Pass, delete_round}
use qobject_mimic.Loop.Deferred.{process_deferred_deletes_total}
use qobject_mimic.Virtual.{host}
use qobject_mimic.World.{
  World, Code, on_dispatcher, object_thread, object_dispatcher, set_thread_running, set_dispatcher,
  Object, make_dispatcher, set_affinity, data_thread, data_dispatcher,
}
use qobject_mimic.Thread.{
  own_dispatcher, exit, is_running, is_finished, bind_affinity_to_self, ensure_dispatcher,
}
use qobject_mimic.Thread.Running.{Body, pass, exec_loop, enter, leave, drain_deletes, thread_body}

module _ (code : Code) (body : Body) where
  -- The state after some passes of the thread's own dispatcher.
  unfoldable pub passes : ℕ → ℕ → World → World
  passes zero t w = w
  passes (suc n) t w = passes n t (pass code body t (own_dispatcher t w) w)

  -- Where exec() stops.
  abbrev pub Ends : ℕ → World → Type 0
  Ends t w = ((w.threads t).exiting ≡ true) ⊎ (own_dispatcher t w ≡ nullptr)

  abbrev ends : ℕ → World → Bool
  ends t w = if (w.threads t).exiting then true else is_null (own_dispatcher t w)

  loop_step :
      (fuel t : ℕ) (w : World)
      → exec_loop code body (suc fuel) t w ≡ (
          if ends t w
          then some (w, (w.threads t).exit_code)
          else exec_loop code body fuel t (pass code body t (own_dispatcher t w) w))
  unfolding exec_loop
  loop_step fuel t w = ground arith

  ends-Ends : (t : ℕ) (w : World) → ends t w ≡ true → Ends t w
  ends-Ends t w e = ground arith

  Ends-ends : (t : ℕ) (w : World) → Ends t w → ends t w ≡ true
  Ends-ends t w e = ground arith

  -- If the thread is told to exit, or loses its dispatcher, within some passes of its dispatcher,
  -- exec() with more fuel than that returns: it makes at most those passes, stops in a state where
  -- one of the two holds, and gives the exit code of that state.
  pub exec_loop_lem :
      (n fuel t : ℕ) (w : World)
      → n < fuel
      → Ends t (passes n t w)
      → (m : ℕ) × (m ≤ n)
        × (exec_loop code body fuel t w ≡ some (passes m t w, ((passes m t w).threads t).exit_code))
        × Ends t (passes m t w)
  unfolding passes
  exec_loop_lem n zero t w m e = ground arith
  exec_loop_lem zero (suc fuel) t w m e =
      (0, ground arith, ground (arith, loop_step fuel t w, Ends-ends t w e), e)
  exec_loop_lem (suc n) (suc fuel) t w m e =
      let (m', le, same, stop) =
        exec_loop_lem n fuel t (pass code body t (own_dispatcher t w) w) (omega arith) e in
      elim (Bool-cases (ends t w)) [
        | inl done ↦ (0, ground arith, ground (arith, loop_step fuel t w), ends-Ends t w done)
        | inr on ↦ (suc m', omega arith, ground (arith, loop_step fuel t w, same), stop)
      ]

  exit-ends :
      (t : ℕ) (c : ℤ) (w : World)
      → (ends t (exit t c w) ≡ true) × (((exit t c w).threads t).exit_code ≡ c)
  unfolding exit on_dispatcher
  exit-ends t c w = ground arith

  -- exec() of a thread that was told to exit before returns that code without a pass.
  pub exec_exited :
      (fuel t : ℕ) (c : ℤ) (w : World)
      → exec_loop code body (suc fuel) t (exit t c w) ≡ some (exit t c w, c)
  exec_exited fuel t c w = ground (arith, loop_step fuel t (exit t c w), exit-ends t c w)

  -- run() is entered on a registered Thread that lives in itself and has a dispatcher.
  pub enter_lem :
      (native t : ℕ) (ob : Object) (w : World)
      → w.heap t ≡ some ob
      → (w.threads t).thread_data ≢ nullptr
      → (w.datas (w.threads t).thread_data).thread ≡ t
      → let v = enter code body native t w in
        (v.current native ≡ t)
        × (object_thread ob v ≡ t)
        × (object_dispatcher ob v ≡ own_dispatcher t v)
        × (own_dispatcher t v ≢ nullptr)
  unfolding enter bind_affinity_to_self ensure_dispatcher set_affinity set_dispatcher
      make_dispatcher object_thread object_dispatcher data_thread data_dispatcher
  enter_lem native t ob w e d own = ground arith

  -- The state when run() has returned and finished has been emitted.
  abbrev pub after_run : ℕ → ℕ → World → World
  after_run native t w =
      body.emit_finished (body.run (body.emit_started (enter code body native t w)))

  -- The dispatcher that threadBody() drains.
  abbrev pub last_loop : ℕ → World → Host World
  last_loop t w = host code t (own_dispatcher t w) body.wait_hook body.platform_hook

  drain_deletes_total :
      (measure : World → ℕ) (fuel t : ℕ) (w : World)
      → ((p q : Pass World)
          → delete_round (last_loop t w) p ≡ some q
          → measure q.world < measure p.world)
      → measure w < fuel
      → (v : World) × (drain_deletes code body fuel t w ≡ some v)
        × (is_null (own_dispatcher t w) ≡ false
            → any is_deferred_pair (v.dispatchers (own_dispatcher t w)).event_queue ≡ false)
  unfolding drain_deletes host
  drain_deletes_total measure fuel t w falls m =
      let (v, ended, clean) =
        process_deferred_deletes_total (last_loop t w) measure falls fuel w m in
      elim (Bool-cases (is_null (own_dispatcher t w))) [
        | inl none_ ↦ (w, ground arith, λ set. ground arith)
        | inr set ↦ (v, ground arith, λ set'. clean)
      ]

  -- If each round of deferred deletes on the dispatcher that the thread has after run() and finished
  -- lowers some measure of the world, and run() leaves the thread a dispatcher, then with more rounds
  -- allowed than the measure threadBody() returns, after a drain that leaves no deferred delete in
  -- that dispatcher's queue. The thread is then finished and not running, with the exit code that it
  -- has after the drain; the native thread is registered as no Thread; and a dispatcher that the body
  -- created is released, one that was there before stays.
  pub thread_body_lem :
      (measure : World → ℕ) (fuel native t : ℕ) (w : World)
      → ((p q : Pass World)
          → delete_round (last_loop t (after_run native t w)) p ≡ some q
          → measure q.world < measure p.world)
      → measure (after_run native t w) < fuel
      → is_null (own_dispatcher t (after_run native t w)) ≡ false
      → (v : World) × (u : World) × (drain_deletes code body fuel t (after_run native t w) ≡ some v)
        × (thread_body code body fuel native t w ≡ some u)
        × (any is_deferred_pair
              (u.dispatchers (own_dispatcher t (after_run native t w))).event_queue
            ≡ false)
        × (is_finished t u ≡ true)
        × (is_running t u ≡ false)
        × (u.current native ≡ nullptr)
        × (own_dispatcher t u
            ≡ (if is_null (own_dispatcher t w) then nullptr else own_dispatcher t v))
        × ((u.threads t).exit_code ≡ (v.threads t).exit_code)
  unfolding thread_body leave set_dispatcher set_thread_running
  thread_body_lem measure fuel native t w falls m has =
      let (v, drained, clean) = drain_deletes_total measure fuel t (after_run native t w) falls m in
      (
        v,
        leave code body (is_null (own_dispatcher t w)) native t v,
        drained,
        ground arith,
        ground (arith, clean has),
        ground arith,
        ground arith,
        ground arith,
        ground arith,
        ground arith,
      )
