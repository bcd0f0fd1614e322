-- ===== src/Thread/Lifecycle.antt =====
-- start(), wait(), exit(), post() and currentThread().
use qobject_mimic.Base.{
  ℕ, ◌<◌, [], ◌∷◌, ◌++◌, some, Bool, true, false, not, if◌then◌else◌, is_null, nullptr, ℤ, ◌≡◌, ◌≢◌,
  ◌⊎◌, inl, inr, refl, arith, Bool-cases,
}
use qobject_mimic.Event.{Task, empty, is_callable}
use qobject_mimic.Dispatcher.{wake_condition, wake_up, interrupt, wake_waiter}
use qobject_mimic.World.{
  World, Code, Priority, inherit, data_dispatcher, on_dispatcher, make_dispatcher,
  queued_connection, set_thread_running, set_thread, set_affinity, set_dispatcher,
}
use qobject_mimic.Object.MetaCall.Queued.{dispatch_elsewhere, queued_call}
use qobject_mimic.Object.Lifetime.{construct}
use qobject_mimic.Thread.{
  is_running, is_finished, own_dispatcher, wait, prepare_start, create, start, exit, post,
  current_thread, construct_thread, put_thread, adopt_calling_thread, bind_affinity_to_self,
  ensure_dispatcher,
}
use qobject_mimic.Thread.Priorities.{Posix, created, start_platform_specific, priority}

-- A timed wait() always returns. If it reports a timeout, the thread has not finished; otherwise
-- the thread is reaped, and every later wait(), however long, reports so at once and changes nothing.
pub wait_lem :
    (elapse later : World → World) (again : Bool) (t : ℕ) (w : World)
    → (v : World) × (done : Bool) × (wait elapse true t w ≡ some (v, done))
      × (((done ≡ false) × ((v.threads t).finished ≡ false))
          ⊎ ((done ≡ true)
              × ((v.threads t).joinable ≡ false)
              × (wait later again t v ≡ some (v, true))))
unfolding wait
wait_lem elapse later again t w = elim (Bool-cases (w.threads t).joinable) [
  | inr idle ↦ (w, true, ground arith, inr (refl, idle, ground arith))
  | inl busy ↦
      let u = if (w.threads t).finished then w else elapse w in
      elim (Bool-cases (u.threads t).finished) [
        | inl done ↦ (
          put_thread t (record (u.threads t) { joinable = false }) u,
          true,
          ground arith,
          inr (refl, ground arith, ground arith),
        )
        | inr late ↦ (u, false, ground arith, inl (refl, late))
      ]
]

-- The state in which a thread that can be reaped without waiting has been.
abbrev pub reaped : ℕ → World → World
reaped t w =
    if (w.threads t).joinable then put_thread t (record (w.threads t) { joinable = false }) w else w

wait_reaped :
    (elapse : World → World) (t : ℕ) (w : World)
    → ((w.threads t).joinable ≡ false) ⊎ ((w.threads t).finished ≡ true)
    → wait elapse false t w ≡ some (reaped t w, true)
unfolding wait
wait_reaped elapse t w ended = ground arith

pub start-reaped :
    (elapse : World → World) (platform : ℕ → World → World) (p : Priority) (t : ℕ) (w : World)
    → is_running t w ≡ false
    → ((w.threads t).joinable ≡ false) ⊎ ((w.threads t).finished ≡ true)
    → start elapse platform p t w ≡ some (platform t (prepare_start p t (reaped t w)))
unfolding start
start-reaped elapse platform p t w idle ended = ground (arith, wait_reaped elapse t w ended)

pub start_running :
    (elapse : World → World) (platform : ℕ → World → World) (p : Priority) (t : ℕ) (w : World)
    → is_running t w ≡ true
    → start elapse platform p t w ≡ some w
unfolding start
start_running elapse platform p t w runs = ground arith

-- start() of a thread that is not running, and whose last run is finished or reaped, returns. If
-- the native thread can be created, the thread runs and can be waited for, it is neither exiting
-- nor finished, priority() is the one given, and another start() does nothing at all.
pub start_lem :
    (elapse : World → World) (s : Posix) (p q : Priority) (t : ℕ) (w : World)
    → is_running t w ≡ false
    → ((w.threads t).joinable ≡ false) ⊎ ((w.threads t).finished ≡ true)
    → created s ≡ true
    → (v : World) × (start elapse (start_platform_specific s) p t w ≡ some v)
      × (is_running t v ≡ true)
      × ((v.threads t).joinable ≡ true)
      × ((v.threads t).exiting ≡ false)
      × (is_finished t v ≡ false)
      × (priority t v ≡ p)
      × (start elapse (start_platform_specific s) q t v ≡ some v)
unfolding start wait prepare_start start_platform_specific priority set_thread_running
start_lem elapse s p q t w idle ended ok =
    let v = start_platform_specific s t (prepare_start p t (reaped t w)) in
    let runs : is_running t v ≡ true = ground arith in
    (
      v,
      start-reaped elapse (start_platform_specific s) p t w idle ended,
      runs,
      ground arith,
      ground arith,
      ground arith,
      ground arith,
      start_running elapse (start_platform_specific s) q t v runs,
    )

-- If the native thread cannot be created, start() of a thread with nothing to reap returns with a
-- warning, the thread does not run, priority() is InheritPriority, and wait() does not block.
pub start_failed :
    (elapse : World → World) (s : Posix) (p : Priority) (t : ℕ) (w : World)
    → is_running t w ≡ false
    → (w.threads t).joinable ≡ false
    → created s ≡ false
    → (v : World) × (start elapse (start_platform_specific s) p t w ≡ some v)
      × (is_running t v ≡ false)
      × (w.warnings < v.warnings)
      × (priority t v ≡ inherit)
      × (wait elapse false t v ≡ some (v, true))
unfolding start wait prepare_start start_platform_specific priority set_thread_running
start_failed elapse s p t w idle none_left refused =
    let v = start_platform_specific s t (prepare_start p t (reaped t w)) in
    (
      v,
      start-reaped elapse (start_platform_specific s) p t w idle (inl none_left),
      ground arith,
      ground arith,
      ground arith,
      ground arith,
    )

-- create() returns, if the native thread can be created, with a Thread that runs at the inherited
-- priority and can be waited for.
pub create_lem :
    (elapse : World → World) (s : Posix) (caller t : ℕ) (w : World)
    → created s ≡ true
    → (v : World) × (create elapse (start_platform_specific s) caller t w ≡ some v)
      × (is_running t v ≡ true)
      × ((v.threads t).joinable ≡ true)
      × (priority t v ≡ inherit)
unfolding create construct_thread set_thread construct
create_lem elapse s caller t w ok =
    let (v, made, runs, joinable, going, unfinished, set, again) =
      start_lem elapse s inherit inherit t (construct_thread caller t w) (ground arith)
        (inl (ground arith)) ok in
    (v, made, runs, joinable, set)

-- exit() makes the thread exiting with that code. A wait of its dispatcher, if it has one, ends,
-- and the next pass dispatches nothing, since the interrupt is pending.
pub exit_lem :
    (t : ℕ) (c : ℤ) (w : World)
    → own_dispatcher t w ≢ nullptr
    → let v = exit t c w in
      let d = v.dispatchers (own_dispatcher t w) in
      ((v.threads t).exiting ≡ true)
      × ((v.threads t).exit_code ≡ c)
      × (wake_condition d ≡ true)
      × (d.interrupted ≡ true)
      × (d.event_queue ≡ (w.dispatchers (own_dispatcher t w)).event_queue)
unfolding exit on_dispatcher wake_up interrupt wake_waiter
exit_lem t c w has = ground arith

-- A task given to post() is never run by the caller, whichever thread that is: whatever the
-- user's code, the outcome is the same. A callable task stands last in the queue of the Thread's
-- own dispatcher and is reported queued; without a dispatcher it is reported lost. An empty task
-- is refused and changes nothing.
pub post_defers :
    (code other : Code) (caller t : ℕ) (task : Task) (w : World)
    → t ≢ nullptr
    → is_callable task ≡ true
    → let r = post code caller t task w in
      let k = data_dispatcher (w.threads t).thread_data w in
      (r ≡ post other caller t task w)
      × (r.1 ≡ not (is_null k))
      × ((r.0.dispatchers k).event_queue ≡ (
          if is_null k
          then (w.dispatchers k).event_queue
          else (w.dispatchers k).event_queue ++ queued_call t task ∷ []))
      × (post code caller t empty w ≡ (w, false))
unfolding post
post_defers code other caller t task w h c = ground (
  arith,
  dispatch_elsewhere code other caller (w.threads t).thread_data t
      (data_dispatcher (w.threads t).thread_data w) task queued_connection w h (inl refl),
)

-- currentThread() never gives null; it gives the Thread that the native thread is registered as,
-- and asked again it gives the same and changes nothing.
pub current_thread_lem :
    (native fresh other : ℕ) (w : World)
    → fresh ≢ nullptr
    → let v = (current_thread native fresh w).0 in
      let t = (current_thread native fresh w).1 in
      (t ≢ nullptr) × (v.current native ≡ t) × (current_thread native other v ≡ (v, t))
unfolding current_thread construct_thread adopt_calling_thread bind_affinity_to_self
    ensure_dispatcher set_affinity set_dispatcher set_thread construct make_dispatcher
current_thread_lem native fresh other w h = ground arith
