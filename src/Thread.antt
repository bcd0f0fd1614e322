-- ===== src/Thread.antt =====
-- src/Thread.h and src/Thread.cpp. A Thread is an Object at an address, with the members of
-- `Thread` beside it; `native` names the native thread that makes a call.
pub mod Priorities
pub mod Running
pub mod Lifecycle
pub mod Body
pub mod Windows
use qobject_mimic.Base.{
  ℕ, zero, suc, ◌+◌, Option, none, some, Bool, true, false, ◌&&◌, ◌||◌, not, if◌then◌else◌, is_null,
  nullptr, update, ◌==◌, ℤ, pos,
}
use qobject_mimic.Event.{Task, is_callable}
use qobject_mimic.Dispatcher.{interrupt, wake_up, set_wake_callback}
use qobject_mimic.World.{
  World, Code, Object, Thread, ThreadData, Priority, inherit, queued_connection, data_dispatcher,
  set_thread, set_thread_running, set_dispatcher, set_affinity, on_dispatcher, make_dispatcher,
  faulted, warn,
}
use qobject_mimic.Object.MetaCall.{dispatch_meta_call_to}
use qobject_mimic.Object.Lifetime.{construct, destroy_object}

abbrev pub put_thread : ℕ → Thread → World → World
put_thread t f w = record w { threads = update w.threads t f }

abbrev pub thread_of : ℕ → World → Thread
thread_of t w = w.threads t

-- mData->dispatcher().
abbrev pub own_dispatcher : ℕ → World → ℕ
own_dispatcher t w = (w.datas (w.threads t).thread_data).dispatcher

-- Thread(), at the address `t`.
unfoldable pub construct_thread : ℕ → ℕ → World → World
unfolding set_thread
construct_thread caller t w =
    let w1 = construct caller t none w in
    let data_ = w1.next_id + 1 in
    set_thread data_ t (record w1 {
      threads = update w1.threads t (record {
        thread_data = data_;
        exiting = false;
        exit_code = pos 0;
        finished = false;
        joinable = false;
        adopted = false;
        priority = inherit;
        priority_needs_reset = false;
      });
      datas =
          update w1.datas data_
            (record { thread = nullptr; running = false; dispatcher = nullptr });
      next_id = data_;
    })

-- bindAffinityToSelf().
unfoldable pub bind_affinity_to_self : ℕ → World → World
unfolding set_affinity
bind_affinity_to_self t w = elim (w.heap t) [
  | none ↦ faulted w
  | some ob ↦ set_affinity ob (w.threads t).thread_data w
]

-- `if( !mData->dispatcher() ) mData->setDispatcher( make_shared… )`.
unfoldable pub ensure_dispatcher : ℕ → World → World
ensure_dispatcher t w =
    if is_null (own_dispatcher t w)
    then set_dispatcher (w.threads t).thread_data (make_dispatcher w).1 (make_dispatcher w).0
    else w

-- adoptCallingThread().
unfoldable pub adopt_calling_thread : ℕ → ℕ → World → World
unfolding bind_affinity_to_self ensure_dispatcher
adopt_calling_thread native t w = ensure_dispatcher t (
    bind_affinity_to_self t (record (put_thread t (record (w.threads t) { adopted = true }) w) {
      current = update w.current native t;
    }))

-- currentThread(), with the address that an adopted Thread gets. sAdopting is set only inside
-- `construct_thread`, whose caller is then null.
unfoldable pub current_thread : ℕ → ℕ → World → World × ℕ
unfolding construct_thread adopt_calling_thread
current_thread native fresh w =
    if is_null (w.current native)
    then (adopt_calling_thread native fresh (construct_thread nullptr fresh w), fresh)
    else (w, w.current native)

-- exit() and quit().
unfoldable pub exit : ℕ → ℤ → World → World
exit t code w =
    let w1 = put_thread t (record (w.threads t) { exit_code = code; exiting = true }) w in
    let k = own_dispatcher t w1 in
    if is_null k then w1 else on_dispatcher k (λ d. wake_up (interrupt d)) w1

abbrev pub quit : ℕ → World → World
quit t w = exit t (pos 0) w

-- isRunning(), isFinished() and isAdopted().
abbrev pub is_running : ℕ → World → Bool
is_running t w = (w.datas (w.threads t).thread_data).running

abbrev pub is_finished : ℕ → World → Bool
is_finished t w = (w.threads t).finished

-- wait(): `elapse` is what other threads do until the thread finishes or the time is up, and
-- `none` is an untimed wait that goes on.
unfoldable pub wait : (World → World) → Bool → ℕ → World → Option (World × Bool)
wait elapse timed t w =
    if not (w.threads t).joinable
    then some (w, true)
    else let w' = if (w.threads t).finished then w else elapse w in
      if (w'.threads t).finished
      then some (put_thread t (record (w'.threads t) { joinable = false }) w', true)
      else if timed
      then some (w', false)
      else none

-- The state of start() in which startPlatformSpecific() is called.
unfoldable pub prepare_start : Priority → ℕ → World → World
prepare_start p t w =
    put_thread t
      (record (w.threads t) {
        finished = false;
        exiting = false;
        priority_needs_reset = false;
        priority = p;
      })
      (set_thread_running (w.threads t).thread_data true w)

-- start(), around startPlatformSpecific(); the wait for the run before is untimed.
unfoldable pub start : (World → World) → (ℕ → World → World) → Priority → ℕ → World → Option World
unfolding prepare_start wait
start elapse platform p t w = if is_running t w then some w else elim (wait elapse false t w) [
  | none ↦ none
  | some (w', done) ↦ some (platform t (prepare_start p t w'))
]

-- create(): a FuncThread at the address `t`, whose run() calls the functor.
unfoldable pub create : (World → World) → (ℕ → World → World) → ℕ → ℕ → World → Option World
unfolding start construct_thread
create elapse platform caller t w = start elapse platform inherit t (construct_thread caller t w)

-- setWakeCallback().
unfoldable pub install_wake_callback : Option ℕ → ℕ → World → World
install_wake_callback c t w =
    let k = own_dispatcher t w in if is_null k then w else on_dispatcher k (set_wake_callback c) w

-- post().
unfoldable pub post : Code → ℕ → ℕ → Task → World → World × Bool
post code caller t task w =
    if is_callable task
    then dispatch_meta_call_to code caller (w.threads t).thread_data t task queued_connection w
    else (w, false)

-- ~Thread(), after its wait.
unfoldable pub clear_thread : ℕ → ℕ → World → World
unfolding set_thread
clear_thread native t w =
    let w1 =
      if w.current native == t then record w { current = update w.current native nullptr } else w in
    set_thread (w1.threads t).thread_data nullptr w1

-- The same, and ~Object().
unfoldable pub finish_destroy : Code → ℕ → ℕ → ℕ → World → World
unfolding clear_thread
finish_destroy code native caller t w = destroy_object code caller t (clear_thread native t w)

-- ~Thread().
unfoldable pub destroy_thread : (World → World) → Code → ℕ → ℕ → ℕ → World → Option World
unfolding finish_destroy wait exit
destroy_thread elapse code native caller t w = elim (wait elapse false t (quit t w)) [
  | none ↦ none
  | some (w', done) ↦ some (finish_destroy code native caller t w')
]
