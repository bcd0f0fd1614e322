-- ===== src/Application.antt =====
-- src/CoreApplication.h and src/CoreApplication.cpp.
pub mod Exec
use qobject_mimic.Base.{
  ℕ, Option, none, some, Bool, true, false, not, if◌then◌else◌, is_null, nullptr, update, ◌==◌, ℤ,
  pos, negsuc, List, [], ◌∷◌,
}
use qobject_mimic.World.{World, Code, Thread, App, set_dispatcher, make_dispatcher, warn}
use qobject_mimic.Object.Lifetime.{construct, destroy_object}
use qobject_mimic.Thread.{put_thread, exit}
use qobject_mimic.Thread.Running.{Body, exec_loop}
use qobject_mimic.Virtual.{host}
use qobject_mimic.Loop.{process_deferred_deletes}

abbrev pub put_app : ℕ → App → World → World
put_app a f w = record w { apps = update w.apps a f }

-- `mArgs` of the second constructor: a null entry of the vector gives the empty string.
unfoldable pub arguments {ℓ} : {A : Type ℓ} → A → List (Option A) → List A
arguments empty [] = []
arguments empty (none ∷ args) = empty ∷ arguments empty args
arguments empty (some a ∷ args) = a ∷ arguments empty args

-- adoptMainThread(), with what Thread::currentThread() returns.
unfoldable pub adopt_main_thread : ℕ → ℕ → World → World
adopt_main_thread caller a w =
    let (w1, k) =
      make_dispatcher (if is_null w.instance_ then record w { instance_ = a } else warn w) in
    put_app a (record { main_thread = caller; dispatcher = k; in_exec = false })
      (set_dispatcher (w1.threads caller).thread_data k w1)

-- CoreApplication().
unfoldable pub construct_app : ℕ → ℕ → World → World
unfolding adopt_main_thread
construct_app caller a w = adopt_main_thread caller a (construct caller a none w)

-- The thread gets a plain dispatcher back.
unfoldable pub hand_back : ℕ → World → World
hand_back t w =
    if is_null t
    then w
    else set_dispatcher (w.threads t).thread_data (make_dispatcher w).1 (make_dispatcher w).0

module _ (code : Code) (body : Body) where
  -- ~CoreApplication() after its deferred deletes, and ~Object().
  unfoldable pub finish_app : ℕ → ℕ → World → World
  unfolding hand_back
  finish_app caller a w =
      let w1 = hand_back (w.apps a).main_thread w in
      let w2 = put_app a (record (w1.apps a) { main_thread = nullptr; dispatcher = nullptr }) w1 in
      destroy_object code caller a
        (if w2.instance_ == a then record w2 { instance_ = nullptr } else w2)

  -- ~CoreApplication(), with fuel for the rounds of deferred deletes.
  unfoldable pub destroy_app : ℕ → ℕ → ℕ → World → Option World
  unfolding finish_app
  destroy_app fuel caller a w =
      let k = (w.apps a).dispatcher in
      let drained =
        process_deferred_deletes (host code caller k body.wait_hook body.platform_hook) fuel w in
      elim (if is_null k then some w else drained) [
        | none ↦ none
        | some w' ↦ some (finish_app caller a w')
      ]

  -- The state in which exec() enters the loop.
  unfoldable pub enter_exec : ℕ → World → World
  enter_exec a w =
      let w1 = put_app a (record (w.apps a) { in_exec = true }) w in
      let t = (w.apps a).main_thread in put_thread t (record (w1.threads t) { exiting = false }) w1

  -- exec(), with fuel for the passes of the loop. -1 is a refusal.
  unfoldable pub exec : ℕ → ℕ → ℕ → World → Option (World × ℤ)
  unfolding enter_exec
  exec fuel caller a w =
      let t = (w.apps a).main_thread in
      let looped = exec_loop code body fuel t (enter_exec a w) in
      if not (caller == t)
      then some (warn w, negsuc 0)
      else if (w.apps a).in_exec
      then some (warn w, negsuc 0)
      else elim looped [
        | none ↦ none
        | some (w', code_) ↦ some (put_app a (record (w'.apps a) { in_exec = false }) w', code_)
      ]

-- The static exit() and quit().
unfoldable pub exit_app : ℤ → World → World
exit_app code w =
    let t = (w.apps w.instance_).main_thread in
    if is_null w.instance_ then w else if is_null t then w else exit t code w
