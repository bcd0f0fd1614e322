-- ===== src/Thread/Windows/Start.antt =====
-- Thread::start() on Windows (src/Thread.cpp, src/ThreadWin.cpp).
use qobject_mimic.Base.{ℕ, ◌<◌, some, none, true, false, nullptr, ◌≡◌, ◌≢◌, ◌⊎◌, arith}
use qobject_mimic.World.{World, Priority, set_thread_running}
use qobject_mimic.Thread.{is_running, wait, prepare_start, start}
use qobject_mimic.Thread.Lifecycle.{reaped, start-reaped, start_running}
use qobject_mimic.Thread.Priorities.{priority}
use qobject_mimic.Thread.Windows.{Windows, start_windows, level_of, apply_priority}

abbrev pub platform : Windows → ℕ → World → World
platform s t w = (start_windows s t w).0

-- On Windows, start() of a thread that is not running, and whose last run is finished or reaped,
-- returns. If the native thread can be created and takes its level, the thread runs and can be waited
-- for, priority() is the one given, the native thread has the level of that priority, for
-- InheritPriority the level of the caller, before it is resumed, and another start() does nothing.
pub start_windows_lem :
    (elapse : World → World) (s : Windows) (p q : Priority) (t : ℕ) (w : World)
    → is_running t w ≡ false
    → ((w.threads t).joinable ≡ false) ⊎ ((w.threads t).finished ≡ true)
    → s.handle ≢ nullptr
    → s.level_accepted ≡ true
    → (v : World) × (start elapse (platform s) p t w ≡ some v)
      × (is_running t v ≡ true)
      × ((v.threads t).joinable ≡ true)
      × (priority t v ≡ p)
      × ((start_windows s t (prepare_start p t (reaped t w))).1 ≡ level_of s p)
      × (start elapse (platform s) q t v ≡ some v)
unfolding start_windows apply_priority prepare_start set_thread_running priority
start_windows_lem elapse s p q t w idle ended set accepted =
    let v = platform s t (prepare_start p t (reaped t w)) in
    let runs : is_running t v ≡ true = ground arith in
    (
      v,
      start-reaped elapse (platform s) p t w idle ended,
      runs,
      ground arith,
      ground arith,
      ground arith,
      start_running elapse (platform s) q t v runs,
    )

-- If ResumeThread() fails, start() of a thread that is not running, and whose last run is finished or
-- reaped, returns with a warning and leaves the thread running, although nothing will ever run it:
-- an untimed wait() then never returns, as nothing that happens meanwhile finishes the thread.
pub start_unresumed :
    (elapse : World → World) (s : Windows) (p : Priority) (t : ℕ) (w : World)
    → is_running t w ≡ false
    → ((w.threads t).joinable ≡ false) ⊎ ((w.threads t).finished ≡ true)
    → s.handle ≢ nullptr
    → s.resumed ≡ false
    → ((u : World) → ((elapse u).threads t).finished ≡ (u.threads t).finished)
    → (v : World) × (start elapse (platform s) p t w ≡ some v)
      × (is_running t v ≡ true)
      × (w.warnings < v.warnings)
      × (wait elapse false t v ≡ none)
unfolding start_windows apply_priority prepare_start set_thread_running wait
start_unresumed elapse s p t w idle ended set stays never =
    let v = platform s t (prepare_start p t (reaped t w)) in
    (
      v,
      start-reaped elapse (platform s) p t w idle ended,
      ground arith,
      ground arith,
      ground (arith, never v),
    )
