-- ===== src/Thread/Windows.antt =====
-- src/ThreadWin.cpp: startPlatformSpecific() and applyPriority(), and setPriority() of
-- src/Thread.cpp on Windows, where `joinable` says that mHandle is not null.
pub mod Handles
pub mod Start
use qobject_mimic.Base.{ℕ, ◌+◌, Bool, true, false, ◌||◌, not, if◌then◌else◌, is_null, update, ℤ}
use qobject_mimic.World.{
  World, Thread, Priority, idle, lowest, low, normal, high, highest, time_critical, inherit,
  set_thread_running, warn,
}
use qobject_mimic.Thread.Priorities.{is_inherit}

-- The constants THREAD_PRIORITY_* of the system's headers.
pub record Levels : Type 0 where
  pub level_idle : ℤ
  pub level_lowest : ℤ
  pub level_below_normal : ℤ
  pub level_normal : ℤ
  pub level_above_normal : ℤ
  pub level_highest : ℤ
  pub level_time_critical : ℤ

-- What the system answers: the handle of _beginthreadex(), or 0; the level of the calling thread;
-- and whether SetThreadPriority() and ResumeThread() succeed.
pub record Windows : Type 0 where
  pub levels : Levels
  pub handle : ℕ
  pub own_level : ℤ
  pub level_accepted : Bool
  pub resumed : Bool

-- The switch of applyPriority().
unfoldable pub level_of : Windows → Priority → ℤ
level_of s idle = s.levels.level_idle
level_of s lowest = s.levels.level_lowest
level_of s low = s.levels.level_below_normal
level_of s normal = s.levels.level_normal
level_of s high = s.levels.level_above_normal
level_of s highest = s.levels.level_highest
level_of s time_critical = s.levels.level_time_critical
level_of s inherit = s.own_level

-- applyPriority(), with the level that the thread then has, if it was `before`.
unfoldable pub apply_priority : Windows → Priority → ℤ → World → World × ℤ
unfolding level_of
apply_priority s p before w = if s.level_accepted then (w, level_of s p) else (warn w, before)

-- startPlatformSpecific(), with the level at which the new thread is resumed.
unfoldable pub start_windows : Windows → ℕ → World → World × ℤ
unfolding apply_priority
start_windows s t w =
    let f = w.threads t in
    if is_null s.handle
    then (set_thread_running f.thread_data false (warn w), s.own_level)
    else let w1 = record w { threads = update w.threads t (record f { joinable = true }) } in
      let (w2, level) = apply_priority s f.priority s.levels.level_normal w1 in
      (if s.resumed then w2 else warn w2, level)

-- setPriority() on Windows, of a thread at the level `before`.
unfoldable pub set_priority_windows : Windows → Priority → ℕ → ℤ → World → World × ℤ
unfolding apply_priority
set_priority_windows s p t before w =
    let f = w.threads t in
    if is_inherit p
    then (warn w, before)
    else if not (w.datas f.thread_data).running || not f.joinable
    then (warn w, before)
    else apply_priority s p before
        (record w { threads = update w.threads t (record f { priority = p }) })
