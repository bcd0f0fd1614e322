-- ===== src/Examples/Platforms.antt =====
-- The theorems on the classes of dispatchers at concrete inputs.
use qobject_mimic.Base.{ℕ, ◌≤◌, [], some, true, false, ◌≡◌, refl, arith, pos}
use qobject_mimic.Event.{deferred_delete}
use qobject_mimic.Linux.Wait.{LinuxDispatcher, wake_waiter_linux, drain_wake_fd}
use qobject_mimic.Linux.Wakeup.{
  Wake, Reach, idle, here, next, announce, exchange_set, write, block, wake, readable, returned,
}
use qobject_mimic.Linux.Wakeup.Counter.{Shows, wakeup_refines}
use qobject_mimic.Win32.{Win32}
use qobject_mimic.Platform.{event_dispatcher}
use qobject_mimic.Platform.Classes.{
  linux_class, IsWokenLinux, linux_work_wakes, win32_class, IsWokenWin32, win32_work_wakes,
}
use qobject_mimic.Examples.Sample.{busy_dispatcher}

-- The members of an idle dispatcher, and of one whose loop has found its eventfd readable.
abbrev at_rest : LinuxDispatcher
at_rest = record {
  base = busy_dispatcher;
  wake_fd = pos 9;
  wake_pending = false;
  counter = 0;
  sources = [];
  complaints = 0;
}

abbrev rung : LinuxDispatcher
rung = record at_rest { wake_pending = true; counter = 1 }

abbrev found : Wake
found = record idle { phase = readable; pending = true; counter = 1; unseen = true }

found-reached : Reach found
found-reached =
    next
      (next (next (next (next here announce) (exchange_set 0 refl refl)) (write 0 refl))
        (block refl))
      (wake refl (omega arith))

wakeup_refines_example :
    (0 ≤ 1)
    × ((t : Wake) × Reach t
        × (Shows (wake_waiter_linux true at_rest) t
            × (t.unseen ≡ true)
            × (t.phase ≡ idle.phase)
            × (t.starting ≡ 0)
            × (t.writing ≡ 0)))
    × (rung.counter ≡ 1)
    × ((t : Wake) × Reach t × (Shows (drain_wake_fd rung) t × (t.phase ≡ returned)))
wakeup_refines_example =
    wakeup_refines at_rest rung idle found here (ground arith) refl found-reached (ground arith)
      refl

-- A program that is its Linux dispatcher only.
abbrev alone : ℕ → ℕ
alone n = n

linux_work_wakes_example :
    let a = event_dispatcher (linux_class alone (λ r e v. v) (λ e v. v) (λ ms v. v) true) in
    IsWokenLinux alone (3, at_rest) (a.post_event 5 (some deferred_delete) (3, at_rest))
linux_work_wakes_example =
    (linux_work_wakes alone (λ r e v. v) (λ e v. v) (λ ms v. v) 7 5 100 5 deferred_delete
      (3, at_rest) refl (ground arith) (ground arith) refl).0

abbrev on_windows : Win32
on_windows = record {
  base = busy_dispatcher;
  window = 9;
  wake_pending = false;
  messages = [];
  handled = [];
}

win32_work_wakes_example :
    let a =
      event_dispatcher
        (win32_class alone (λ r e v. v) (λ e v. v) (λ ms v. v) (λ v. v) 1024 18 true) in
    IsWokenWin32 alone 1024 (3, on_windows) (a.post_event 5 (some deferred_delete) (3, on_windows))
win32_work_wakes_example =
    (win32_work_wakes alone (λ r e v. v) (λ e v. v) (λ ms v. v) (λ v. v) 1024 18 7 5 100 5
      deferred_delete (3, on_windows) (ground arith) (ground arith) (ground arith) refl).0
