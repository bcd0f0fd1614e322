-- ===== src/Platform/Classes.antt =====
-- EventDispatcherDefault, EventDispatcherLinux and EventDispatcherWin32 as the classes that they are:
-- the hooks of each, in a program whose other state is `R`.
use qobject_mimic.Base.{
  ℕ, ◌+◌, Option, some, Bool, true, pos, if◌then◌else◌, nullptr, ◌≡◌, ◌≢◌, refl, arith, ◌++◌, ◌∷◌,
  [],
}
use qobject_mimic.Event.{Event}
use qobject_mimic.Dispatcher.{wake_waiter, has_timer}
use qobject_mimic.Loop.{Host}
use qobject_mimic.Linux.Wait.{LinuxDispatcher, has_fd, wake_waiter_linux}
use qobject_mimic.Win32.{Win32, wake_waiter_win32}
use qobject_mimic.Platform.{Platform, event_dispatcher}

-- EventDispatcherDefault, over a host with its wait: processPlatformEvents() does nothing.
unfoldable pub default_class : {W : Type 0} → Host W → Platform W
default_class h = record {
  host = record h { platform = λ w. w };
  wake = λ w. h.set_dispatcher (wake_waiter (h.dispatcher w)) w;
  dispatcher-wake = λ w. h.dispatcher-set_dispatcher (wake_waiter (h.dispatcher w)) w;
}

-- The override of wakeWaiter() does what that of the base does, and more.
pub linux-wake :
    (written : Bool) (d : LinuxDispatcher) → (wake_waiter_linux written d).base ≡ wake_waiter d.base
unfolding wake_waiter_linux
linux-wake written d = ground arith

pub win32-wake :
    (wm_user wm_quit : ℕ) (posted : Bool) (d : Win32)
    → (wake_waiter_win32 wm_user wm_quit posted d).base ≡ wake_waiter d.base
unfolding wake_waiter_win32
win32-wake wm_user wm_quit posted d = ground arith

-- `wait` and `platform` are the other two hooks, as Linux.Wait and Win32 have them, with what other
-- threads do meanwhile.
module _ {R : Type 0} (now : R → ℕ) where
  module _ (deliver : ℕ → Event → R × LinuxDispatcher → R × LinuxDispatcher)
      (free : Option Event → R × LinuxDispatcher → R × LinuxDispatcher)
      (wait : Option ℕ → R × LinuxDispatcher → R × LinuxDispatcher) (written : Bool) where
    unfoldable pub linux_class : Platform (R × LinuxDispatcher)
    linux_class = record {
      host = record {
        dispatcher = λ v. v.1.base;
        set_dispatcher = λ d v. (v.0, record v.1 { base = d });
        now = λ v. now v.0;
        wait = wait;
        platform = λ v. v;
        deliver = deliver;
        free = free;
        dispatcher-set_dispatcher = λ d v. refl;
      };
      wake = λ v. (v.0, wake_waiter_linux written v.1);
      dispatcher-wake = λ v. linux-wake written v.1;
    }

  module _ (deliver : ℕ → Event → R × Win32 → R × Win32)
      (free : Option Event → R × Win32 → R × Win32) (wait : Option ℕ → R × Win32 → R × Win32)
      (platform : R × Win32 → R × Win32) (wm_user wm_quit : ℕ) (posted : Bool) where
    unfoldable pub win32_class : Platform (R × Win32)
    win32_class = record {
      host = record {
        dispatcher = λ v. v.1.base;
        set_dispatcher = λ d v. (v.0, record v.1 { base = d });
        now = λ v. now v.0;
        wait = wait;
        platform = platform;
        deliver = deliver;
        free = free;
        dispatcher-set_dispatcher = λ d v. refl;
      };
      wake = λ v. (v.0, wake_waiter_win32 wm_user wm_quit posted v.1);
      dispatcher-wake = λ v. win32-wake wm_user wm_quit posted v.1;
    }

  -- Between the two states the waiter is woken once: a wakeup is pending, announced by one write if
  -- none was pending before.
  abbrev pub IsWokenLinux : R × LinuxDispatcher → R × LinuxDispatcher → Type 0
  IsWokenLinux v v' =
      (v'.1.wake_pending ≡ true)
      × (v'.1.counter ≡ (if v.1.wake_pending then v.1.counter else v.1.counter + 1))
      × (v'.1.base.notified ≡ v.1.base.notified + 1)

  abbrev pub IsWokenWin32 : ℕ → R × Win32 → R × Win32 → Type 0
  IsWokenWin32 wm_user v v' =
      (v'.1.wake_pending ≡ true)
      × (v'.1.messages ≡ (
          if v.1.wake_pending
          then v.1.messages
          else v.1.messages ++ record { window = v.1.window; message = wm_user + 1 } ∷ []))
      × (v'.1.base.notified ≡ v.1.base.notified + 1)

  -- In an EventDispatcherLinux with its eventfd, whose write() takes the bytes, each operation that
  -- makes work for the loop wakes it: postEvent() for an event and a receiver, registerTimer() of an
  -- interval that is not negative for an object, unregisterTimer() of a timer that is there, wakeUp()
  -- and interrupt() end with a wakeup pending, for which the eventfd is written to once if none was
  -- pending before and not at all if one was, and with one notification of the base.
  pub linux_work_wakes :
      (deliver : ℕ → Event → R × LinuxDispatcher → R × LinuxDispatcher)
      (free : Option Event → R × LinuxDispatcher → R × LinuxDispatcher)
      (wait : Option ℕ → R × LinuxDispatcher → R × LinuxDispatcher) (i o n r : ℕ) (e : Event)
      (v : R × LinuxDispatcher)
      → has_fd v.1 ≡ true
      → o ≢ nullptr
      → r ≢ nullptr
      → has_timer i v.1.base.timers ≡ true
      → let a = event_dispatcher (linux_class deliver free wait true) in
        IsWokenLinux v (a.post_event r (some e) v)
        × IsWokenLinux v (a.register_timer i (pos n) o v)
        × IsWokenLinux v (a.unregister_timer i v).0
        × IsWokenLinux v (a.wake_up v)
        × IsWokenLinux v (a.interrupt v)
  unfolding event_dispatcher linux_class wake_waiter_linux wake_waiter
  linux_work_wakes deliver free wait i o n r e v fd real real' found = ground arith

  -- In an EventDispatcherWin32 with its window, whose PostMessage() succeeds, each operation that makes
  -- work for the loop wakes it: postEvent() for an event and a receiver, registerTimer() of an
  -- interval that is not negative for an object, unregisterTimer() of a timer that is there, wakeUp()
  -- and interrupt() end with a wakeup pending, for which one message stands last in the thread's
  -- queue if none was pending before, and with one notification of the base.
  pub win32_work_wakes :
      (deliver : ℕ → Event → R × Win32 → R × Win32) (free : Option Event → R × Win32 → R × Win32)
      (wait : Option ℕ → R × Win32 → R × Win32) (platform : R × Win32 → R × Win32)
      (wm_user wm_quit i o n r : ℕ) (e : Event) (v : R × Win32)
      → v.1.window ≢ nullptr
      → o ≢ nullptr
      → r ≢ nullptr
      → has_timer i v.1.base.timers ≡ true
      → let a = event_dispatcher (win32_class deliver free wait platform wm_user wm_quit true) in
        IsWokenWin32 wm_user v (a.post_event r (some e) v)
        × IsWokenWin32 wm_user v (a.register_timer i (pos n) o v)
        × IsWokenWin32 wm_user v (a.unregister_timer i v).0
        × IsWokenWin32 wm_user v (a.wake_up v)
        × IsWokenWin32 wm_user v (a.interrupt v)
  unfolding event_dispatcher win32_class wake_waiter_win32 wake_waiter
  win32_work_wakes deliver free wait platform wm_user wm_quit i o n r e v set real real' found =
      ground arith
