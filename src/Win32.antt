-- ===== src/Win32.antt =====
-- src/EventDispatcherWin32.cpp: the dispatcher that waits on the message queue of its thread. What
-- the system does is given: the window that CreateWindowEx() makes, whether PostMessage() succeeds,
-- and DispatchMessage() with the window procedures behind it. `wm_user`, `wm_quit` and `infinite` are
-- the constants of its headers.
pub mod Wakeup
pub mod Drain
use qobject_mimic.Base.{
  ℕ, ◌+◌, List, [], ◌∷◌, ◌++◌, Option, none, some, Bool, true, false, ◌&&◌, not, if◌then◌else◌,
  ◌==◌, is_null, nullptr, zero, suc, ℤ, pos, negsuc,
}
use qobject_mimic.Dispatcher.{Dispatcher, new_dispatcher, wake_waiter, interrupt}

-- A MSG: the window that it is for and its number.
pub record Message : Type 0 where
  pub window : ℕ
  pub message : ℕ

-- The members of an EventDispatcherWin32 over those of its base, the message queue of its thread,
-- and the messages given to DispatchMessage().
pub record Win32 : Type 0 where
  pub base : Dispatcher
  pub window : ℕ
  pub wake_pending : Bool
  pub messages : List Message
  pub handled : List Message

-- What waitForEvents() does: the wait of its base, or MsgWaitForMultipleObjectsEx() with a timeout.
pub data Waits : Type 0 where
  on_condition : ℤ → Waits
  on_messages : ℕ → Waits

-- EventDispatcherWin32(), with the window that the system gave, on a thread whose queue is `ms`;
-- and whether it says on stderr that there is none.
unfoldable pub construct_win32 : ℕ → List Message → Win32 × Bool
construct_win32 window ms = (
  record {
    base = new_dispatcher;
    window = window;
    wake_pending = false;
    messages = ms;
    handled = [];
  },
  is_null window,
)

-- ~EventDispatcherWin32(): the state that it leaves to the destructor of the base, and the windows
-- that it destroys.
unfoldable pub destroy_win32 : Win32 → Win32 × List ℕ
destroy_win32 d =
    if is_null d.window then (d, []) else (record d { window = nullptr }, d.window ∷ [])

-- ensureWindowClassRegistered(), with whether RegisterClass() succeeds: the once_flag after it, and
-- whether it says on stderr that there is no class.
unfoldable pub ensure_window_class_registered : Bool → Bool → Bool × Bool
ensure_window_class_registered succeeds once = if once then (true, false) else (true, not succeeds)

-- waitForEvents(), of a timeout that is negative for no deadline.
unfoldable pub wait_for_events : ℕ → ℤ → Win32 → Waits
wait_for_events infinite (negsuc n) d =
    if is_null d.window then on_condition (negsuc n) else on_messages infinite
wait_for_events infinite (pos n) d =
    if is_null d.window then on_condition (pos n) else on_messages n

module _ (wm_user wm_quit : ℕ) where
  abbrev pub wake_up_message : ℕ
  wake_up_message = wm_user + 1

  -- The test of processPlatformEvents() for the dispatcher's own message.
  abbrev pub is_own : ℕ → Message → Bool
  is_own window m = m.message == wake_up_message && m.window == window

  -- wakeWaiter(); `posted` is whether PostMessage() succeeds.
  unfoldable pub wake_waiter_win32 : Bool → Win32 → Win32
  wake_waiter_win32 posted d =
      let woken = record d { base = wake_waiter d.base } in
      if is_null d.window
      then woken
      else if d.wake_pending
      then woken
      else if posted
      then record woken {
        wake_pending = true;
        messages = d.messages ++ record { window = d.window; message = wake_up_message } ∷ [];
      }
      else record woken { wake_pending = false }

  -- interrupt(), with the override of wakeWaiter() that it calls.
  unfoldable pub interrupt_win32 : Bool → Win32 → Win32
  unfolding wake_waiter_win32
  interrupt_win32 posted d =
      wake_waiter_win32 posted (record d { base = record d.base { interrupted = true } })

  -- The loop of processPlatformEvents(). `dispatch` is DispatchMessage(), which runs the window
  -- procedures; `posted` as above.
  module _ (dispatch : Message → Win32 → Win32) (posted : Bool) where
    unfoldable pub pump_messages : ℕ → Win32 → Option Win32
    unfolding interrupt_win32
    pump_messages zero d = none
    pump_messages (suc fuel) d = elim d.messages [
      | [] ↦ some d
      | m ∷ ms ↦
          let rest = record d { messages = ms } in
          elim (is_own d.window m) [
            | true ↦ pump_messages fuel (record rest { wake_pending = false })
            | false ↦ elim (m.message == wm_quit) [
              | true ↦ some (interrupt_win32 posted rest)
              | false ↦
                  pump_messages fuel (dispatch m (record rest { handled = d.handled ++ m ∷ [] }))
            ]
          ]
    ]

    -- processPlatformEvents(), with fuel for the loop: `none` means that it ran out.
    unfoldable pub process_platform_events : ℕ → Win32 → Option Win32
    unfolding pump_messages
    process_platform_events fuel d = if is_null d.window then some d else pump_messages fuel d
