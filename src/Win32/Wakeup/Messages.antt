-- ===== src/Win32/Wakeup/Messages.antt =====
-- The wakeup messages in the queue of a thread on Windows, and wakeWaiter() and
-- processPlatformEvents() of src/EventDispatcherWin32.cpp as the steps that they are made of.
use qobject_mimic.Base.{
  ℕ, ◌+◌, ◌≤◌, suc, List, [], ◌∷◌, ◌++◌, Bool, true, false, is_null, ◌≡◌, refl, arith, keep_if,
  length, Bool-cases, inl, inr, not,
}
use qobject_mimic.Win32.{Win32, Message, is_own, wake_waiter_win32, pump_messages}
use qobject_mimic.Win32.Wakeup.{
  Pump, PumpStep, PumpReach, quiet, pumping, taken, announce, exchange_set, exchange_seen, post,
  post_fails, look, block, time_out, wake, pump, peek, clear, call_out, pump_on, pass_over, swallow,
  here, next,
}

-- At most one wakeup message is in the queue or about to be, and none without the flag or past the
-- PeekMessage() that took it.
pub record IsBounded (s : Pump) : Type 0 where
  pub unset : s.pending ≡ false → s.messages + s.posting ≡ 0
  pub most : s.messages + s.posting ≤ 1
  pub took : s.phase ≡ taken → (s.pending ≡ true) × (s.messages + s.posting ≡ 0)

module _ {nested failing : Bool} where
  PumpStep-IsBounded : {s t : Pump} → PumpStep nested failing s t → IsBounded s → IsBounded t
  PumpStep-IsBounded announce v = ground arith
  PumpStep-IsBounded (exchange_set n e p) v = ground arith
  PumpStep-IsBounded (exchange_seen n e p) v = ground arith
  PumpStep-IsBounded (post n e) v = ground arith
  PumpStep-IsBounded (post_fails n f e) v = ground arith
  PumpStep-IsBounded (look e) v = ground arith
  PumpStep-IsBounded (block e) v = ground arith
  PumpStep-IsBounded (time_out e) v = ground arith
  PumpStep-IsBounded (wake e c) v = ground arith
  PumpStep-IsBounded (pump e) v = ground arith
  PumpStep-IsBounded (peek n e m) v = ground arith
  PumpStep-IsBounded (clear e) v = ground arith
  PumpStep-IsBounded (call_out e) v = ground arith
  PumpStep-IsBounded (pump_on e) v = ground arith
  PumpStep-IsBounded (pass_over e) v = ground arith
  PumpStep-IsBounded (swallow n f e m) v = ground arith

  pub PumpReach-IsBounded : {s t : Pump} → PumpReach nested failing s t → IsBounded s → IsBounded t
  PumpReach-IsBounded here v = v
  PumpReach-IsBounded (next r st) v = PumpStep-IsBounded st (PumpReach-IsBounded r v)

  -- A thread that announces work and runs wakeWaiter() to its end.
  seen-PumpReach :
      (s : Pump)
      → PumpReach nested failing quiet s
      → s.pending ≡ true
      → PumpReach nested failing quiet (record s { unseen = true })
  seen-PumpReach s r p = next (next r announce) (exchange_seen s.starting refl p)

  posted-PumpReach :
      (s : Pump)
      → PumpReach nested failing quiet s
      → s.pending ≡ false
      → PumpReach nested failing quiet
          (record s { unseen = true; pending = true; messages = s.messages + 1 })
  posted-PumpReach s r p =
      next (next (next r announce) (exchange_set s.starting refl p)) (post s.posting refl)

  failed-PumpReach :
      (s : Pump)
      → PumpReach nested failing quiet s
      → failing ≡ true
      → s.pending ≡ false
      → PumpReach nested failing quiet (record s { unseen = true; pending = false })
  failed-PumpReach s r f p =
      next (next (next r announce) (exchange_set s.starting refl p)) (post_fails s.posting f refl)

  -- The loop that takes a wakeup message.
  pumped-PumpReach :
      (s : Pump) (n : ℕ)
      → PumpReach nested failing quiet s
      → s.phase ≡ pumping
      → s.messages ≡ n + 1
      → PumpReach nested failing quiet (record s { phase = pumping; pending = false; messages = n })
  pumped-PumpReach s n r p e = next (next r (peek n p e)) (clear refl)

module _ (wm_user wm_quit : ℕ) where
  abbrev pub own_messages : Win32 → List Message
  own_messages d = keep_if (is_own wm_user wm_quit d.window) d.messages

  -- The members of the dispatcher and the queue as a state of the protocol has them.
  pub record Shows (d : Win32) (s : Pump) : Type 0 where
    pub flag : d.wake_pending ≡ s.pending
    pub count : length (own_messages d) ≡ s.messages

  own_posted :
      (window : ℕ) (ms : List Message)
      → length (
          keep_if
            (is_own wm_user wm_quit window)
            (ms ++ record { window = window; message = wm_user + 1 } ∷ []))
        ≡ length (keep_if (is_own wm_user wm_quit window) ms) + 1
  own_posted window [] = ground arith
  own_posted window (m ∷ ms) = ground (arith, own_posted window ms)

  woken-Shows :
      (d : Win32) (s : Pump)
      → Shows d s
      → is_null d.window ≡ false
      → s.pending ≡ false
      → Shows
          (wake_waiter_win32 wm_user wm_quit true d)
          (record s { unseen = true; pending = true; messages = s.messages + 1 })
  unfolding wake_waiter_win32
  woken-Shows d s shown set p = ground (arith, own_posted d.window d.messages)

  seen-Shows :
      (posted : Bool) (d : Win32) (s : Pump)
      → Shows d s
      → s.pending ≡ true
      → Shows (wake_waiter_win32 wm_user wm_quit posted d) (record s { unseen = true })
  unfolding wake_waiter_win32
  seen-Shows posted d s shown p = ground arith

  failed-Shows :
      (d : Win32) (s : Pump)
      → Shows d s
      → is_null d.window ≡ false
      → s.pending ≡ false
      → Shows
          (wake_waiter_win32 wm_user wm_quit false d)
          (record s { unseen = true; pending = false })
  unfolding wake_waiter_win32
  failed-Shows d s shown set p = ground arith

  wake_refines :
      (nested posted : Bool) (d : Win32) (s : Pump)
      → PumpReach nested (not posted) quiet s
      → Shows d s
      → is_null d.window ≡ false
      → (t : Pump) × PumpReach nested (not posted) quiet t
        × (Shows (wake_waiter_win32 wm_user wm_quit posted d) t
            × (t.unseen ≡ true)
            × (t.phase ≡ s.phase))
  wake_refines nested true d s r shown set = elim (Bool-cases s.pending) [
    | inl p ↦ (
      record s { unseen = true },
      seen-PumpReach s r p,
      (seen-Shows true d s shown p, refl, refl),
    )
    | inr p ↦ (
      record s { unseen = true; pending = true; messages = s.messages + 1 },
      posted-PumpReach s r p,
      (woken-Shows d s shown set p, refl, refl),
    )
  ]
  wake_refines nested false d s r shown set = elim (Bool-cases s.pending) [
    | inl p ↦ (
      record s { unseen = true },
      seen-PumpReach s r p,
      (seen-Shows false d s shown p, refl, refl),
    )
    | inr p ↦ (
      record s { unseen = true; pending = false },
      failed-PumpReach s r refl p,
      (failed-Shows d s shown set p, refl, refl),
    )
  ]

  -- Where `s` is reachable, whether or not slots run message loops and PostMessage() can fail, the
  -- members `d` that show it have at most one wakeup message in the queue. A thread that announces
  -- work and runs wakeWaiter() to its end, with its window and whatever PostMessage() gives, takes
  -- `d` to members that show a reachable state where work is announced and the loop has not moved.
  -- Where the loop of processPlatformEvents() finds its own message first in the queue, it goes on
  -- with members that show a reachable state, without that message and without mWakePending.
  pub messages_refine :
      (nested posted : Bool) (dispatch : Message → Win32 → Win32) (fuel : ℕ) (d e : Win32)
      (s u : Pump) (m : Message) (ms : List Message)
      → PumpReach nested (not posted) quiet s
      → Shows d s
      → is_null d.window ≡ false
      → PumpReach nested (not posted) quiet u
      → Shows e u
      → u.phase ≡ pumping
      → e.messages ≡ m ∷ ms
      → is_own wm_user wm_quit e.window m ≡ true
      → let d' = wake_waiter_win32 wm_user wm_quit posted d in
        let e' = record e { messages = ms; wake_pending = false } in
        (length (own_messages d) ≤ 1)
        × ((t : Pump) × PumpReach nested (not posted) quiet t
            × (Shows d' t × (t.unseen ≡ true) × (t.phase ≡ s.phase)))
        × (pump_messages wm_user wm_quit dispatch posted (suc fuel) e
            ≡ pump_messages wm_user wm_quit dispatch posted fuel e')
        × ((t : Pump) × PumpReach nested (not posted) quiet t × (Shows e' t × (t.phase ≡ pumping)))
  unfolding pump_messages
  messages_refine nested posted dispatch fuel d e s u m ms r shown set q seen at_pump first own =
      let bound : IsBounded s = PumpReach-IsBounded r (ground arith) in
      let e' = record e { messages = ms; wake_pending = false } in
      let n = length (own_messages e') in
      let one : length (own_messages e) ≡ n + 1 = ground arith in
      (
        ground arith,
        wake_refines nested posted d s r shown set,
        ground arith,
        (
          record u { phase = pumping; pending = false; messages = n },
          pumped-PumpReach u n q at_pump (ground arith),
          (ground arith, refl),
        ),
      )
