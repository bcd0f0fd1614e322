-- ===== src/Examples/Windows.antt =====
-- The theorems on the Windows code at concrete inputs.
use qobject_mimic.Base.{
  ◌<◌, ◌≤◌, [], ◌∷◌, true, false, ◌≡◌, ◌⊎◌, inl, inr, refl, arith, ◌==◌, if◌then◌else◌, length,
  nullptr, All,
}
use qobject_mimic.Dispatcher.{new_dispatcher}
use qobject_mimic.Thread.Windows.Handles.{
  HandleState, HandleReach, unstarted, leave_wait, no_use_after_close,
}
use qobject_mimic.Thread.Windows.Handles
use qobject_mimic.Win32.{Win32}
use qobject_mimic.Win32.Wakeup.{
  Pump, PumpReach, PumpStep, quiet, waiting, calling, pumping, IsBacked, no_lost_message,
  swallowed_wakeup,
}
use qobject_mimic.Win32.Wakeup.Messages.{own_messages, messages_refine}
use qobject_mimic.Win32.Wakeup

-- A run with the handle 1 ends while a thread waits for it, the thread is started again with the
-- handle 2, and another thread waits for that run.
abbrev ended_one : HandleState
ended_one = record {
  handle = 1;
  waiters = 1;
  inside = 1 ∷ [];
  is_open = λ h. if 1 == h then true else false;
  ended = λ h. if 1 == h then true else if 1 == h then false else false;
}

ended_one-reached : HandleReach unstarted ended_one
ended_one-reached =
    Handles.next
      (Handles.next (Handles.next Handles.here (Handles.starts 1 (ground arith) refl (inl refl)))
        (Handles.enters (ground arith)))
      (Handles.ends 1)

abbrev overlapping : HandleState
overlapping = record {
  handle = 2;
  waiters = 2;
  inside = 2 ∷ 1 ∷ [];
  is_open = λ h. if 2 == h then true else ended_one.is_open h;
  ended = λ h. if 2 == h then false else ended_one.ended h;
}

overlapping-reached : HandleReach unstarted overlapping
overlapping-reached =
    Handles.next (Handles.next ended_one-reached (Handles.starts 2 (ground arith) refl (inr refl)))
      (Handles.enters (ground arith))

no_use_after_close_example :
    ((overlapping.handle ≡ nullptr) ⊎ (overlapping.is_open overlapping.handle ≡ true))
    × All (λ h. overlapping.is_open h ≡ true) overlapping.inside
    × (overlapping.waiters ≡ length overlapping.inside)
no_use_after_close_example = no_use_after_close overlapping overlapping-reached

abbrev sample_win32 : Win32
sample_win32 = record {
  base = new_dispatcher;
  window = 7;
  wake_pending = true;
  messages =
      record { window = 7; message = 1025 }
      ∷ record { window = 8; message = 512 }
      ∷ record { window = 0; message = 18 }
      ∷ record { window = 8; message = 513 }
      ∷ [];
  handled = [];
}

abbrev blocked : Pump
blocked = record quiet { phase = waiting; pending = true; unseen = true; posting = 1 }

blocked-reached : PumpReach false false quiet blocked
blocked-reached =
    Wakeup.next
      (Wakeup.next (Wakeup.next (Wakeup.next Wakeup.here (Wakeup.look refl)) Wakeup.announce)
        (Wakeup.exchange_set 0 refl refl))
      (Wakeup.block refl)

no_lost_message_example :
    IsBacked blocked × ((0 < blocked.messages) ⊎ ((0 < blocked.starting) ⊎ (0 < blocked.posting)))
no_lost_message_example =
    no_lost_message false blocked blocked blocked-reached blocked-reached refl refl

abbrev in_slot : Pump
in_slot = record quiet { phase = calling; pending = true; messages = 1 }

abbrev announced_later : Pump
announced_later = record in_slot { messages = 0; unseen = true; starting = 1 }

swallowed_wakeup_example :
    PumpStep true false in_slot (record in_slot { messages = 0 })
    × (announced_later.messages ≡ 0)
    × (announced_later.pending ≡ true)
    × (announced_later.posting ≡ 0)
swallowed_wakeup_example =
    swallowed_wakeup false in_slot announced_later refl refl refl refl
      (Wakeup.next Wakeup.here Wakeup.announce)

-- The members before any work, and a state where the loop is about to take its message.
abbrev fresh_win32 : Win32
fresh_win32 = record sample_win32 { wake_pending = false; messages = [] }

abbrev at_pump : Pump
at_pump = record quiet { phase = pumping; pending = true; messages = 1 }

at_pump-reached : PumpReach false false quiet at_pump
at_pump-reached =
    Wakeup.next
      (Wakeup.next
        (Wakeup.next
          (Wakeup.next (Wakeup.next Wakeup.here Wakeup.announce) (Wakeup.exchange_set 0 refl refl))
          (Wakeup.post 0 refl))
        (Wakeup.look refl))
      (Wakeup.pump refl)

messages_refine_example : length (own_messages 1024 18 fresh_win32) ≤ 1
messages_refine_example =
    (messages_refine 1024 18 false true (λ m u. u) 4 fresh_win32 sample_win32 quiet at_pump
      (record { window = 7; message = 1025 })
      (record { window = 8; message = 512 }
        ∷ record { window = 0; message = 18 }
        ∷ record { window = 8; message = 513 }
        ∷ [])
      Wakeup.here (ground arith) refl at_pump-reached (ground arith) refl refl refl).0
