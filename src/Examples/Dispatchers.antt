-- ===== src/Examples/Dispatchers.antt =====
-- The theorems on the dispatcher, the keys and the descriptors at concrete inputs.
use qobject_mimic.Base.{ℕ, [], ◌∷◌, some, true, false, ◌≡◌, refl, All, ◌⊎◌, ◌<◌, ◌-◌, pos, negsuc}
use qobject_mimic.Key.{CallLaterKey}
use qobject_mimic.Event.{timer}
use qobject_mimic.Dispatcher.{expired_events, wait_timeout, new_dispatcher}
use qobject_mimic.Dispatcher.Expiry.{expiry_lem, timer_pair}
use qobject_mimic.Dispatcher.Invariant.{
  IsValid, perform_all, perform_all-IsValid, new_dispatcher-IsValid, posts, registers, takes,
  expires,
}
use qobject_mimic.Dispatcher.Wait.{WaitsAtMost, wait_timeout_not_late}
use qobject_mimic.Dispatcher.Waiting.{
  Waiter, WaitReach, enters, goes_on, falls_asleep, asleep, never_sleeps_on_work,
}
use qobject_mimic.Linux.{EventSource}
use qobject_mimic.Linux.Wait.{
  LinuxDispatcher, wait_for_events, unregister_and_wake, ready, timed_out, is_called,
  wait_for_events_lem,
}
use qobject_mimic.Linux.Wakeup.{Wake, Reach, here, next, announce, block, polling, no_lost_wakeup}
use qobject_mimic.Examples.Sample.{idle_dispatcher, object_timer, other_timer}

expiry_lem_example :
    expired_events 300 (object_timer ∷ other_timer ∷ []) ≡ timer_pair object_timer ∷ []
expiry_lem_example = (expiry_lem 300 (object_timer ∷ other_timer ∷ [])).0

perform_all-IsValid_example : IsValid (
    perform_all
      (registers 0 7 (pos 100) 5 ∷ posts 5 (some (timer 7)) ∷ expires 300 ∷ takes 5 ∷ [])
      new_dispatcher)
perform_all-IsValid_example =
    perform_all-IsValid
      (registers 0 7 (pos 100) 5 ∷ posts 5 (some (timer 7)) ∷ expires 300 ∷ takes 5 ∷ [])
      new_dispatcher new_dispatcher-IsValid

wait_timeout_not_late_example :
    All
      (λ u. WaitsAtMost (wait_timeout 100 (object_timer ∷ other_timer ∷ [])) (u.next_fire - 100))
      (object_timer ∷ other_timer ∷ [])
wait_timeout_not_late_example = wait_timeout_not_late 100 object_timer (other_timer ∷ [])

abbrev key_to : ℕ → CallLaterKey
key_to spare = record {
  context = 5;
  type_hash = 77;
  target_size = 2;
  target_bytes = 1 ∷ 2 ∷ spare ∷ [];
}

-- Work is announced just before the loop blocks.
abbrev blocked : Wake
blocked = record {
  phase = polling;
  pending = false;
  counter = 0;
  unseen = true;
  starting = 1;
  writing = 0;
}

blocked-Reach : Reach blocked
blocked-Reach = next (next here announce) (block refl)

no_lost_wakeup_example : (0 < 0) ⊎ ((0 < 1) ⊎ (0 < 0))
no_lost_wakeup_example = no_lost_wakeup blocked blocked-Reach refl refl

-- A loop without work that has gone to sleep.
abbrev sleeper : Waiter
sleeper = record { phase = asleep; state = idle_dispatcher; notifying = 0 }

sleeper-WaitReach : WaitReach true idle_dispatcher sleeper
sleeper-WaitReach = goes_on enters (falls_asleep refl refl)

never_sleeps_on_work_example : (true ≡ true) × (false ≡ false) × (false ≡ false) × (false ≡ false)
never_sleeps_on_work_example =
    never_sleeps_on_work true idle_dispatcher sleeper sleeper-WaitReach refl refl

abbrev polled_source : EventSource
polled_source = record { fd = 4; events = 1; callback = 6 }

abbrev polling_loop : LinuxDispatcher
polling_loop = record {
  base = idle_dispatcher;
  wake_fd = pos 3;
  wake_pending = false;
  counter = 0;
  sources = polled_source ∷ [];
  complaints = 0;
}

-- While poll() blocks, another thread unregisters the descriptor 4.
wait_for_events_lem_example :
    let calls =
      (wait_for_events
        (λ d. d)
        (λ d. (unregister_and_wake true 4 d).0)
        (λ d call. d)
        (ready 1 (1 ∷ []))
        polling_loop).1 in
    (is_called calls polled_source 1 ≡ true)
    × ((wait_for_events (λ d. d) (λ d. d) (λ d call. d) (ready 1 (1 ∷ [])) polling_loop).1 ≡ calls)
    × ((unregister_and_wake true 4 polling_loop).1 ≡ true)
wait_for_events_lem_example =
    let all =
      wait_for_events_lem (λ d. d) (λ d. (unregister_and_wake true 4 d).0) (λ d. d) (λ d call. d)
        polling_loop (record polling_loop { wake_fd = negsuc 0 }) [] [] polled_source [] [] 1 1
        timed_out refl refl refl refl refl in
    (all.0, all.1, all.2)
