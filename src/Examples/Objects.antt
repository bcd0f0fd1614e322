-- ===== src/Examples/Objects.antt =====
-- The theorems on objects at concrete inputs.
use qobject_mimic.Base.{[], ◌∷◌, none, some, false, ◌≡◌, refl, arith, any, ◌==◌, if◌then◌else◌}
use qobject_mimic.Key.{CallLaterKey, key_eq, memcmp_eq}
use qobject_mimic.Event.{meta_call, rearm, TimerRegistration}
use qobject_mimic.Dispatcher.{registration}
use qobject_mimic.Dispatcher.Queue.{targets}
use qobject_mimic.World.{World, data_thread, data_dispatcher, object_thread, object_dispatcher}
use qobject_mimic.Object.CallLater.{schedule_call_later, find_pending}
use qobject_mimic.Object.CallLater.Dedup.{schedule_twice}
use qobject_mimic.Object.Affinity.{move_to_thread}
use qobject_mimic.Object.Affinity.Moves.{move_to_thread_lem}
use qobject_mimic.Object.Lifetime.{
  destroy_object, wind_down, check_thread, take_incoming, take_callbacks, run_callbacks,
  disconnect_all,
}
use qobject_mimic.Object.Lifetime.Destroyed.{destroy_object_lem}
use qobject_mimic.Virtual.DeleteLater.{delete_later_all, delete_later_once}
use qobject_mimic.Examples.Sample.{
  sample, sample_code, plain_object, call_pair, delete_pair, object_timer, other_timer,
}

abbrev sample_key : CallLaterKey
sample_key = record { context = 5; type_hash = 77; target_size = 1; target_bytes = 8 ∷ [] }

abbrev after_calls : World
after_calls = record sample { nodes = λ n. if n == 101 then some 4 else none }

schedule_twice_example :
    (schedule_call_later sample_code 2 5 sample_key 4
      (schedule_call_later sample_code 2 5 sample_key 3 sample)).pending
    ≡ (schedule_call_later sample_code 2 5 sample_key 3 sample).pending
unfolding key_eq memcmp_eq find_pending object_dispatcher data_dispatcher
schedule_twice_example =
    (schedule_twice sample_code 2 5 3 sample_key sample plain_object (ground arith) refl refl refl
      sample_key 4 after_calls (ground arith) refl refl).0

move_to_thread_lem_example :
    let w' = (move_to_thread sample_code 1 5 2 sample).0 in
    (object_thread plain_object w' ≡ 2)
    × ((w'.dispatchers 21).timers ≡ other_timer ∷ [])
    × ((w'.dispatchers 21).event_queue ≡ call_pair ∷ delete_pair ∷ [])
    × ((w'.dispatchers 22).event_queue
        ≡ record {
          receiver = 5;
          event = some (meta_call (rearm 5 (registration object_timer ∷ [])));
        }
          ∷ [])
unfolding object_thread data_thread object_dispatcher data_dispatcher
move_to_thread_lem_example =
    move_to_thread_lem sample_code 1 5 2 12 21 22 plain_object sample (ground arith) refl
      (ground arith) refl refl (ground arith) (ground arith) refl (ground arith) refl refl
      (ground arith) (ground arith)

abbrev carried_over : TimerRegistration
carried_over = record { timer_id = 3; interval_ms = 40 }

destroy_object_lem_example :
    let v = wind_down sample_code 1 5 plain_object sample in
    let w' = destroy_object sample_code 1 5 sample in
    (w'.heap 5 ≡ none)
    × (any (λ entry. entry.0.context == 5) w'.pending ≡ false)
    × (any (targets 5) (w'.dispatchers (object_dispatcher plain_object v)).event_queue ≡ false)
unfolding wind_down check_thread take_incoming take_callbacks run_callbacks disconnect_all
    object_dispatcher data_dispatcher
destroy_object_lem_example =
    let all =
      destroy_object_lem sample_code 1 5 6 plain_object sample (ground arith) (ground arith) refl
        (ground arith) in
    (all.0, all.1, all.2)

delete_later_once_example :
    ((delete_later_all sample_code (2 ∷ 1 ∷ []) 5 sample).dispatchers 21).event_queue
    ≡ call_pair ∷ delete_pair ∷ delete_pair ∷ []
unfolding object_dispatcher data_dispatcher
delete_later_once_example =
    (delete_later_once sample_code 2 (1 ∷ []) 5 plain_object sample (ground arith) refl refl
      (ground arith)).0
