-- ===== src/Examples/Timers.antt =====
-- The theorems on startTimer(), killTimer() and Timer at concrete inputs.
use qobject_mimic.Base.{[], ◌∷◌, none, some, false, ◌≡◌, refl, arith, pos}
use qobject_mimic.Base.{if◌then◌else◌, ◌==◌}
use qobject_mimic.World.{World, object_thread, object_dispatcher, data_thread, data_dispatcher}
use qobject_mimic.Timer.{timer_fields}
use qobject_mimic.Timer.States.{
  IsConsistent, HasState, perform_all, perform_all-IsConsistent, starts_with, stops,
  sets_single_shot,
}
use qobject_mimic.Object.Lifetime.{construct}
use qobject_mimic.Object.Affinity.{thread_data_of}
use qobject_mimic.SingleShot.{single_shot}
use qobject_mimic.SingleShot.Fires.{single_shot_lem, fresh_object}
use qobject_mimic.Examples.Sample.{sample, sample_code, plain_object, shot_fields}

perform_all-IsConsistent_example : HasState IsConsistent (
    timer_fields 6
      (perform_all 6 (starts_with 1 (pos 30) ∷ stops 2 ∷ sets_single_shot false ∷ []) sample))
unfolding timer_fields
perform_all-IsConsistent_example =
    perform_all-IsConsistent 6 (starts_with 1 (pos 30) ∷ stops 2 ∷ sets_single_shot false ∷ [])
      shot_fields sample refl refl

-- The world when the timer of a helper at 8 fires.
abbrev firing : World
firing = record sample { heap = λ p. if p == 8 then some plain_object else none }

single_shot_lem_example :
    let w' = (single_shot sample_code 1 8 (pos 20) 3 sample).0 in
    w'.heap 8 ≡ some (fresh_object sample)
unfolding object_thread object_dispatcher data_thread data_dispatcher construct thread_data_of
single_shot_lem_example =
    (single_shot_lem sample_code 1 8 20 3 4 plain_object sample firing (ground arith) refl
      (ground arith) (ground arith) (ground arith) refl refl (ground arith)).0
