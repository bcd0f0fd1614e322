-- ===== src/Examples/Threads.antt =====
-- The theorems on Thread and CoreApplication at concrete inputs.
use qobject_mimic.Base.{ℕ, ◌≤◌, [], some, true, false, ◌≡◌, inl, refl, arith, pos, negsuc}
use qobject_mimic.World.{World, warn, on_dispatcher}
use qobject_mimic.Thread.{exit, own_dispatcher}
use qobject_mimic.Thread.Priorities.{Posix, success, not_permitted}
use qobject_mimic.Thread.Running.{Body, exec_loop, pass}
use qobject_mimic.Thread.Body.{passes, exec_loop_lem, Ends}
use qobject_mimic.Application.{exec, enter_exec}
use qobject_mimic.Application.Exec.{exec_lem, construct_app_lem}
use qobject_mimic.Application.{construct_app}
use qobject_mimic.Base.{◌≢◌}
use qobject_mimic.Examples.Sample.{busy_dispatcher}
use qobject_mimic.Dispatcher.{interrupt, wake_up, expired_events, reschedule}
use qobject_mimic.Loop.{process_events, collect_and_wait, wait_for_work, after_wait, free_all}
use qobject_mimic.Virtual.{host}
use qobject_mimic.Examples.Sample.{sample, sample_code}

-- A pthread_create() that refuses the scheduling attributes and then succeeds.
abbrev posix : Posix
posix = record {
  policy_known = true;
  has_idle = true;
  least = some 1;
  most = some 99;
  attributes_accepted = true;
  first = not_permitted;
  second = success;
}

-- A run() that asks its own thread to exit.
abbrev body : Body
body = record {
  wait_hook = λ ms w. w;
  platform_hook = λ w. w;
  run = λ w. exit 2 (pos 4) w;
  emit_started = λ w. w;
  emit_finished = λ w. w;
}

-- While the loop waits, another thread tells it to exit.
abbrev stopping_body : Body
stopping_body = record body { wait_hook = λ ms w. exit 2 (pos 4) w }

exec_loop_lem_example :
    (m : ℕ) × (m ≤ 1)
    × (exec_loop sample_code stopping_body 3 2 sample
        ≡ some (
          passes sample_code stopping_body m 2 sample,
          ((passes sample_code stopping_body m 2 sample).threads 2).exit_code,
        ))
    × Ends sample_code stopping_body 2 (passes sample_code stopping_body m 2 sample)
unfolding passes pass process_events collect_and_wait wait_for_work after_wait host exit
    on_dispatcher interrupt wake_up expired_events reschedule free_all
exec_loop_lem_example =
    exec_loop_lem sample_code stopping_body 1 3 2 sample (omega arith) (inl refl)

construct_app_lem_example :
    let v = construct_app 1 4 sample in
    let k = own_dispatcher 1 v in
    (v.instance_ ≡ 3)
    × (v.warnings ≡ 1)
    × ((v.apps 4).main_thread ≡ 1)
    × (k ≡ (v.apps 4).dispatcher)
    × (k ≢ 21)
    × ((v.dispatchers k).event_queue ≡ [])
    × ((v.dispatchers k).timers ≡ [])
    × (v.dispatchers 21 ≡ busy_dispatcher)
construct_app_lem_example = construct_app_lem 1 4 21 sample (ground arith) refl (ground arith)

abbrev asked : World
asked = exit 2 (pos 9) sample

abbrev entered : World
entered = enter_exec sample_code stopping_body 4 asked

entered-loop :
    exec_loop sample_code stopping_body 4 2 entered
    ≡ some (passes sample_code stopping_body 2 2 entered, pos 4)
unfolding exec_loop enter_exec passes pass process_events collect_and_wait wait_for_work after_wait
    host exit on_dispatcher interrupt wake_up expired_events reschedule free_all
entered-loop = refl

exec_lem_example :
    (u : World) × (exec sample_code stopping_body 4 2 4 asked ≡ some (u, pos 4))
    × ((u.apps 4).in_exec ≡ false)
    × ((entered.threads 2).exiting ≡ false)
    × ((entered.apps 4).in_exec ≡ true)
    × (exec sample_code stopping_body 4 2 4 entered ≡ some (warn entered, negsuc 0))
    × (exec sample_code stopping_body 4 1 4 asked ≡ some (warn asked, negsuc 0))
exec_lem_example =
    exec_lem sample_code stopping_body 4 2 1 4 (pos 9) (pos 4) sample
      (passes sample_code stopping_body 2 2 entered) refl (ground arith) refl entered-loop
