-- ===== src/Examples/Safety.antt =====
-- The theorems on the passes of a thread's loop over its objects at concrete inputs.
use qobject_mimic.Base.{ℕ, suc, zero, ◌<◌, some, ◌≡◌, refl, arith, inl, pos, Option}
use qobject_mimic.Dispatcher.{expired_events, reschedule, interrupt, wake_up}
use qobject_mimic.World.{World, Code, on_dispatcher, object_dispatcher, data_dispatcher}
use qobject_mimic.Loop.{
  process_events, collect_and_wait, after_wait, dispatch_batch, dispatch_event,
  dispatch_timer_event,
}
use qobject_mimic.Virtual.{host, event, delete_this, timer_event}
use qobject_mimic.Virtual.Backed.{is_home, IsSound, Fine-of, Fine-refl, Fine-warn, Stays}
use qobject_mimic.Virtual.Backed.Delivery.{IsCareful, boost-disconnect_dead}
use qobject_mimic.Virtual.Backed.Safety.{IsCarefulHost, doomed, process_events_safe}
use qobject_mimic.Virtual.Backed.Exec.{exec_safe}
use qobject_mimic.Virtual.Backed.Timers.{exit-Fine}
use qobject_mimic.Thread.{exit, own_dispatcher}
use qobject_mimic.Thread.Running.{Body, pass, exec_loop}
use qobject_mimic.Thread.Body.{passes, Ends}
use qobject_mimic.Object.MetaCall.{run_task}
use qobject_mimic.Object.Lifetime.{
  destroy_object, wind_down, release, check_thread, take_incoming, take_callbacks, disconnect_all,
  run_callbacks,
}
use qobject_mimic.Timer.{timer_fields}
use qobject_mimic.Examples.Sample.{sample}
use qobject_mimic.Examples.Signals.{boost_code, sample_boost}

abbrev pub stay : Option ℕ → World → World
stay ms w = w

abbrev pub still : World → World
still w = w

pub boost_code-IsCareful : IsCareful 21 boost_code
unfolding is_home timer_fields
boost_code-IsCareful = record {
  run_Fine = λ n w s. Fine-of 21 w _ s.safe (λ r here h. (refl, h)) s.queued s.timed s.anchored;
  timer_event_Fine =
      λ o i w s. Fine-of 21 w _ s.safe (λ r here h. (refl, h)) s.queued s.timed s.anchored;
  emit_timeout_Fine = λ o w s. Fine-warn 21 w s;
  disconnect_dead = boost-disconnect_dead sample_boost;
  destructor_Fine =
      λ o w s home. Fine-of 21 w _ s.safe (λ r here h. (refl, h)) s.queued s.timed s.anchored;
  destructor_timer = λ o f w s e. (f, e);
  destroy_timeout_Fine = λ o w s. Fine-refl 21 w s;
}

still-IsCarefulHost : IsCarefulHost 21 stay still
still-IsCarefulHost = record {
  wait_Fine = λ ms w s. Fine-refl 21 w s;
  platform_Fine = λ w s. Fine-refl 21 w s;
}

pub sample-IsSound : IsSound 21 sample
unfolding is_home
sample-IsSound = record {
  safe = refl;
  queued = ground arith;
  timed = ground arith;
  anchored = λ o ob e. tt;
}

process_events_safe_example :
    let v = (process_events (host boost_code 1 21 stay still) sample).0 in
    IsSound 21 v × Stays 21 (doomed (host boost_code 1 21 stay still) sample) sample v
process_events_safe_example =
    process_events_safe boost_code 1 21 stay still refl boost_code-IsCareful still-IsCarefulHost
      sample sample-IsSound

-- A slot that tells the first thread to exit.
abbrev quitting_code : Code
quitting_code = record boost_code { run = λ n w. exit 1 (pos 4) w }

quitting_code-IsCareful : IsCareful 21 quitting_code
unfolding is_home timer_fields
quitting_code-IsCareful = record {
  run_Fine = λ n w s. exit-Fine 21 1 (pos 4) w s;
  timer_event_Fine =
      λ o i w s. Fine-of 21 w _ s.safe (λ r here h. (refl, h)) s.queued s.timed s.anchored;
  emit_timeout_Fine = λ o w s. Fine-warn 21 w s;
  disconnect_dead = boost-disconnect_dead sample_boost;
  destructor_Fine =
      λ o w s home. Fine-of 21 w _ s.safe (λ r here h. (refl, h)) s.queued s.timed s.anchored;
  destructor_timer = λ o f w s e. (f, e);
  destroy_timeout_Fine = λ o w s. Fine-refl 21 w s;
}

abbrev quiet_body : Body
quiet_body = record {
  wait_hook = stay;
  platform_hook = still;
  run = still;
  emit_started = still;
  emit_finished = still;
}

first_pass : (m : ℕ) → m < 1 → own_dispatcher 1 (passes quitting_code quiet_body m 1 sample) ≡ 21
unfolding passes
first_pass zero lt = refl
first_pass (suc m) lt = absurd (omega arith)

told-exits : Ends quitting_code quiet_body 1 (passes quitting_code quiet_body 1 1 sample)
unfolding passes pass process_events collect_and_wait after_wait dispatch_batch dispatch_event
    dispatch_timer_event host event delete_this timer_event expired_events reschedule exit
    on_dispatcher interrupt wake_up run_task destroy_object wind_down release check_thread
    take_incoming take_callbacks disconnect_all run_callbacks object_dispatcher data_dispatcher
told-exits = inl refl

exec_safe_example :
    (v : World) × (exec_loop quitting_code quiet_body 2 1 sample
      ≡ some (v, (v.threads 1).exit_code))
    × IsSound 21 v
    × Ends quitting_code quiet_body 1 v
exec_safe_example =
    exec_safe quitting_code quiet_body 21 refl quitting_code-IsCareful still-IsCarefulHost 1 2 1
      sample (omega arith) sample-IsSound first_pass told-exits
