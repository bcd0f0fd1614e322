-- ===== src/Virtual/Backed/Timers.antt =====
-- The methods of a Timer of the thread (src/Timer.cpp), and exit() of src/Thread.cpp.
use qobject_mimic.Base.{ℕ, some, true, false, ◌≡◌, refl, arith, ℤ, ◌==◌, not, ◌&&◌, if◌then◌else◌}
use qobject_mimic.Dispatcher.{Dispatcher, interrupt, wake_up}
use qobject_mimic.World.{World, TimerFields, on_dispatcher}
use qobject_mimic.Object.Timers.{start_timer, kill_timer, no_timer}
use qobject_mimic.Timer
use qobject_mimic.Thread.{exit, own_dispatcher, put_thread}
use qobject_mimic.Virtual.Backed.{is_home, IsSound, Fine, Fine-of, Fine-then, Fine-on}
use qobject_mimic.Virtual.Backed.Operations.{home_object, put_fields-Fine, stop-Fine}
use qobject_mimic.Virtual.Backed.Calls.{start_timer-Fine}

pub set_interval-Fine :
    (k o : ℕ) (n : ℤ) (f : TimerFields) (w : World)
    → IsSound k w
    → is_home k w o ≡ true
    → Timer.timer_fields o w ≡ some f
    → Fine k w (Timer.set_interval o n w)
unfolding Timer.set_interval
set_interval-Fine k o n f w s h e =
    ground (arith, put_fields-Fine k o (record f { interval = n }) w s h)

set_interval-fields :
    (o : ℕ) (n : ℤ) (f : TimerFields) (w : World)
    → Timer.timer_fields o w ≡ some f
    → Timer.timer_fields o (Timer.set_interval o n w) ≡ some (record f { interval = n })
unfolding Timer.set_interval Timer.put_fields Timer.timer_fields
set_interval-fields o n f w e = ground arith

arm-Fine :
    (k caller o : ℕ) (f : TimerFields) (w : World)
    → IsSound k w
    → is_home k w o ≡ true
    → Fine k w (Timer.arm caller o f w)
unfolding Timer.arm
arm-Fine k caller o f w s h =
    let v = (start_timer caller o f.interval w).0 in
    let i = (start_timer caller o f.interval w).1 in
    let started = start_timer-Fine k caller o f.interval w s h in
    let on = record f { timer_id = i; active = not (i == no_timer) } in
    Fine-then k w v (Timer.put_fields o on v) started
      (λ s'. put_fields-Fine k o on v s' (started.1 o refl h).1)

abbrev stopped : TimerFields → TimerFields
stopped f =
    if f.active && not (f.timer_id == no_timer)
    then record f { timer_id = no_timer; active = false }
    else f

stop-fields :
    (k caller o : ℕ) (f : TimerFields) (w : World)
    → is_home k w o ≡ true
    → Timer.timer_fields o w ≡ some f
    → Timer.timer_fields o (Timer.stop caller o w) ≡ some (stopped f)
unfolding Timer.timer_fields Timer.stop Timer.put_fields kill_timer on_dispatcher
stop-fields k caller o f w h e = let (ob, here, home) = home_object k o w h in ground arith

pub start-Fine :
    (k caller o : ℕ) (f : TimerFields) (w : World)
    → IsSound k w
    → is_home k w o ≡ true
    → Timer.timer_fields o w ≡ some f
    → Fine k w (Timer.start caller o w)
unfolding Timer.start
start-Fine k caller o f w s h e =
    let v = Timer.stop caller o w in
    let off = stop-Fine k caller o f w s h e in
    let armed =
      Fine-then k w v (Timer.arm caller o (stopped f) v) off
        (λ s'. arm-Fine k caller o (stopped f) v s' (off.1 o refl h).1) in
    ground (arith, armed, stop-fields k caller o f w h e)

pub start_with-Fine :
    (k caller o : ℕ) (n : ℤ) (f : TimerFields) (w : World)
    → IsSound k w
    → is_home k w o ≡ true
    → Timer.timer_fields o w ≡ some f
    → Fine k w (Timer.start_with caller o n w)
unfolding Timer.start_with
start_with-Fine k caller o n f w s h e =
    let v = Timer.set_interval o n w in
    let changed = set_interval-Fine k o n f w s h e in
    Fine-then k w v (Timer.start caller o v) changed (λ s'.
      start-Fine k caller o (record f { interval = n }) v s' (changed.1 o refl h).1
        (set_interval-fields o n f w e))

pub exit-Fine : (k t : ℕ) (c : ℤ) (w : World) → IsSound k w → Fine k w (exit t c w)
unfolding exit is_home interrupt wake_up
exit-Fine k t c w s =
    let w1 = put_thread t (record (w.threads t) { exit_code = c; exiting = true }) w in
    let f1 : Fine k w w1 =
      Fine-of k w w1 s.safe (λ r here h. (refl, h)) s.queued s.timed s.anchored in
    let i = own_dispatcher t w1 in
    let d = λ (x : Dispatcher). wake_up (interrupt x) in
    ground (
      arith,
      f1,
      Fine-then k w w1 (on_dispatcher i d w1) f1
          (λ s'. Fine-on k i d w1 s' (λ same. (s'.queued, s'.timed))),
    )
