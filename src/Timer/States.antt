-- ===== src/Timer/States.antt =====
-- The states of a Timer (src/Timer.cpp) under the calls of its interface.
use qobject_mimic.Base.{
  ℕ, ◌+◌, Option, none, some, Bool, true, false, ◌&&◌, not, if◌then◌else◌, ◌==◌, ℤ, List, [], ◌∷◌,
  nullptr, ◌≡◌, refl, ◌≢◌, arith,
}
use qobject_mimic.Dispatcher.{unregister_timer}
use qobject_mimic.Dispatcher.Timers.{find_timer, unregister_timer_lem}
use qobject_mimic.World.{
  World, Code, Object, TimerFields, object_thread, object_dispatcher, on_dispatcher,
}
use qobject_mimic.Object.Timers.{start_timer, kill_timer, no_timer}
use qobject_mimic.Timer.{
  timer_fields, put_fields, set_interval, set_single_shot, stop, arm, start, start_with,
  timer_event,
}

-- A Timer is active exactly if it has an id.
abbrev pub IsConsistent : TimerFields → Type 0
IsConsistent f = f.active ≡ not (f.timer_id == no_timer)

abbrev pub HasState : (TimerFields → Type 0) → Option TimerFields → Type 0
HasState P none = ⊥
HasState P (some f) = P f

kill_timer-heap : (caller o i : ℕ) (w : World) → (kill_timer caller o i w).heap ≡ w.heap
unfolding kill_timer on_dispatcher
kill_timer-heap caller o i w = ground arith

pub start_timer-heap :
    (caller o : ℕ) (n : ℤ) (w : World) → (start_timer caller o n w).0.heap ≡ w.heap
unfolding start_timer on_dispatcher
start_timer-heap caller o n w = ground arith

-- The fields after stop(), on any thread.
abbrev pub stopped : TimerFields → TimerFields
stopped f =
    if f.active && not (f.timer_id == no_timer)
    then record f { timer_id = no_timer; active = false }
    else f

pub stop-fields :
    (caller o : ℕ) (f : TimerFields) (w : World)
    → timer_fields o w ≡ some f
    → timer_fields o (stop caller o w) ≡ some (stopped f)
unfolding stop timer_fields
stop-fields caller o f w e = ground (arith, kill_timer-heap caller o f.timer_id w)

arm-fields :
    (caller o : ℕ) (f g : TimerFields) (w : World)
    → timer_fields o w ≡ some g
    → timer_fields o (arm caller o f w)
      ≡ some (record f {
        timer_id = (start_timer caller o f.interval w).1;
        active = not ((start_timer caller o f.interval w).1 == no_timer);
      })
unfolding arm timer_fields
arm-fields caller o f g w e = ground (arith, start_timer-heap caller o f.interval w)

start-fields :
    (caller o : ℕ) (f : TimerFields) (w : World)
    → timer_fields o w ≡ some f
    → timer_fields o (start caller o w) ≡ (
        let i = (start_timer caller o (stopped f).interval (stop caller o w)).1 in
        some (record (stopped f) { timer_id = i; active = not (i == no_timer) }))
unfolding start
start-fields caller o f w e =
    let halted = stop-fields caller o f w e in
    ground (arith, halted, arm-fields caller o (stopped f) (stopped f) (stop caller o w) halted)

set_interval-fields :
    (o : ℕ) (n : ℤ) (f : TimerFields) (w : World)
    → timer_fields o w ≡ some f
    → timer_fields o (set_interval o n w) ≡ some (record f { interval = n })
unfolding set_interval timer_fields put_fields
set_interval-fields o n f w e = ground arith

set_single_shot-fields :
    (o : ℕ) (b : Bool) (f : TimerFields) (w : World)
    → timer_fields o w ≡ some f
    → timer_fields o (set_single_shot o b w) ≡ some (record f { single_shot = b })
unfolding set_single_shot timer_fields put_fields
set_single_shot-fields o b f w e = ground arith

-- The calls of a Timer's interface that change it.
pub data Call : Type 0 where
  sets_interval : ℤ → Call
  sets_single_shot : Bool → Call
  starts : ℕ → Call
  starts_with : ℕ → ℤ → Call
  stops : ℕ → Call

unfoldable pub perform : ℕ → Call → World → World
perform o (sets_interval n) w = set_interval o n w
perform o (sets_single_shot b) w = set_single_shot o b w
perform o (starts caller) w = start caller o w
perform o (starts_with caller n) w = start_with caller o n w
perform o (stops caller) w = stop caller o w

unfoldable pub perform_all : ℕ → List Call → World → World
perform_all o [] w = w
perform_all o (c ∷ cs) w = perform_all o cs (perform o c w)

perform-IsConsistent :
    (o : ℕ) (c : Call) (f : TimerFields) (w : World)
    → timer_fields o w ≡ some f
    → IsConsistent f
    → (g : TimerFields) × (timer_fields o (perform o c w) ≡ some g) × IsConsistent g
unfolding perform start_with
perform-IsConsistent o (sets_interval n) f w e v =
    (record f { interval = n }, set_interval-fields o n f w e, v)
perform-IsConsistent o (sets_single_shot b) f w e v =
    (record f { single_shot = b }, set_single_shot-fields o b f w e, v)
perform-IsConsistent o (starts caller) f w e v = (_, start-fields caller o f w e, refl)
perform-IsConsistent o (starts_with caller n) f w e v = (
  _,
  start-fields caller o (record f { interval = n }) (set_interval o n w)
      (set_interval-fields o n f w e),
  refl,
)
perform-IsConsistent o (stops caller) f w e v =
    (stopped f, stop-fields caller o f w e, ground arith)

-- After any calls of its interface, from any threads, a Timer that was consistent is consistent:
-- it is still a Timer, and active exactly if it has an id.
pub perform_all-IsConsistent :
    (o : ℕ) (cs : List Call) (f : TimerFields) (w : World)
    → timer_fields o w ≡ some f
    → IsConsistent f
    → HasState IsConsistent (timer_fields o (perform_all o cs w))
unfolding perform_all
perform_all-IsConsistent o [] f w e v = rw e v
perform_all-IsConsistent o (c ∷ cs) f w e v =
    let (g, e', v') = perform-IsConsistent o c f w e v in
    perform_all-IsConsistent o cs g (perform o c w) e' v'

stop-dispatcher :
    (caller o : ℕ) (ob : Object) (f : TimerFields) (w : World)
    → w.heap o ≡ some ob
    → ob.timer ≡ some f
    → object_thread ob w ≡ caller
    → object_dispatcher ob w ≢ nullptr
    → f.active ≡ true
    → f.timer_id ≢ no_timer
    → (stop caller o w).dispatchers (object_dispatcher ob w)
      ≡ (unregister_timer f.timer_id (w.dispatchers (object_dispatcher ob w))).0
unfolding stop kill_timer timer_fields put_fields on_dispatcher
stop-dispatcher caller o ob f w e t own has act id = ground arith

timer_fields_lem :
    (o : ℕ) (ob : Object) (f : TimerFields) (w : World)
    → w.heap o ≡ some ob
    → ob.timer ≡ some f
    → timer_fields o w ≡ some f
unfolding timer_fields
timer_fields_lem o ob f w e t = ground arith

-- timerEvent() of a single-shot Timer for its own id, on its own thread: when the timeout signal is
-- emitted, the Timer is inactive with no id, and its dispatcher has no timer of that id. For an id
-- that is not its own, nothing is emitted and nothing changes.
pub single_shot_stops_first :
    (code : Code) (caller o i : ℕ) (ob : Object) (f : TimerFields) (w : World)
    → w.heap o ≡ some ob
    → ob.timer ≡ some f
    → object_thread ob w ≡ caller
    → object_dispatcher ob w ≢ nullptr
    → f.active ≡ true
    → f.timer_id ≢ no_timer
    → f.single_shot ≡ true
    → i ≢ f.timer_id
    → let v = stop caller o w in
      (timer_event code caller o f.timer_id w ≡ code.emit_timeout o v)
      × (timer_fields o v ≡ some (record f { timer_id = no_timer; active = false }))
      × (find_timer f.timer_id (v.dispatchers (object_dispatcher ob w)).timers ≡ none)
      × (timer_event code caller o i w ≡ w)
unfolding timer_event
single_shot_stops_first code caller o i ob f w e t own has act id single other =
    let fields = timer_fields_lem o ob f w e t in
    let k = object_dispatcher ob w in
    (
      ground arith,
      ground (arith, stop-fields caller o f w fields),
      ground (
        arith,
        stop-dispatcher caller o ob f w e t own has act id,
        unregister_timer_lem f.timer_id f.timer_id (w.dispatchers k),
      ),
      ground arith,
    )

-- stop() of an active Timer from another thread warns, and the dispatcher keeps its timer; but
-- the Timer forgets it, being inactive with no id, so that its later events emit nothing.
pub stop_elsewhere :
    (code : Code) (caller own o : ℕ) (ob : Object) (f : TimerFields) (w : World)
    → w.heap o ≡ some ob
    → ob.timer ≡ some f
    → object_thread ob w ≢ caller
    → f.active ≡ true
    → f.timer_id ≢ no_timer
    → let v = stop caller o w in
      (v.dispatchers ≡ w.dispatchers)
      × (v.warnings ≡ w.warnings + 1)
      × (timer_fields o v ≡ some (record f { timer_id = no_timer; active = false }))
      × (timer_event code own o f.timer_id v ≡ v)
unfolding stop kill_timer timer_fields put_fields timer_event
stop_elsewhere code caller own o ob f w e t far act id = ground arith
