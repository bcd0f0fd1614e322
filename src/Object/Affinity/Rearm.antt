-- ===== src/Object/Affinity/Rearm.antt =====
-- The metacall of moveToThread() (src/Object.cpp), which registers the timers that were taken.
use qobject_mimic.Base.{
  ℕ, ◌+◌, ◌*◌, List, [], ◌∷◌, ◌++◌, some, false, ◌||◌, nullptr, ◌==◌, ◌≡◌, refl, ◌≢◌, arith, any,
  map, keep_if, ◌∙◌, ap, pos, sym,
}
use mathlib.Core.List.{append-nil, append_assoc}
use qobject_mimic.Event.{TimerRegistration}
use qobject_mimic.Dispatcher.{
  Dispatcher, TimerData, register_timer, has_timer, registration, ns_per_ms,
}
use qobject_mimic.Dispatcher.Queue.{owned_by}
use qobject_mimic.World.{World, Object, object_dispatcher, on_dispatcher}
use qobject_mimic.Object.MetaCall.{register_each, rearm_timers}
use qobject_mimic.Object.Affinity.Moves.{carried}

-- The ids of the list are distinct, and none of them is registered.
abbrev pub AreFresh : List TimerRegistration → List TimerData → Type 0
AreFresh [] ts = Unit {0}
AreFresh (r ∷ rs) ts =
    (has_timer r.timer_id ts ≡ false)
    × (any (λ (s : TimerRegistration). s.timer_id == r.timer_id) rs ≡ false)
    × AreFresh rs ts

fresh_timer : ℕ → ℕ → TimerRegistration → TimerData
fresh_timer t o r = record {
  timer_id = r.timer_id;
  interval_ms = r.interval_ms;
  receiver = o;
  next_fire = t + r.interval_ms * ns_per_ms;
}

register_new :
    (t o : ℕ) (r : TimerRegistration) (d : Dispatcher)
    → o ≢ nullptr
    → has_timer r.timer_id d.timers ≡ false
    → (register_timer t r.timer_id (pos r.interval_ms) o d).timers
      ≡ d.timers ++ fresh_timer t o r ∷ []
unfolding register_timer fresh_timer
register_new t o r d set h = ground arith

has_timer-append_one :
    (i : ℕ) (ts : List TimerData) (td : TimerData)
    → has_timer i (ts ++ td ∷ []) ≡ (has_timer i ts || (td.timer_id == i))
has_timer-append_one i [] td = ground arith
has_timer-append_one i (t ∷ ts) td = ground (arith, has_timer-append_one i ts td)

AreFresh-append :
    (t o : ℕ) (r : TimerRegistration) (rs : List TimerRegistration) (ts : List TimerData)
    → any (λ (s : TimerRegistration). s.timer_id == r.timer_id) rs ≡ false
    → AreFresh rs ts
    → AreFresh rs (ts ++ fresh_timer t o r ∷ [])
unfolding fresh_timer
AreFresh-append t o r [] ts h f = tt
AreFresh-append t o r (s ∷ rs) ts h f =
    ground
      (arith, AreFresh-append t o r rs ts, has_timer-append_one s.timer_id ts (fresh_timer t o r))

on_dispatcher-register :
    (r : TimerRegistration) (o k t : ℕ) (w : World)
    → o ≢ nullptr
    → has_timer r.timer_id (w.dispatchers k).timers ≡ false
    → ((on_dispatcher k (register_timer t r.timer_id (pos r.interval_ms) o) w).dispatchers k).timers
      ≡ (w.dispatchers k).timers ++ fresh_timer t o r ∷ []
unfolding on_dispatcher
on_dispatcher-register r o k t w set h = ground (arith, register_new t o r (w.dispatchers k) set h)

register_each-timers :
    (rs : List TimerRegistration) (o k t : ℕ) (w : World)
    → o ≢ nullptr
    → AreFresh rs (w.dispatchers k).timers
    → ((register_each rs o k t w).dispatchers k).timers
      ≡ (w.dispatchers k).timers ++ map (fresh_timer t o) rs
unfolding register_each
register_each-timers [] o k t w set f = sym (append-nil (w.dispatchers k).timers)
register_each-timers (r ∷ rs) o k t w set f =
    let w1 = on_dispatcher k (register_timer t r.timer_id (pos r.interval_ms) o) w in
    let first = on_dispatcher-register r o k t w set f.0 in
    let rest =
      register_each-timers rs o k t
        (on_dispatcher k (register_timer t r.timer_id (pos r.interval_ms) o) w) set
        (rw first (AreFresh-append t o r rs (w.dispatchers k).timers f.1 f.2)) in
    rest
    ∙ ap (λ ts. ts ++ map (fresh_timer t o) rs) first
    ∙ append_assoc (w.dispatchers k).timers (fresh_timer t o r ∷ []) (map (fresh_timer t o) rs)

carried-append :
    (t o : ℕ) (rs : List TimerRegistration) (ts : List TimerData)
    → map registration (keep_if (owned_by o) (ts ++ map (fresh_timer t o) rs))
      ≡ map registration (keep_if (owned_by o) ts) ++ rs
unfolding fresh_timer
carried-append t o [] [] = refl
carried-append t o (r ∷ rs) [] = ground (arith, carried-append t o rs [])
carried-append t o rs (u ∷ ts) = ground (arith, carried-append t o rs ts)

-- When the metacall runs, and none of the ids it carries is registered where the object now lives,
-- the object has there the timers that it had there before and then exactly those carried over,
-- with their ids and intervals, in order.
pub rearm_timers_lem :
    (o k : ℕ) (rs : List TimerRegistration) (ob : Object) (w : World)
    → o ≢ nullptr
    → w.heap o ≡ some ob
    → object_dispatcher ob w ≡ k
    → k ≢ nullptr
    → AreFresh rs (w.dispatchers k).timers
    → carried o ((rearm_timers o rs w).dispatchers k) ≡ carried o (w.dispatchers k) ++ rs
unfolding rearm_timers
rearm_timers_lem o k rs ob w set object here has f =
    let all = register_each-timers rs o k w.clock w set f in
    let runs : rearm_timers o rs w ≡ register_each rs o k w.clock w = ground arith in
    ap (λ v. carried o (v.dispatchers k)) runs
    ∙ ap (λ ts. map registration (keep_if (owned_by o) ts)) all
    ∙ carried-append w.clock o rs (w.dispatchers k).timers
