-- ===== src/Examples/Loops.antt =====
-- The theorems on the loops at concrete inputs.
use qobject_mimic.Base.{
  ℕ, ◌<◌, List, [], ◌∷◌, some, true, false, ◌≡◌, refl, arith, length, any, foldl, remove_if,
  length-remove_if, keep_if, is_empty, ◌∙◌,
}
use qobject_mimic.Dispatcher.{
  Dispatcher, EventPair, is_deferred_pair, take_deferred_deletes, expired_events, reschedule,
  interrupt,
}
use qobject_mimic.Loop.{
  Host, Pass, delete_one, delete_round, process_deferred_deletes, process_events, collect_and_wait,
}
use qobject_mimic.Loop.Plan.{plan, run_actions}
use qobject_mimic.Loop.Refine.{drained, process_events_lem}
use qobject_mimic.Loop.Interrupts.{process_events_again}
use qobject_mimic.Loop.Deferred.{
  logged, Distinct, process_deferred_deletes_total, process_deferred_deletes_once,
}
use qobject_mimic.World.{World, on_dispatcher}
use qobject_mimic.Virtual.{host}
use qobject_mimic.Examples.Sample.{
  sample, sample_code, call_pair, delete_pair, late_pair, busy_dispatcher,
}

-- The loop of the first thread, with a wait in which nothing happens.
abbrev first_loop : Host World
first_loop = host sample_code 1 21 (λ ms w. w) (λ w. w)

process_events_lem_example : process_events first_loop sample ≡ (
  run_actions first_loop
      (plan [] (call_pair ∷ delete_pair ∷ late_pair ∷ []))
      (drained first_loop sample),
  true,
)
unfolding host collect_and_wait expired_events plan reschedule
process_events_lem_example = (process_events_lem first_loop sample refl refl).0

abbrev interrupted_sample : World
interrupted_sample = on_dispatcher 21 interrupt sample

process_events_again_example : (process_events first_loop interrupted_sample).1 ≡ false
unfolding host collect_and_wait expired_events reschedule interrupt on_dispatcher process_events
process_events_again_example = (process_events_again first_loop interrupted_sample refl refl).0

-- A program that is its dispatcher only, whose destructors do nothing more.
abbrev bare : Host Dispatcher
bare = record {
  dispatcher = λ d. d;
  set_dispatcher = λ d old. d;
  now = λ d. 0;
  wait = λ ms d. d;
  platform = λ d. d;
  deliver = λ r e d. d;
  free = λ e d. d;
  dispatcher-set_dispatcher = λ d old. refl;
}

abbrev queued_events : Dispatcher → ℕ
queued_events d = length d.event_queue

bare-delete : (p : Pass Dispatcher) (ep : EventPair) → (delete_one bare p ep).world ≡ p.world
unfolding delete_one
bare-delete p ep = ground arith

bare-deletes :
    (p : Pass Dispatcher) (eps : List EventPair) → (foldl (delete_one bare) p eps).world ≡ p.world
bare-deletes p [] = refl
bare-deletes p (ep ∷ eps) = bare-deletes (delete_one bare p ep) eps ∙ bare-delete p ep

nonempty-length : (q : List EventPair) → is_empty q ≡ false → 0 < length q
nonempty-length [] h = ground arith
nonempty-length (ep ∷ q) h = omega arith

length-deferred :
    (q : List EventPair)
    → is_empty (keep_if is_deferred_pair q) ≡ false
    → length (remove_if is_deferred_pair q) < length q
length-deferred q h =
    ground
      (arith, nonempty-length (keep_if is_deferred_pair q) h, length-remove_if is_deferred_pair q)

bare-falls :
    (p q : Pass Dispatcher)
    → delete_round bare p ≡ some q
    → queued_events q.world < queued_events p.world
unfolding delete_round take_deferred_deletes
bare-falls p q e =
    let taken = take_deferred_deletes p.world in
    ground (
      arith,
      bare-deletes (record p { world = taken.0 }) taken.1,
      length-deferred p.world.event_queue,
    )

process_deferred_deletes_total_example :
    (w' : Dispatcher) × (process_deferred_deletes bare 3 busy_dispatcher ≡ some w')
    × (any is_deferred_pair w'.event_queue ≡ false)
process_deferred_deletes_total_example =
    process_deferred_deletes_total bare queued_events bare-falls 3 busy_dispatcher (omega arith)

-- The same program with its deliveries recorded.
logged-delete :
    (p : Pass (Dispatcher × List ℕ)) (ep : EventPair)
    → (delete_one (logged bare) p ep).world.0 ≡ p.world.0
unfolding delete_one logged
logged-delete p ep = ground arith

logged-deletes :
    (p : Pass (Dispatcher × List ℕ)) (eps : List EventPair)
    → (foldl (delete_one (logged bare)) p eps).world.0 ≡ p.world.0
logged-deletes p [] = refl
logged-deletes p (ep ∷ eps) =
    logged-deletes (delete_one (logged bare) p ep) eps ∙ logged-delete p ep

logged-falls :
    (p q : Pass (Dispatcher × List ℕ))
    → delete_round (logged bare) p ≡ some q
    → queued_events q.world.0 < queued_events p.world.0
unfolding delete_round take_deferred_deletes logged
logged-falls p q e =
    let taken = take_deferred_deletes p.world.0 in
    ground (
      arith,
      logged-deletes (record p { world = (taken.0, p.world.1) }) taken.1,
      length-deferred p.world.0.event_queue,
    )

abbrev twice_queued : Dispatcher
twice_queued = record busy_dispatcher { event_queue = delete_pair ∷ call_pair ∷ delete_pair ∷ [] }

process_deferred_deletes_once_example :
    (v : Dispatcher × List ℕ) × (process_deferred_deletes (logged bare) 4 (twice_queued, [])
      ≡ some v)
    × Distinct v.1
    × (any is_deferred_pair v.0.event_queue ≡ false)
process_deferred_deletes_once_example =
    process_deferred_deletes_once bare (λ v. queued_events v.0) logged-falls 4 twice_queued
      (omega arith)
