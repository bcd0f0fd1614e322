-- ===== src/Loop.antt =====
-- EventDispatcherDefault::processEvents() and processDeferredDeletes() of
-- src/EventDispatcherDefault.cpp, over the interface that the loops need of the rest of the program.
pub mod Plan
pub mod Refine
pub mod Interrupts
pub mod Deferred
use qobject_mimic.Base.{
  ℕ, zero, suc, List, [], ◌∷◌, Option, none, some, Bool, true, false, ◌&&◌, ◌||◌, ◌≡◌,
  if◌then◌else◌, is_null, is_empty, is_some, foldl, contains,
}
use qobject_mimic.Event.{Event, is_deferred_delete}
use qobject_mimic.Dispatcher.{
  Dispatcher, EventPair, expired_events, reschedule, wait_timeout, take_deferred_deletes,
}

-- `deliver r e` is `r->event( e )`, and `free e` is `delete e`. `wait` and `platform` are the
-- virtual hooks waitForEvents() and processPlatformEvents(), with all that happens in them.
pub record Host (W : Type 0) : Type 0 where
  pub dispatcher : W → Dispatcher
  pub set_dispatcher : Dispatcher → W → W
  pub now : W → ℕ
  pub wait : Option ℕ → W → W
  pub platform : W → W
  pub deliver : ℕ → Event → W → W
  pub free : Option Event → W → W
  pub dispatcher-set_dispatcher : (d : Dispatcher) (w : W) → dispatcher (set_dispatcher d w) ≡ d

-- The local variables of the dispatch loops: `deletedReceivers` and `processedAny`.
pub record Pass (W : Type 0) : Type 0 where
  pub world : W
  pub deleted : List ℕ
  pub processed : Bool

module _ {W : Type 0} (h : Host W) where
  -- The body of "Dispatch queued events".
  unfoldable pub dispatch_event : Pass W → EventPair → Pass W
  dispatch_event p ep = elim ep.event [
    | none ↦ record p { world = h.free none p.world }
    | some e ↦
        if is_null ep.receiver || contains ep.receiver p.deleted
        then record p { world = h.free (some e) p.world }
        else record {
          world = h.free (some e) (h.deliver ep.receiver e p.world);
          deleted = if is_deferred_delete e then ep.receiver ∷ p.deleted else p.deleted;
          processed = true;
        }
  ]

  -- The body of "Dispatch timer events".
  unfoldable pub dispatch_timer_event : Pass W → EventPair → Pass W
  dispatch_timer_event p ep = elim ep.event [
    | none ↦ record p { world = h.free none p.world }
    | some e ↦
        if is_null ep.receiver || contains ep.receiver p.deleted
        then record p { world = h.free (some e) p.world }
        else record p {
          world = h.free (some e) (h.deliver ep.receiver e p.world);
          processed = true;
        }
  ]

  -- From `processedAny = false` to the end of processEvents().
  unfoldable pub dispatch_batch : List EventPair → List EventPair → W → W × Bool
  unfolding dispatch_event dispatch_timer_event
  dispatch_batch events timer_events w =
      let start : Pass W = record { world = w; deleted = []; processed = false } in
      let p = foldl dispatch_timer_event (foldl dispatch_event start events) timer_events in
      (p.world, p.processed)

  unfoldable pub free_all : List EventPair → W → W
  free_all [] w = w
  free_all (ep ∷ eps) w = free_all eps (h.free ep.event w)

  -- The wait, with the flags cleared around it.
  unfoldable pub wait_for_work : ℕ → W → W
  wait_for_work t w =
      let d = h.dispatcher w in
      let w' =
        h.wait (wait_timeout t d.timers)
          (h.set_dispatcher (record d { timers_changed = false }) w) in
      h.set_dispatcher (record (h.dispatcher w') { wake_up_requested = false }) w'

  -- From the second test of the interrupt flag on.
  unfoldable pub after_wait : List EventPair → W → W × Bool
  after_wait timer_events w =
      let d = h.dispatcher w in
      if d.interrupted
      then (free_all timer_events (h.set_dispatcher (record d { interrupted = false }) w), false)
      else dispatch_batch d.event_queue timer_events
          (h.platform (h.set_dispatcher (record d { event_queue = [] }) w))

  -- The locked part up to the wait.
  unfoldable pub collect_and_wait : W → W × List EventPair
  collect_and_wait w =
      let d = h.dispatcher w in
      let t = h.now w in
      let timer_events = expired_events t d.timers in
      let w1 = h.set_dispatcher (record d { timers = reschedule t d.timers }) w in
      (
        (if is_empty d.event_queue && is_empty timer_events then wait_for_work t w1 else w1),
        timer_events,
      )

  -- processEvents().
  unfoldable pub process_events : W → W × Bool
  process_events w =
      let d = h.dispatcher w in
      if d.interrupted
      then (h.set_dispatcher (record d { interrupted = false }) w, false)
      else let (w', timer_events) = collect_and_wait w in after_wait timer_events w'

  -- The body of the inner loop of processDeferredDeletes().
  unfoldable pub delete_one : Pass W → EventPair → Pass W
  delete_one p ep = elim ep.event [
    | none ↦ record p { world = h.free none p.world }
    | some e ↦
        if is_null ep.receiver || contains ep.receiver p.deleted
        then record p { world = h.free (some e) p.world }
        else record p {
          world = h.free (some e) (h.deliver ep.receiver e p.world);
          deleted = ep.receiver ∷ p.deleted;
        }
  ]

  -- One round of `for(;;)`: `none` is the `break`.
  unfoldable pub delete_round : Pass W → Option (Pass W)
  delete_round p =
      let (d, doomed) = take_deferred_deletes (h.dispatcher p.world) in
      if is_empty doomed
      then none
      else some (foldl delete_one (record p { world = h.set_dispatcher d p.world }) doomed)

  -- processDeferredDeletes(), with fuel for the rounds: `none` means that it ran out.
  unfoldable pub delete_rounds : ℕ → Pass W → Option W
  delete_rounds zero p = none
  delete_rounds (suc fuel) p = elim (delete_round p) [
    | none ↦ some p.world
    | some p' ↦ delete_rounds fuel p'
  ]

  unfoldable pub process_deferred_deletes : ℕ → W → Option W
  unfolding delete_rounds
  process_deferred_deletes fuel w =
      delete_rounds fuel (record { world = w; deleted = []; processed = false })
