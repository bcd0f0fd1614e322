-- ===== src/Loop/Interrupts.antt =====
-- The passes of processEvents() in src/EventDispatcherDefault.cpp that an interrupt ends.
use qobject_mimic.Base.{List, [], ◌∷◌, true, false, ◌≡◌, refl, any, arith, ◌∙◌, ap, Option}
use qobject_mimic.Event.{Event}
use qobject_mimic.Dispatcher.{EventPair}
use qobject_mimic.Loop.{Host, free_all, collect_and_wait, after_wait, process_events}
use qobject_mimic.Loop.Plan.{plan, is_delivery, run_actions}
use qobject_mimic.Loop.Refine.{batch, drained, process_events_lem, process_events_calm}

module _ {W : Type 0} (h : Host W) where
  free_all-dispatcher :
      (eps : List EventPair) (w : W)
      → ((e : Option Event) (v : W) → h.dispatcher (h.free e v) ≡ h.dispatcher v)
      → h.dispatcher (free_all h eps w) ≡ h.dispatcher w
  unfolding free_all
  free_all-dispatcher [] w quiet = refl
  free_all-dispatcher (ep ∷ eps) w quiet =
      free_all-dispatcher eps (h.free ep.event w) quiet ∙ quiet ep.event w

  interrupted_before :
      (w : W)
      → (h.dispatcher w).interrupted ≡ true
      → process_events h w
        ≡ (h.set_dispatcher (record (h.dispatcher w) { interrupted = false }) w, false)
  unfolding process_events
  interrupted_before w e = ground arith

  interrupted_in_wait :
      (timer_events : List EventPair) (w : W)
      → (h.dispatcher w).interrupted ≡ true
      → after_wait h timer_events w ≡ (
        free_all h timer_events
            (h.set_dispatcher (record (h.dispatcher w) { interrupted = false }) w),
        false,
      )
  unfolding after_wait
  interrupted_in_wait timer_events w e = ground arith

  -- A pending interrupt is used up by one pass, which dispatches nothing: if the pass that follows
  -- is not interrupted in its wait, it dispatches the batch that it finds.
  pub process_events_again :
      (w : W)
      → (h.dispatcher w).interrupted ≡ true
      → (h.dispatcher (collect_and_wait h (process_events h w).0).0).interrupted ≡ false
      → ((process_events h w).1 ≡ false)
        × ((h.dispatcher (process_events h w).0).event_queue ≡ (h.dispatcher w).event_queue)
        × ((h.dispatcher (process_events h w).0).interrupted ≡ false)
        × (process_events h (process_events h w).0 ≡ (
          run_actions h
              (plan [] (batch h (process_events h w).0))
              (drained h (process_events h w).0),
          any is_delivery (plan [] (batch h (process_events h w).0)),
        ))
  process_events_again w e still =
      let first = interrupted_before w e in
      let after = h.dispatcher-set_dispatcher (record (h.dispatcher w) { interrupted = false }) w in
      let calm : (h.dispatcher (process_events h w).0).interrupted ≡ false =
        ground (arith, first, after) in
      (
        ground (arith, first),
        ground (arith, first, after),
        calm,
        (process_events_lem h (process_events h w).0 calm still).0,
      )

  -- An interrupt that arrives in the wait is used up as well: the pass dispatches nothing, frees
  -- the timer events that it had collected, and leaves the queue as the wait left it, if freeing
  -- events does not touch the dispatcher.
  pub process_events_stopped :
      (w : W)
      → ((e : Option Event) (v : W) → h.dispatcher (h.free e v) ≡ h.dispatcher v)
      → (h.dispatcher w).interrupted ≡ false
      → (h.dispatcher (collect_and_wait h w).0).interrupted ≡ true
      → ((process_events h w).1 ≡ false)
        × (h.dispatcher (process_events h w).0
            ≡ record (h.dispatcher (collect_and_wait h w).0) { interrupted = false })
  process_events_stopped w quiet calm stop =
      let pass =
        process_events_calm h w calm
        ∙ interrupted_in_wait (collect_and_wait h w).1 (collect_and_wait h w).0 stop in
      (
        ap (λ r. r.1) pass,
        ap (λ r. h.dispatcher r.0) pass
            ∙ free_all-dispatcher (collect_and_wait h w).1 _ quiet
            ∙ h.dispatcher-set_dispatcher _ _,
      )
