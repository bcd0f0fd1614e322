-- ===== src/Loop/Refine.antt =====
-- processEvents() of src/EventDispatcherDefault.cpp against the plan of its batch.
use qobject_mimic.Base.{
  ℕ, List, [], ◌∷◌, ◌++◌, Bool, false, ◌||◌, ◌≡◌, refl, foldl, any, any-append, All, arith, map,
  sym, ◌∙◌,
}
use mathlib.Core.List.{append-nil, append_assoc}
use qobject_mimic.Dispatcher.{EventPair, TimerData, is_deferred_pair, expired_events}
use qobject_mimic.Loop.{
  Host, Pass, dispatch_event, dispatch_timer_event, dispatch_batch, collect_and_wait, after_wait,
  process_events,
}
use qobject_mimic.Loop.Plan.{
  Action, plan, plan_frees, plan-IsSafe, is_delivery, frees_of, IsSafe, run_actions, Agree,
  Agree-step, Agree-step_timer, event_step, timer_step, any-delivery, is_wanted,
}

expired-not_deferred :
    (now : ℕ) (ts : List TimerData)
    → All (λ ep. is_deferred_pair ep ≡ false) (expired_events now ts)
unfolding expired_events
expired-not_deferred now [] = tt
expired-not_deferred now (t ∷ ts) = ground (arith, expired-not_deferred now ts)

or_step :
    (before : List EventPair) (ep : EventPair) (eps : List EventPair) (a b c : Bool)
    → b ≡ (a || is_wanted before ep)
    → c ≡ (b || any is_delivery (plan (before ++ ep ∷ []) eps))
    → c ≡ (a || any is_delivery (plan before (ep ∷ eps)))
or_step before ep eps a b c first rest = ground (arith, any-delivery before ep eps)

pub plan-append :
    (before eps fs : List EventPair)
    → plan before (eps ++ fs) ≡ plan before eps ++ plan (before ++ eps) fs
unfolding plan
plan-append before [] fs = ground (arith, append-nil before)
plan-append before (ep ∷ eps) fs =
    ground (arith, plan-append (before ++ ep ∷ []) eps fs, append_assoc before (ep ∷ []) eps)

module _ {W : Type 0} (h : Host W) where
  timers_plan :
      (p : Pass W) (before eps : List EventPair)
      → All (λ ep. is_deferred_pair ep ≡ false) eps
      → Agree h p.deleted before
      → ((foldl (dispatch_timer_event h) p eps).world ≡ run_actions h (plan before eps) p.world)
        × ((foldl (dispatch_timer_event h) p eps).processed
            ≡ (p.processed || any is_delivery (plan before eps)))
  unfolding plan run_actions
  timers_plan p before [] none agree = (refl, ground arith)
  timers_plan p before (ep ∷ eps) none agree =
      let q = dispatch_timer_event h p ep in
      let here = timer_step h p before ep eps agree in
      let rest =
        timers_plan (dispatch_timer_event h p ep) (before ++ ep ∷ []) eps none.1
          (Agree-step_timer h p before ep none.0 agree) in
      (rest.0 ∙ sym here.0, or_step before ep eps p.processed q.processed _ here.1 rest.1)

  events_plan :
      (p : Pass W) (before eps : List EventPair)
      → Agree h p.deleted before
      → ((foldl (dispatch_event h) p eps).world ≡ run_actions h (plan before eps) p.world)
        × ((foldl (dispatch_event h) p eps).processed
            ≡ (p.processed || any is_delivery (plan before eps)))
        × Agree h (foldl (dispatch_event h) p eps).deleted (before ++ eps)
  unfolding plan run_actions
  events_plan p before [] agree = (refl, ground arith, rw append-nil agree)
  events_plan p before (ep ∷ eps) agree =
      let q = dispatch_event h p ep in
      let here = event_step h p before ep eps agree in
      let rest =
        events_plan (dispatch_event h p ep) (before ++ ep ∷ []) eps
          (Agree-step h p before ep agree) in
      (
        rest.0 ∙ sym here.0,
        or_step before ep eps p.processed q.processed _ here.1 rest.1,
        rw append_assoc at rest.2,
      )

  run_actions-append :
      (acts bcts : List Action) (w : W)
      → run_actions h (acts ++ bcts) w ≡ run_actions h bcts (run_actions h acts w)
  unfolding run_actions
  run_actions-append [] bcts w = refl
  run_actions-append (a ∷ acts) bcts w = run_actions-append acts bcts _

  -- The dispatch loops carry out the plan of the batch, events before timer events, and report
  -- whether the plan delivers anything.
  pub dispatch_batch-plan :
      (events timer_events : List EventPair) (w : W)
      → All (λ ep. is_deferred_pair ep ≡ false) timer_events
      → dispatch_batch h events timer_events w ≡ (
        run_actions h (plan [] (events ++ timer_events)) w,
        any is_delivery (plan [] (events ++ timer_events)),
      )
  unfolding dispatch_batch
  dispatch_batch-plan events timer_events w none =
      let start : Pass W = record { world = w; deleted = []; processed = false } in
      let queued = events_plan start [] events (λ r ne. refl) in
      let timed =
        timers_plan (foldl (dispatch_event h) start events) events timer_events none queued.2 in
      ground (
        arith,
        queued.0,
        queued.1,
        timed.0,
        timed.1,
        plan-append [] events timer_events,
        run_actions-append (plan [] events) (plan events timer_events) w,
        any-append is_delivery (plan [] events) (plan events timer_events),
      )

  pub process_events_calm :
      (w : W)
      → (h.dispatcher w).interrupted ≡ false
      → process_events h w ≡ after_wait h (collect_and_wait h w).1 (collect_and_wait h w).0
  unfolding process_events
  process_events_calm w calm = ground arith

  pub after_wait_calm :
      (timer_events : List EventPair) (w : W)
      → (h.dispatcher w).interrupted ≡ false
      → after_wait h timer_events w
        ≡ dispatch_batch h
            (h.dispatcher w).event_queue
            timer_events
            (h.platform (h.set_dispatcher (record (h.dispatcher w) { event_queue = [] }) w))
  unfolding after_wait
  after_wait_calm timer_events w calm = ground arith

  -- The batch of one pass: what is queued after the wait, then the timers that were due before it.
  abbrev pub batch : W → List EventPair
  batch w = (h.dispatcher (collect_and_wait h w).0).event_queue ++ (collect_and_wait h w).1

  -- The world in which the batch is dispatched.
  abbrev pub drained : W → W
  drained w = h.platform (
      h.set_dispatcher (record (h.dispatcher (collect_and_wait h w).0) { event_queue = [] })
        (collect_and_wait h w).0)

  collected-not_deferred :
      (w : W) → All (λ ep. is_deferred_pair ep ≡ false) (collect_and_wait h w).1
  unfolding collect_and_wait
  collected-not_deferred w = expired-not_deferred (h.now w) (h.dispatcher w).timers

  -- A pass of processEvents() that no interrupt ends carries out a plan on the world with the
  -- queue emptied and the platform's events drained. The plan delivers to each receiver until it
  -- delivers the receiver's deferred delete and never after, it frees every event of the batch
  -- exactly once and in order, and the pass reports true exactly if the plan delivers an event.
  pub process_events_lem :
      (w : W)
      → (h.dispatcher w).interrupted ≡ false
      → (h.dispatcher (collect_and_wait h w).0).interrupted ≡ false
      → (process_events h w
          ≡ (run_actions h (plan [] (batch w)) (drained w), any is_delivery (plan [] (batch w))))
        × IsSafe (plan [] (batch w))
        × (frees_of (plan [] (batch w)) ≡ map (λ ep. ep.event) (batch w))
  process_events_lem w calm still = (
    process_events_calm w calm
        ∙ after_wait_calm (collect_and_wait h w).1 (collect_and_wait h w).0 still
        ∙ dispatch_batch-plan _ (collect_and_wait h w).1 (drained w) (collected-not_deferred w),
    plan-IsSafe [] (batch w),
    plan_frees [] (batch w),
  )
