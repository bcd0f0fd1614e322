-- ===== src/Virtual/Backed/Safety.antt =====
-- processEvents() of src/EventDispatcherDefault.cpp and exec() of src/Thread.cpp, over whole
-- passes.
use qobject_mimic.Base.{
  ℕ, List, [], ◌∷◌, Option, Bool, true, false, is_null, is_empty, ◌≡◌, refl, arith, All, All-mono,
  All-append, any, sym, subst, ap, Bool-cases, inl, inr, ◌&&◌,
}
use qobject_mimic.Dispatcher.{EventPair, TimerData, expired_events, reschedule, wait_timeout}
use qobject_mimic.World.{World, Code}
use qobject_mimic.Loop.{Host, process_events, collect_and_wait, after_wait, wait_for_work, free_all}
use qobject_mimic.Loop.Plan.{plan, deletes, run_actions}
use qobject_mimic.Loop.Refine.{batch, drained, process_events_lem}
use qobject_mimic.Virtual.{host}
use qobject_mimic.Virtual.Backed.{
  IsBacked, IsTimed, IsSound, Stays, Fine, Fine-refl, Fine-then, Stays-trans, Fine-free, Fine-set,
  Fine-if, nobody,
}
use qobject_mimic.Virtual.Backed.Delivery.{IsCareful}
use qobject_mimic.Virtual.Backed.Passes.{IsReady, plan-Stays}

expired-IsBacked :
    (k now : ℕ) (w : World) (ts : List TimerData)
    → All (IsTimed k w) ts
    → All (IsBacked k w) (expired_events now ts)
unfolding expired_events
expired-IsBacked k now w [] a = tt
expired-IsBacked k now w (t ∷ ts) a = ground (arith, expired-IsBacked k now w ts a.1)

reschedule-IsTimed :
    (k now : ℕ) (w : World) (ts : List TimerData)
    → All (IsTimed k w) ts
    → All (IsTimed k w) (reschedule now ts)
unfolding reschedule
reschedule-IsTimed k now w [] a = tt
reschedule-IsTimed k now w (t ∷ ts) a = ground (arith, reschedule-IsTimed k now w ts a.1)

-- The objects with a deferred delete in the batch of a pass.
abbrev pub doomed : Host World → World → ℕ → Bool
doomed h w r = any (deletes r) (batch h w)

-- The hooks of the dispatcher's class, with what other threads do meanwhile, are as careful as the
-- thread's own code.
pub record IsCarefulHost (k : ℕ) (wait : Option ℕ → World → World) (platform : World → World)
    : Type 0 where
  pub wait_Fine : (t : Option ℕ) (w : World) → IsSound k w → Fine k w (wait t w)
  pub platform_Fine : (w : World) → IsSound k w → Fine k w (platform w)

module _ (code : Code) (caller k : ℕ) (wait : Option ℕ → World → World) (platform : World → World)
    (set : is_null k ≡ false) (careful : IsCareful k code)
    (calm : IsCarefulHost k wait platform) where
  abbrev here : Host World
  here = host code caller k wait platform

  free_all-Fine : (eps : List EventPair) (w : World) → IsSound k w → Fine k w (free_all here eps w)
  unfolding free_all host
  free_all-Fine [] w s = Fine-refl k w s
  free_all-Fine (ep ∷ eps) w s =
      Fine-then k w (here.free ep.event w) _ (Fine-free k w s ep.event)
        (λ s'. free_all-Fine eps (here.free ep.event w) s')

  wait_for_work-Fine : (t : ℕ) (w : World) → IsSound k w → Fine k w (wait_for_work here t w)
  unfolding wait_for_work host
  wait_for_work-Fine t w s =
      let d = record (w.dispatchers k) { timers_changed = false } in
      let w1 = here.set_dispatcher d w in
      let due = wait_timeout t (w.dispatchers k).timers in
      let w2 = wait due w1 in
      let f1 = Fine-set k d w s s.queued s.timed in
      let f2 = Fine-then k w w1 w2 f1 (λ s'. calm.wait_Fine due w1 s') in
      Fine-then k w w2 _ f2 (λ s'.
        Fine-set k (record (w2.dispatchers k) { wake_up_requested = false }) w2 s' s'.queued
          s'.timed)

  collect-Fine : (w : World) → IsSound k w → Fine k w (collect_and_wait here w).0
  unfolding collect_and_wait host
  collect-Fine w s =
      let d = w.dispatchers k in
      let new = record d { timers = reschedule w.clock d.timers } in
      let w1 = here.set_dispatcher new w in
      let f1 = Fine-set k new w s s.queued (reschedule-IsTimed k w.clock w d.timers s.timed) in
      let waited =
        Fine-then k w w1 (wait_for_work here w.clock w1) f1
          (λ s'. wait_for_work-Fine w.clock w1 s') in
      Fine-if k (is_empty d.event_queue && is_empty (expired_events w.clock d.timers)) w _ w1 waited
        f1

  still-IsBacked :
      (w v : World) (eps : List EventPair)
      → Stays k nobody w v
      → All (IsBacked k w) eps
      → All (IsBacked k v) eps
  still-IsBacked w v eps f =
      All-mono (IsBacked k w) (IsBacked k v) eps (λ ep p. ((f ep.receiver refl p.0).1, p.1))

  -- The timers that were due, seen from after the wait.
  collected-IsBacked :
      (w : World)
      → IsSound k w
      → All (IsBacked k (collect_and_wait here w).0) (collect_and_wait here w).1
  unfolding collect_and_wait host
  collected-IsBacked w s =
      still-IsBacked w (collect_and_wait here w).0 (collect_and_wait here w).1 (collect-Fine w s).1
        (expired-IsBacked k w.clock w (w.dispatchers k).timers s.timed)

  -- What a pass that no interrupt ends dispatches on.
  drained-Fine :
      (w : World)
      → IsSound k w
      → Fine k w (drained here w) × All (IsBacked k (drained here w)) (batch here w)
  unfolding host
  drained-Fine w s =
      let v = (collect_and_wait here w).0 in
      let f = collect-Fine w s in
      let d = record (v.dispatchers k) { event_queue = [] } in
      let v1 = here.set_dispatcher d v in
      let emptied = Fine-set k d v f.0 tt f.0.timed in
      let rest = Fine-then k v v1 (platform v1) emptied (λ s'. calm.platform_Fine v1 s') in
      let held =
        All-append (IsBacked k v) (v.dispatchers k).event_queue (collect_and_wait here w).1
          f.0.queued (collected-IsBacked w s) in
      (
        Fine-then k w v (platform v1) f (λ s'. rest),
        still-IsBacked v (platform v1) (batch here w) rest.1 held,
      )

  process_events_interrupted :
      (w : World)
      → (w.dispatchers k).interrupted ≡ true
      → (process_events here w).0
        ≡ here.set_dispatcher (record (w.dispatchers k) { interrupted = false }) w
  unfolding process_events host
  process_events_interrupted w e = ground arith

  process_events_ended :
      (w : World)
      → (w.dispatchers k).interrupted ≡ false
      → ((collect_and_wait here w).0.dispatchers k).interrupted ≡ true
      → let v = (collect_and_wait here w).0 in
        (process_events here w).0
        ≡ free_all here
            (collect_and_wait here w).1
            (here.set_dispatcher (record (v.dispatchers k) { interrupted = false }) v)
  unfolding process_events after_wait host
  process_events_ended w calm_ e = ground arith

  -- What a pass that an interrupt ends does.
  ended-Fine :
      (w : World)
      → IsSound k w
      → (w.dispatchers k).interrupted ≡ false
      → ((collect_and_wait here w).0.dispatchers k).interrupted ≡ true
      → Fine k w (process_events here w).0
  unfolding host
  ended-Fine w s calm_ e =
      let v = (collect_and_wait here w).0 in
      let d = record (v.dispatchers k) { interrupted = false } in
      let v1 = here.set_dispatcher d v in
      let f1 = Fine-then k w v v1 (collect-Fine w s) (λ s'. Fine-set k d v s' s'.queued s'.timed) in
      let f2 =
        Fine-then k w v1 (free_all here (collect_and_wait here w).1 v1) f1
          (λ s'. free_all-Fine (collect_and_wait here w).1 v1 s') in
      subst (Fine k w) (sym (process_events_ended w calm_ e)) f2

  Fine-Stays : (gone : ℕ → Bool) (w v : World) → Fine k w v → IsSound k v × Stays k gone w v
  Fine-Stays gone w v f = (f.0, λ r kept. f.1 r refl)

  dispatched-Stays :
      (w : World)
      → IsSound k w
      → (w.dispatchers k).interrupted ≡ false
      → ((collect_and_wait here w).0.dispatchers k).interrupted ≡ false
      → IsSound k (process_events here w).0 × Stays k (doomed here w) w (process_events here w).0
  unfolding host
  dispatched-Stays w s calm_ still =
      let v = drained here w in
      let (f, held) = drained-Fine w s in
      let ready =
        All-mono (IsBacked k v) (IsReady k [] v) (batch here w) (λ ep p. (λ none_yet. p.0, p.1))
          held in
      let g = plan-Stays code caller k wait platform set careful [] (batch here w) v f.0 ready in
      let u = run_actions here (plan [] (batch here w)) v in
      let both = Stays-trans k (doomed here w) w v u (Fine-Stays (doomed here w) w v f).1 g.1 in
      let same : (process_events here w).0 ≡ u =
        ap (λ p. p.0) (process_events_lem here w calm_ still).0 in
      subst (λ x. IsSound k x × Stays k (doomed here w) w x) (sym same) (g.0, both)

  -- Let everything that the dispatcher of a thread holds be for objects that live in the thread,
  -- no access to a destroyed object have happened, objects list connections of their own only, and
  -- the user's code be careful, with the wait, the platform hook and what other threads do in
  -- them: called in such a state it leaves such a state, and neither destroys an object of the
  -- thread nor moves one away; disconnecting from a receiver whose life has ended takes the
  -- connection out and does no more; and the destructors that a deferred delete runs beside
  -- ~Timer() and ~Object(), the user's, ~Thread(), ~CoreApplication() and that of a Timer's
  -- signal, return, are as careful and leave a Timer its members, which excludes a Thread whose
  -- own loop deletes it, for it waits for itself. Then processEvents(), interrupted or not, ends
  -- in such a state: it accesses no destroyed object, and every object of the thread without a
  -- deferred delete in the batch of the pass is still there, in its thread.
  pub process_events_safe :
      (w : World)
      → IsSound k w
      → IsSound k (process_events here w).0 × Stays k (doomed here w) w (process_events here w).0
  unfolding host
  process_events_safe w s =
      let d = record (w.dispatchers k) { interrupted = false } in
      elim (Bool-cases (w.dispatchers k).interrupted) [
        | inl e ↦ Fine-Stays (doomed here w) w (process_events here w).0 (
            subst (Fine k w) (sym (process_events_interrupted w e))
              (Fine-set k d w s s.queued s.timed))
        | inr calm_ ↦ elim (Bool-cases ((collect_and_wait here w).0.dispatchers k).interrupted) [
          | inl e ↦ Fine-Stays (doomed here w) w (process_events here w).0 (ended-Fine w s calm_ e)
          | inr still ↦ dispatched-Stays w s calm_ still
        ]
      ]
