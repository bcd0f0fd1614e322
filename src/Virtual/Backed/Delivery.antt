-- ===== src/Virtual/Backed/Delivery.antt =====
-- event() of src/Object.cpp on an object of the thread: timer events, queued calls, and the deferred
-- delete with ~Timer() and ~Object().
use qobject_mimic.Base.{
  ℕ, List, [], ◌∷◌, Option, none, some, true, false, ◌≡◌, refl, arith, Option-cases, inl, inr,
  update, update_self, All, All-mono, All-remove_if, All-kept, keep_if, any, remove_if, Bool, ◌==◌,
  ◌∙◌, ap, sym, subst,
}
use qobject_mimic.Key.{CallLaterKey}
use qobject_mimic.Event.{meta_call, Task, empty, user, bound_slot, run_later, rearm}
use qobject_mimic.World.{World, Code, Object, TimerFields, put_object}
use qobject_mimic.Object.MetaCall.{run_task, run_call_later, run_node, erase_pending}
use qobject_mimic.Object.Lifetime.{
  destroy_cleanup, wind_down, check_thread, take_incoming, take_callbacks, disconnect_all,
  run_callbacks,
}
use qobject_mimic.Signal.{Entry, Boost, has_handle, destroy_slots}
use qobject_mimic.Timer
use qobject_mimic.Virtual.{timer_event}
use qobject_mimic.Virtual.Backed.{
  is_home, is_own, IsSound, Fine, Fine-refl, Fine-then, Fine-warn, Fine-alive, Fine-pending,
  Fine-put, Fine-of, IsAnchored,
}
use qobject_mimic.Virtual.Backed.Operations.{home_object, stop-Fine, rearm_timers-Fine}

-- What the thread asks of the user's code, of the slots and of boost::signals2, called when nothing
-- has gone wrong: it touches no destroyed object, neither destroys an object of the thread nor moves
-- one away, and posts and starts timers on the thread's dispatcher for objects of the thread; and
-- disconnecting from a receiver whose life has ended takes the connection out and does no more. The
-- destructors of the objects' classes return and are as careful; what is left of a Timer when they
-- have run is still a Timer.
pub record IsCareful (k : ℕ) (code : Code) : Type 0 where
  pub run_Fine : (n : ℕ) (w : World) → IsSound k w → Fine k w (code.run n w)
  pub timer_event_Fine : (o i : ℕ) (w : World) → IsSound k w → Fine k w (code.timer_event o i w)
  pub emit_timeout_Fine : (o : ℕ) (w : World) → IsSound k w → Fine k w (code.emit_timeout o w)
  pub disconnect_dead :
      (h : ℕ) (w : World)
      → All (λ e. has_handle h e ≡ true → w.alive e.2.life ≡ false) w.connections
      → code.disconnect h w ≡ record w { connections = remove_if (has_handle h) w.connections }
  pub destructor_Fine :
      (o : ℕ) (w : World) → IsSound k w → is_home k w o ≡ true → Fine k w (code.destructor o w)
  pub destructor_timer :
      (o : ℕ) (f : TimerFields) (w : World)
      → IsSound k w
      → Timer.timer_fields o w ≡ some f
      → (g : TimerFields) × (Timer.timer_fields o (code.destructor o w) ≡ some g)
  pub destroy_timeout_Fine : (o : ℕ) (w : World) → IsSound k w → Fine k w (code.destroy_timeout o w)

destroy_slots-dead :
    (es : List Entry) (w : World) → All (λ e. w.alive e.2.life ≡ false) es → destroy_slots es w ≡ w
unfolding destroy_slots destroy_cleanup
destroy_slots-dead [] w dead = refl
destroy_slots-dead (e ∷ es) w dead = ground (arith, destroy_slots-dead es w dead.1)

-- The laws of boost::signals2 give the last of these.
pub boost-disconnect_dead :
    {code : Code} (b : Boost code) (h : ℕ) (w : World)
    → All (λ e. has_handle h e ≡ true → w.alive e.2.life ≡ false) w.connections
    → code.disconnect h w ≡ record w { connections = remove_if (has_handle h) w.connections }
boost-disconnect_dead b h w dead =
    let v = record w { connections = remove_if (has_handle h) w.connections } in
    let gone =
      All-kept _ (λ e. w.alive e.2.life ≡ false) (has_handle h) w.connections (λ e here f. f here)
        dead in
    b.disconnect_lem h w ∙ destroy_slots-dead (keep_if (has_handle h) w.connections) v gone

-- The connections with one of the handles are to objects whose life has ended.
abbrev IsLoose : List ℕ → World → Type 0
IsLoose hs w = All (λ e. any (λ h. h == e.0) hs ≡ true → w.alive e.2.life ≡ false) w.connections

pub Fine-cut :
    (k : ℕ) (p : Entry → Bool) (w : World)
    → IsSound k w
    → Fine k w (record w { connections = remove_if p w.connections })
unfolding is_home
Fine-cut k p w s =
    Fine-of k w (record w { connections = remove_if p w.connections }) s.safe
      (λ r here h. (refl, h)) s.queued s.timed
      (λ o ob e. All-remove_if _ p w.connections (s.anchored o ob e))

module _ (k : ℕ) (code : Code) (careful : IsCareful k code) where
  run_node-Fine :
      (n : Option ℕ) (life : ℕ) (w : World) → IsSound k w → Fine k w (run_node code n life w)
  unfolding run_node
  run_node-Fine none life w s = Fine-refl k w s
  run_node-Fine (some slot) life w s = ground (arith, Fine-refl k w s, careful.run_Fine slot w s)

  run_call_later-Fine :
      (key : CallLaterKey) (node life : ℕ) (w : World)
      → IsSound k w
      → Fine k w (run_call_later code key node life w)
  unfolding run_call_later
  run_call_later-Fine key node life w s =
      let p = erase_pending key w.pending in
      let nodes = update w.nodes node none in
      Fine-then k w (record w { pending = p; nodes = nodes }) _ (Fine-pending k w s p nodes)
        (λ s'. run_node-Fine (w.nodes node) life (record w { pending = p; nodes = nodes }) s')

  pub run_task-Fine :
      (r : ℕ) (t : Task) (w : World)
      → IsSound k w
      → is_home k w r ≡ true
      → is_own (record { receiver = r; event = some (meta_call t) }) ≡ true
      → Fine k w (run_task code t w)
  unfolding run_task
  run_task-Fine r empty w s h own = Fine-refl k w s
  run_task-Fine r (user n) w s h own = careful.run_Fine n w s
  run_task-Fine r (bound_slot life slot) w s h own =
      ground (arith, Fine-refl k w s, careful.run_Fine slot w s)
  run_task-Fine r (run_later key node life) w s h own = run_call_later-Fine key node life w s
  run_task-Fine r (rearm o rs) w s h own = ground (arith, rearm_timers-Fine k o rs w s)

  emit-Fine :
      (caller o i : ℕ) (f : TimerFields) (w : World)
      → IsSound k w
      → is_home k w o ≡ true
      → Timer.timer_fields o w ≡ some f
      → Fine k w (Timer.timer_event code caller o i w)
  unfolding Timer.timer_event
  emit-Fine caller o i f w s h e =
      let v = Timer.stop caller o w in
      let after =
        Fine-then k w v (code.emit_timeout o v) (stop-Fine k caller o f w s h e)
          (λ s'. careful.emit_timeout_Fine o v s') in
      ground (arith, Fine-refl k w s, careful.emit_timeout_Fine o w s, after)

  pub timer_event-Fine :
      (caller o i : ℕ) (w : World)
      → IsSound k w
      → is_home k w o ≡ true
      → Fine k w (timer_event code caller o i w)
  unfolding timer_event Timer.timer_fields
  timer_event-Fine caller o i w s h =
      let (ob, e, home) = home_object k o w h in
      elim (Option-cases ob.timer) [
        | inl none_ ↦ ground (arith, careful.timer_event_Fine o i w s)
        | inr (f, some_) ↦ ground (arith, emit-Fine caller o i f w s h)
      ]

  disconnect_all-Fine :
      (hs : List ℕ) (w : World) → IsSound k w → IsLoose hs w → Fine k w (disconnect_all code hs w)
  unfolding disconnect_all
  disconnect_all-Fine [] w s loose = Fine-refl k w s
  disconnect_all-Fine (c ∷ hs) w s loose =
      let v = record w { connections = remove_if (has_handle c) w.connections } in
      let cut : code.disconnect c w ≡ v =
        careful.disconnect_dead c w
          (All-mono _ _ w.connections (λ e f here. f (ground arith)) loose) in
      let rest : IsLoose hs v =
        All-remove_if _ (has_handle c) w.connections
          (All-mono _ _ w.connections (λ e f here. f (ground arith)) loose) in
      subst (λ x. Fine k w (disconnect_all code hs x)) (sym cut)
        (Fine-then k w v (disconnect_all code hs v) (Fine-cut k (has_handle c) w s)
          (λ s'. disconnect_all-Fine hs v s' rest))

  run_callbacks-Fine : (cs : List ℕ) (w : World) → IsSound k w → Fine k w (run_callbacks code cs w)
  unfolding run_callbacks
  run_callbacks-Fine [] w s = Fine-refl k w s
  run_callbacks-Fine (c ∷ cs) w s =
      Fine-then k w (code.run c w) _ (careful.run_Fine c w s)
        (λ s'. run_callbacks-Fine cs (code.run c w) s')

  check_thread-Fine :
      (caller : ℕ) (ob : Object) (w : World) → IsSound k w → Fine k w (check_thread caller ob w)
  unfolding check_thread
  check_thread-Fine caller ob w s = ground (arith, Fine-refl k w s, Fine-warn k w s)

  check_thread-heap :
      (caller : ℕ) (ob : Object) (w : World) (o : ℕ) → (check_thread caller ob w).heap o ≡ w.heap o
  unfolding check_thread
  check_thread-heap caller ob w o = ground arith

  take_incoming-Fine :
      (o : ℕ) (w : World) → IsSound k w → is_home k w o ≡ true → Fine k w (take_incoming o w).0
  unfolding take_incoming
  take_incoming-Fine o w s h =
      let (ob, e, home) = home_object k o w h in
      ground (
        arith,
        Fine-put k o ob (record ob { incoming = [] }) w s e refl refl (λ h listed. ground arith),
      )

  take_callbacks-Fine :
      (o : ℕ) (w : World) → IsSound k w → is_home k w o ≡ true → Fine k w (take_callbacks o w).0
  unfolding take_callbacks
  take_callbacks-Fine o w s h =
      let (ob, e, home) = home_object k o w h in
      ground (
        arith,
        Fine-put k o ob (record ob { cleanup_callbacks = [] }) w s e refl refl (λ h listed. listed),
      )

  taken-IsLoose :
      (o : ℕ) (ob : Object) (w : World)
      → IsAnchored w
      → w.heap o ≡ some ob
      → w.alive ob.life ≡ false
      → IsLoose (take_incoming o w).1 (take_incoming o w).0
  unfolding take_incoming
  taken-IsLoose o ob w a e dead =
      let loose : IsLoose ob.incoming w =
        All-mono _ _ w.connections (λ c f listed. ap w.alive (f listed) ∙ dead) (a o ob e) in
      let taken : take_incoming o w ≡ (put_object o (record ob { incoming = [] }) w, ob.incoming) =
        ground arith in
      subst (λ p. IsLoose p.1 p.0) (sym taken) loose

  pub wind_down-Fine :
      (caller o : ℕ) (ob : Object) (w : World)
      → IsSound k w
      → is_home k w o ≡ true
      → w.heap o ≡ some ob
      → Fine k w (wind_down code caller o ob w)
  unfolding wind_down
  wind_down-Fine caller o ob w s h e =
      let w1 = check_thread caller ob w in
      let w2 = record w1 { alive = update w1.alive ob.life false } in
      let w3 = (take_incoming o w2).0 in
      let hs = (take_incoming o w2).1 in
      let w4 = disconnect_all code hs w3 in
      let w5 = (take_callbacks o w4).0 in
      let cs = (take_callbacks o w4).1 in
      let f1 = check_thread-Fine caller ob w s in
      let f2 = Fine-then k w w1 w2 f1 (λ s'. Fine-alive k w1 s' ob.life false) in
      let f3 = Fine-then k w w2 w3 f2 (λ s'. take_incoming-Fine o w2 s' (f2.1 o refl h).1) in
      let there : w2.heap o ≡ some ob = check_thread-heap caller ob w o ∙ e in
      let loose = taken-IsLoose o ob w2 f2.0.anchored there (update_self w1.alive ob.life false) in
      let f4 = Fine-then k w w3 w4 f3 (λ s'. disconnect_all-Fine hs w3 s' loose) in
      let f5 = Fine-then k w w4 w5 f4 (λ s'. take_callbacks-Fine o w4 s' (f4.1 o refl h).1) in
      Fine-then k w w5 _ f5 (λ s'. run_callbacks-Fine cs w5 s')
