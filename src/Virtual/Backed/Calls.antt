-- ===== src/Virtual/Backed/Calls.antt =====
-- What the code of the library's user may call on the objects of its thread: emissions, callLater(),
-- deleteLater(), timers, construction, names and exit().
use qobject_mimic.Base.{
  ℕ, ◌+◌, List, [], ◌∷◌, some, true, false, is_null, ◌≡◌, refl, arith, All-append, ℤ, update,
  Option-cases, inl, inr, Bool-cases,
}
use qobject_mimic.Key.{CallLaterKey}
use qobject_mimic.Event.{Event, meta_call, bound_slot, run_later, deferred_delete}
use qobject_mimic.Dispatcher.{EventPair, post_event, register_timer, wake_waiter}
use qobject_mimic.World.{World, Code, ConnectionType, data_dispatcher, on_dispatcher, put_object}
use qobject_mimic.Object.MetaCall.{
  connect_wrapper, dispatch_through_box, dispatch_meta_call_to, dispatch_meta_call, post_or_run,
  run_task, erase_pending,
}
use qobject_mimic.Object.CallLater.{schedule_call_later, queue_node, find_pending}
use qobject_mimic.Object.Timers.{start_timer, next_int}
use qobject_mimic.Object.Names.{set_object_name}
use qobject_mimic.Virtual.{delete_later}
use qobject_mimic.Virtual.Backed.{
  is_home, is_own, IsBacked, IsSound, Fine, Fine-of, Fine-refl, Fine-then, Fine-warn, Fine-free,
  Fine-pending, Fine-put, Fine-on,
}
use qobject_mimic.Virtual.Backed.Operations.{home_object, register_timer-IsTimed}
use qobject_mimic.Virtual.Backed.Delivery.{IsCareful}

-- postEvent() on any dispatcher, for an object of the thread if it is the thread's.
post-Fine :
    (k i o : ℕ) (e : Event) (w : World)
    → IsSound k w
    → (i ≡ k → is_home k w o ≡ true)
    → is_own (record { receiver = o; event = some e }) ≡ true
    → Fine k w (on_dispatcher i (post_event o (some e)) w)
unfolding post_event wake_waiter
post-Fine k i o e w s home own =
    let pair : EventPair = record { receiver = o; event = some e } in
    let q = (w.dispatchers k).event_queue in
    Fine-on k i (post_event o (some e)) w s (λ same.
      ground (arith, home same, s.queued, s.timed, All-append (IsBacked k w) q (pair ∷ [])))

pub start_timer-Fine :
    (k caller o : ℕ) (n : ℤ) (w : World)
    → IsSound k w
    → is_home k w o ≡ true
    → Fine k w (start_timer caller o n w).0
unfolding start_timer is_home
start_timer-Fine k caller o n w s h =
    let (ob, e, home) = home_object k o w h in
    let w1 = record w { next_timer_id = next_int w.next_timer_id } in
    let f1 : Fine k w w1 =
      Fine-of k w w1 s.safe (λ r here h. (refl, h)) s.queued s.timed s.anchored in
    let f = register_timer w.clock w.next_timer_id n o in
    let on = Fine-then k w w1 (on_dispatcher k f w1) f1 (λ s'. Fine-on k k f w1 s' (λ same.
      register_timer-IsTimed k w.clock w.next_timer_id n o w1 (w1.dispatchers k) (f1.1 o refl h).1
        s'.queued s'.timed)) in
    ground (arith, Fine-warn k w s, on)

pub set_name-Fine :
    (k o : ℕ) (name : List ℕ) (w : World)
    → IsSound k w
    → is_home k w o ≡ true
    → Fine k w (set_object_name o name w)
unfolding set_object_name
set_name-Fine k o name w s h =
    let (ob, e, home) = home_object k o w h in
    ground (arith, Fine-put k o ob (record ob { name = name }) w s e refl refl (λ h listed. listed))

module _ (k : ℕ) (code : Code) (set : is_null k ≡ false) (careful : IsCareful k code) where
  pub emission-Fine :
      (caller life box o slot : ℕ) (type : ConnectionType) (w : World)
      → IsSound k w
      → (w.alive life ≡ true → data_dispatcher (w.boxes box) w ≡ k → is_home k w o ≡ true)
      → is_null box ≡ false
      → Fine k w (connect_wrapper code caller life box o slot type w)
  unfolding connect_wrapper dispatch_through_box dispatch_meta_call_to post_or_run run_task
  emission-Fine caller life box o slot type w s home real = elim (Bool-cases (w.alive life)) [
    | inl lives ↦ ground (
      arith,
      Fine-refl k w s,
      Fine-free k w s (some (meta_call (bound_slot life slot))),
      careful.run_Fine slot w s,
      post-Fine k (data_dispatcher (w.boxes box) w) o (meta_call (bound_slot life slot)) w s
          (home lives) refl,
    )
    | inr dead ↦ ground (arith, Fine-refl k w s)
  ]

  pub delete_later-Fine :
      (caller o : ℕ) (w : World)
      → IsSound k w
      → is_home k w o ≡ true
      → Fine k w (delete_later code caller o w)
  unfolding delete_later
  delete_later-Fine caller o w s h =
      let (ob, e, home) = home_object k o w h in
      let w1 = put_object o (record ob { delete_later_posted = true }) w in
      let f1 =
        Fine-put k o ob (record ob { delete_later_posted = true }) w s e refl refl
          (λ c listed. listed) in
      let posted =
        Fine-then k w w1 (on_dispatcher k (post_event o (some deferred_delete)) w1) f1
          (λ s'. post-Fine k k o deferred_delete w1 s' (λ same. (f1.1 o refl h).1) refl) in
      ground (arith, Fine-refl k w s, posted)

  queue_node-Fine :
      (caller context : ℕ) (key : CallLaterKey) (node : ℕ) (w : World)
      → IsSound k w
      → is_home k w context ≡ true
      → Fine k w (queue_node code caller context key node w)
  unfolding queue_node dispatch_meta_call post_or_run
  queue_node-Fine caller context key node w s h =
      let (ob, e, home) = home_object k context w h in
      let call = meta_call (run_later key node ob.life) in
      ground (
        arith,
        post-Fine k k context call w s (λ same. h) refl,
        Fine-pending k w s (erase_pending key w.pending) w.nodes,
      )

  pub call_later-Fine :
      (caller context : ℕ) (key : CallLaterKey) (invoker : ℕ) (w : World)
      → IsSound k w
      → is_home k w context ≡ true
      → Fine k w (schedule_call_later code caller context key invoker w)
  unfolding schedule_call_later is_home
  call_later-Fine caller context key invoker w s h =
      let node = w.next_id + 1 in
      let w1 = record w {
        pending = (key, node) ∷ w.pending;
        nodes = update w.nodes node (some invoker);
        next_id = node;
      } in
      let f1 : Fine k w w1 =
        Fine-of k w w1 s.safe (λ r here hr. (refl, hr)) s.queued s.timed s.anchored in
      let queued =
        Fine-then k w w1 (queue_node code caller context key node w1) f1
          (λ s'. queue_node-Fine caller context key node w1 s' (f1.1 context refl h).1) in
      elim (Option-cases (find_pending key w.pending)) [
        | inl new ↦ ground (arith, Fine-refl k w s, queued)
        | inr (old, seen) ↦
            let nodes = update w.nodes old (some invoker) in
            ground (arith, Fine-refl k w s, Fine-pending k w s w.pending nodes)
      ]
