-- ===== src/Virtual/Backed/Deletes.antt =====
-- processDeferredDeletes() of src/EventDispatcherDefault.cpp over the objects of its thread.
use qobject_mimic.Base.{
  ℕ, zero, suc, ◌<◌, any, List, [], ◌∷◌, Option, none, some, true, false, is_null, ◌≡◌, arith, All,
  All-mono, All-kept, All-remove_if, sym, subst, Bool-cases, Option-cases, inl, inr, contains,
  foldl, ◌||◌,
}
use qobject_mimic.Event.{Event}
use qobject_mimic.Dispatcher.{EventPair, take_deferred_deletes, is_deferred_pair}
use qobject_mimic.World.{World, Code, free_event}
use qobject_mimic.Loop.{
  Host, Pass, delete_one, delete_round, delete_rounds, process_deferred_deletes,
}
use qobject_mimic.Loop.Deferred.{break_clean}
use qobject_mimic.Virtual.{host, event}
use qobject_mimic.Virtual.Backed.{is_home, is_own, IsBacked, IsSound, Fine-free, Fine-set}
use qobject_mimic.Virtual.Backed.Delivery.{IsCareful}
use qobject_mimic.Virtual.Backed.Destruction.{event-Stays}

-- A pair can be dispatched in the state of the loop.
abbrev IsDue : ℕ → Pass World → EventPair → Type 0
IsDue k p ep =
    (contains ep.receiver p.deleted ≡ false → is_home k p.world ep.receiver ≡ true)
    × (is_own ep ≡ true)

-- A round of the loop that leaves the state sound, and every pair that it could dispatch, so.
abbrev Goes : ℕ → Pass World → Pass World → Type 0
Goes k p q = IsSound k q.world × ((ep : EventPair) → IsDue k p ep → IsDue k q ep)

module _ (code : Code) (caller k : ℕ) (wait : Option ℕ → World → World) (platform : World → World)
    (set : is_null k ≡ false) (careful : IsCareful k code) where
  abbrev here : Host World
  here = host code caller k wait platform

  free-Goes :
      (e : Option Event) (p : Pass World)
      → IsSound k p.world
      → Goes k p (record p { world = free_event e p.world })
  unfolding is_home
  free-Goes e p s = ((Fine-free k p.world s e).0, λ ep due. due)

  delete_one_skips :
      (p : Pass World) (ep : EventPair) (e : Event)
      → ep.event ≡ some e
      → (is_null ep.receiver || contains ep.receiver p.deleted) ≡ true
      → delete_one here p ep ≡ record p { world = free_event (some e) p.world }
  unfolding delete_one host
  delete_one_skips p ep e same skip = ground arith

  delete_one_delivers :
      (p : Pass World) (ep : EventPair) (e : Event)
      → ep.event ≡ some e
      → (is_null ep.receiver || contains ep.receiver p.deleted) ≡ false
      → delete_one here p ep ≡ record p {
        world = free_event (some e) (event code caller ep.receiver (some e) p.world).0;
        deleted = ep.receiver ∷ p.deleted;
      }
  unfolding delete_one host
  delete_one_delivers p ep e same go = ground arith

  delete_one_empty :
      (p : Pass World) (ep : EventPair)
      → ep.event ≡ none
      → delete_one here p ep ≡ record p { world = free_event none p.world }
  unfolding delete_one host
  delete_one_empty p ep e = ground arith

  deliver-Goes :
      (p : Pass World) (ep : EventPair) (e : Event)
      → IsSound k p.world
      → IsDue k p ep
      → ep.event ≡ some e
      → (is_null ep.receiver || contains ep.receiver p.deleted) ≡ false
      → Goes k p (record p {
        world = free_event (some e) (event code caller ep.receiver (some e) p.world).0;
        deleted = ep.receiver ∷ p.deleted;
      })
  unfolding is_home
  deliver-Goes p ep e s due same go =
      let pair : EventPair = record { receiver = ep.receiver; event = some e } in
      let v = (event code caller ep.receiver (some e) p.world).0 in
      let own : is_own pair ≡ true = ground arith in
      let home : is_home k p.world ep.receiver ≡ true = due.0 (ground arith) in
      let f =
        event-Stays k code caller set careful ep.receiver e p.world (ground arith) s home own in
      (
        (Fine-free k v f.0 (some e)).0,
        λ x ready. (λ left. (f.1 x.receiver (ground arith) (ready.0 (ground arith))).1, ready.1),
      )

  delete_one-Goes :
      (p : Pass World) (ep : EventPair)
      → IsSound k p.world
      → IsDue k p ep
      → Goes k p (delete_one here p ep)
  delete_one-Goes p ep s due = elim (Option-cases ep.event) [
    | inl e ↦ subst (Goes k p) (sym (delete_one_empty p ep e)) (free-Goes none p s)
    | inr (e, same) ↦ elim (Bool-cases (is_null ep.receiver || contains ep.receiver p.deleted)) [
      | inl skip ↦
          subst (Goes k p) (sym (delete_one_skips p ep e same skip)) (free-Goes (some e) p s)
      | inr go ↦
          subst (Goes k p) (sym (delete_one_delivers p ep e same go))
            (deliver-Goes p ep e s due same go)
    ]
  ]

  deletes-IsSound :
      (eps : List EventPair) (p : Pass World)
      → IsSound k p.world
      → All (IsDue k p) eps
      → IsSound k (foldl (delete_one here) p eps).world
  deletes-IsSound [] p s due = s
  deletes-IsSound (ep ∷ eps) p s due =
      let q = delete_one here p ep in
      let f = delete_one-Goes p ep s due.0 in
      deletes-IsSound eps q f.0 (All-mono (IsDue k p) (IsDue k q) eps f.1 due.1)

  -- What a round starts to deliver on.
  abbrev opened : Pass World → Pass World
  opened p = record p {
    world = here.set_dispatcher (take_deferred_deletes (here.dispatcher p.world)).0 p.world;
  }

  opened-IsSound :
      (p : Pass World)
      → IsSound k p.world
      → IsSound k (opened p).world
        × All (IsDue k (opened p)) (take_deferred_deletes (here.dispatcher p.world)).1
  unfolding host take_deferred_deletes is_home
  opened-IsSound p s =
      let d = p.world.dispatchers k in
      let left = All-remove_if (IsBacked k p.world) is_deferred_pair d.event_queue s.queued in
      (
        (Fine-set k (take_deferred_deletes d).0 p.world s left s.timed).0,
        All-kept (IsBacked k p.world) (IsDue k (opened p)) is_deferred_pair d.event_queue
            (λ ep picked b. (λ none_yet. b.0, b.1)) s.queued,
      )

  round_some :
      (p q : Pass World)
      → delete_round here p ≡ some q
      → foldl (delete_one here) (opened p) (take_deferred_deletes (here.dispatcher p.world)).1 ≡ q
  unfolding delete_round
  round_some p q e = ground arith

  delete_round-IsSound :
      (p q : Pass World) → delete_round here p ≡ some q → IsSound k p.world → IsSound k q.world
  delete_round-IsSound p q e s =
      let (s', due) = opened-IsSound p s in
      let eps = (take_deferred_deletes (here.dispatcher p.world)).1 in
      subst (λ x. IsSound k x.world) (round_some p q e) (deletes-IsSound eps (opened p) s' due)

  delete_rounds_safe :
      (measure : World → ℕ)
      → ((p q : Pass World)
          → IsSound k p.world
          → delete_round here p ≡ some q
          → measure q.world < measure p.world)
      → (fuel : ℕ) (p : Pass World) → IsSound k p.world
      → measure p.world < fuel
      → (v : World) × (delete_rounds here fuel p ≡ some v)
        × IsSound k v
        × (any is_deferred_pair (v.dispatchers k).event_queue ≡ false)
  unfolding delete_rounds host
  delete_rounds_safe measure falls zero p s m = absurd (omega arith)
  delete_rounds_safe measure falls (suc fuel) p s m = elim (Option-cases (delete_round here p)) [
    | inl stop ↦ (p.world, rw (stop, delete_rounds), s, break_clean here p stop)
    | inr (q, go) ↦
        rw (go, delete_rounds)
          (delete_rounds_safe measure falls fuel q (delete_round-IsSound p q go s)
            (omega (arith, falls p q s go)))
  ]

  -- Let everything that the dispatcher of a thread holds be for objects that live in the thread,
  -- no access to a destroyed object have happened, objects list connections of their own only, and
  -- the user's code be careful in the sense of process_events_safe, by which the destructors of
  -- the objects' classes return, so that the loop of a Thread does not delete that Thread. If each
  -- round that finds a deferred delete in such a state lowers some measure of the world, then with
  -- more rounds allowed than the measure processDeferredDeletes() ends, in such a state, with no
  -- deferred delete left in the queue.
  pub process_deferred_deletes_safe :
      (measure : World → ℕ)
      → ((p q : Pass World)
          → IsSound k p.world
          → delete_round here p ≡ some q
          → measure q.world < measure p.world)
      → (fuel : ℕ) (w : World) → IsSound k w
      → measure w < fuel
      → (v : World) × (process_deferred_deletes here fuel w ≡ some v)
        × IsSound k v
        × (any is_deferred_pair (v.dispatchers k).event_queue ≡ false)
  unfolding process_deferred_deletes host
  process_deferred_deletes_safe measure falls fuel w s m =
      delete_rounds_safe measure falls fuel (record { world = w; deleted = []; processed = false })
        s m
