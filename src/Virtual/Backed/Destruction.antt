-- ===== src/Virtual/Backed/Destruction.antt =====
-- ~Timer(), ~Object() and event() of src/Object.cpp on an object of the thread.
use qobject_mimic.Base.{
  Bool-cases, ℕ, some, true, false, is_null, ◌==◌, ◌≡◌, refl, arith, All-left, Option-cases, inl,
  inr, ◌∙◌, remove_if, ◌&&◌,
}
use qobject_mimic.Event.{Event, meta_call, timer, deferred_delete, is_deferred_delete}
use qobject_mimic.Dispatcher.{remove_events_for_receiver}
use qobject_mimic.World.{
  World, Code, Object, TimerFields, object_dispatcher, data_dispatcher, on_dispatcher,
}
use qobject_mimic.Object.Lifetime.{destroy_object, wind_down, release}
use qobject_mimic.Timer
use qobject_mimic.Virtual.{event, delete_this}
use qobject_mimic.Virtual.Backed.{
  IsAnchored, box_of, is_home, is_own, IsBacked, IsTimed, IsSound, Stays, Stays-trans, Fine,
}
use qobject_mimic.Virtual.Backed.Operations.{home_object, stop-Fine}
use qobject_mimic.Virtual.Backed.Delivery.{
  IsCareful, run_task-Fine, timer_event-Fine, wind_down-Fine,
}

-- The step destroys the object at `o`, and no other of the thread.
abbrev pub Destroys : ℕ → ℕ → World → World → Type 0
Destroys k o w v = IsSound k v × Stays k (λ r. r == o) w v

module _ (k : ℕ) (code : Code) where
  release-home :
      (o r : ℕ) (ob : Object) (w : World)
      → (r == o) ≡ false
      → (box_of r (release code o ob w) ≡ box_of r w)
        × (is_home k (release code o ob w) r ≡ is_home k w r)
  unfolding release on_dispatcher is_home data_dispatcher
  release-home o r ob w ne = ground arith

  release-lists :
      (o : ℕ) (ob : Object) (w : World)
      → is_null k ≡ false
      → is_null o ≡ false
      → is_home k w o ≡ true
      → box_of o w ≡ some ob.affinity
      → (((release code o ob w).dispatchers k).event_queue
          ≡ remove_if (λ ep. ep.receiver == o) (w.dispatchers k).event_queue)
        × (((release code o ob w).dispatchers k).timers
            ≡ remove_if (λ t. t.receiver == o) (w.dispatchers k).timers)
        × ((release code o ob w).fault ≡ w.fault)
  unfolding release on_dispatcher is_home data_dispatcher object_dispatcher
      remove_events_for_receiver
  release-lists o ob w set real h b = ground arith

  release-IsAnchored :
      (o : ℕ) (ob : Object) (w : World) → IsAnchored w → IsAnchored (release code o ob w)
  unfolding release on_dispatcher
  release-IsAnchored o ob w a r rob e = elim (Bool-cases (o == r)) [
    | inl same ↦ absurd (ground arith)
    | inr apart ↦ ground (arith, a r rob)
  ]

  release-Destroys :
      (o : ℕ) (ob : Object) (w : World)
      → is_null k ≡ false
      → is_null o ≡ false
      → IsSound k w
      → is_home k w o ≡ true
      → box_of o w ≡ some ob.affinity
      → Destroys k o w (release code o ob w)
  release-Destroys o ob w set real s h b =
      let v = release code o ob w in
      let (q, t, f) = release-lists o ob w set real h b in
      (
        record {
          safe = f ∙ s.safe;
          anchored = release-IsAnchored o ob w s.anchored;
          queued = rw q (
              All-left (IsBacked k w) (IsBacked k v) (λ ep. ep.receiver == o)
                (w.dispatchers k).event_queue
                (λ ep ne p. ((release-home o ep.receiver ob w ne).1 ∙ p.0, p.1)) s.queued);
          timed = rw t (
              All-left (IsTimed k w) (IsTimed k v) (λ t. t.receiver == o) (w.dispatchers k).timers
                (λ t ne p. (release-home o t.receiver ob w ne).1 ∙ p) s.timed);
        },
        λ r ne p. ((release-home o r ob w ne).0, (release-home o r ob w ne).1 ∙ p),
      )

  Destroys-after :
      (o : ℕ) (u v w : World) → Fine k u v → (IsSound k v → Destroys k o v w) → Destroys k o u w
  Destroys-after o u v w f g =
      let h = g f.0 in (h.0, Stays-trans k (λ r. r == o) u v w (λ r ne here. f.1 r refl here) h.1)

  -- The thread `caller`, with a dispatcher that is not null and careful code.
  module _ (caller : ℕ) (set : is_null k ≡ false) (careful : IsCareful k code) where
    destroy_object-Destroys :
        (o : ℕ) (w : World)
        → is_null o ≡ false
        → IsSound k w
        → is_home k w o ≡ true
        → Destroys k o w (destroy_object code caller o w)
    unfolding destroy_object
    destroy_object-Destroys o w real s h =
        let (ob, e, home) = home_object k o w h in
        let v = wind_down code caller o ob w in
        let f = wind_down-Fine k code careful caller o ob w s h e in
        let here : box_of o w ≡ some ob.affinity = ground arith in
        let gone =
          Destroys-after o w v (release code o ob v) f (λ s'.
            release-Destroys o ob v set real s' (f.1 o refl h).1 ((f.1 o refl h).0 ∙ here)) in
        ground (arith, gone)

    -- The destructor of `timeout`, and ~Object().
    member-Destroys :
        (o : ℕ) (w : World)
        → is_null o ≡ false
        → IsSound k w
        → is_home k w o ≡ true
        → Destroys k o w (destroy_object code caller o (code.destroy_timeout o w))
    member-Destroys o w real s h =
        let v = code.destroy_timeout o w in
        let f = careful.destroy_timeout_Fine o w s in
        Destroys-after o w v (destroy_object code caller o v) f
          (λ s'. destroy_object-Destroys o v real s' (f.1 o refl h).1)

    destroy_timer-Destroys :
        (o : ℕ) (f : TimerFields) (w : World)
        → is_null o ≡ false
        → IsSound k w
        → is_home k w o ≡ true
        → Timer.timer_fields o w ≡ some f
        → Destroys k o w (Timer.destroy_timer code caller o w)
    unfolding Timer.destroy_timer
    destroy_timer-Destroys o f w real s h e =
        let v = Timer.stop caller o w in
        let stopped = stop-Fine k caller o f w s h e in
        let after =
          Destroys-after o w v (destroy_object code caller o (code.destroy_timeout o v)) stopped
            (λ s'. member-Destroys o v real s' (stopped.1 o refl h).1) in
        ground (arith, member-Destroys o w real s h, after)

    destructor-home :
        (o : ℕ) (w : World)
        → IsSound k w
        → is_home k w o ≡ true
        → Fine k w (code.destructor o w) × (is_home k (code.destructor o w) o ≡ true)
    destructor-home o w s h = let f = careful.destructor_Fine o w s h in (f, (f.1 o refl h).1)

    delete_this-Destroys :
        (o : ℕ) (w : World)
        → is_null o ≡ false
        → IsSound k w
        → is_home k w o ≡ true
        → Destroys k o w (delete_this code caller o w)
    unfolding delete_this Timer.timer_fields
    delete_this-Destroys o w real s h =
        let (ob, e, home) = home_object k o w h in
        let v = code.destructor o w in
        let (first, still) = destructor-home o w s h in
        elim (Option-cases ob.timer) [
          | inl none_ ↦ ground (
            arith,
            Destroys-after o w v (destroy_object code caller o v) first
                (λ s'. destroy_object-Destroys o v real s' still),
          )
          | inr (f, some_) ↦
              let is_timer : Timer.timer_fields o w ≡ some f = ground arith in
              let (g, kept) = careful.destructor_timer o f w s is_timer in
              ground (
                arith,
                Destroys-after o w v (Timer.destroy_timer code caller o v) first
                    (λ s'. destroy_timer-Destroys o g v real s' still kept),
              )
        ]

    -- event() for a queued event of the object destroys nothing but the object itself, and that
    -- only for a deferred delete.
    pub event-Stays :
        (o : ℕ) (e : Event) (w : World)
        → is_null o ≡ false
        → IsSound k w
        → is_home k w o ≡ true
        → is_own (record { receiver = o; event = some e }) ≡ true
        → IsSound k (event code caller o (some e) w).0
          × Stays k (λ r. is_deferred_delete e && (o == r)) w (event code caller o (some e) w).0
    unfolding event
    event-Stays o (meta_call t) w real s h own = run_task-Fine k code careful o t w s h own
    event-Stays o (timer i) w real s h own = timer_event-Fine k code careful caller o i w s h
    event-Stays o deferred_delete w real s h own =
        let gone = delete_this-Destroys o w real s h in
        (gone.0, λ r ne here. gone.1 r (ground arith) here)
