-- ===== src/Signal/Delivery.antt =====
-- From Object::connect() over the emission of a signal to the receiver's thread (src/Signal.h,
-- src/Object.h).
use qobject_mimic.Base.{
  ℕ, [], ◌∷◌, ◌++◌, some, true, if◌then◌else◌, nullptr, keep_if, ◌≡◌, ◌≢◌, refl, arith, ◌∙◌, ap,
  inr,
}
use qobject_mimic.World.{
  World, Code, Object, Connection, auto_connection, data_thread, data_dispatcher, object_dispatcher,
  object_thread,
}
use qobject_mimic.Event.{bound_slot}
use qobject_mimic.Object.MetaCall.{run_task}
use qobject_mimic.Object.MetaCall.Queued.{queued_call, emission}
use qobject_mimic.Signal.{is_of, Boost, connect, emit}
use qobject_mimic.Signal.Roundtrip.{connected, connection_to, connect-connected, keep_if-append}

module _ {code : Code} (b : Boost code) where
  connected-of :
      (h sig receiver : ℕ) (ob : Object) (c : Connection) (w : World)
      → keep_if (is_of sig) w.connections ≡ []
      → keep_if (is_of sig) (connected h sig receiver ob c w).connections ≡ (h, sig, c) ∷ []
  connected-of h sig receiver ob c w none_yet =
      ground (arith, keep_if-append (is_of sig) w.connections ((h, sig, c) ∷ []))

  -- The first connect() of a signal, automatic, to a living object of another thread than the one
  -- that emits, which has a dispatcher, followed by an emission, puts the call behind the
  -- receiver's life token at the end of the queue of the receiver's thread, where it runs the slot
  -- only if the receiver still lives when it is taken out.
  pub connect_emit :
      (caller sig receiver slot : ℕ) (ob : Object) (w v : World)
      → receiver ≢ nullptr
      → w.heap receiver ≡ some ob
      → w.alive ob.life ≡ true
      → ob.affinity ≢ nullptr
      → object_dispatcher ob w ≢ nullptr
      → caller ≢ object_thread ob w
      → keep_if (is_of sig) w.connections ≡ []
      → let w' = emit b caller sig (connect b sig receiver slot auto_connection w).0 in
        let k = object_dispatcher ob w in
        ((w'.dispatchers k).event_queue
          ≡ (w.dispatchers k).event_queue ++ queued_call receiver (bound_slot ob.life slot) ∷ [])
        × (run_task code (bound_slot ob.life slot) v
            ≡ (if v.alive ob.life then code.run slot v else v))
  unfolding emit object_dispatcher object_thread data_thread data_dispatcher
  connect_emit caller sig receiver slot ob w v set e lives box disp away none_yet =
      let c = connection_to receiver ob slot auto_connection in
      let h = (b.connect sig c w).1 in
      let w1 = connected h sig receiver ob c w in
      let all =
        emission code caller ob.life ob.affinity (w.boxes ob.affinity) receiver slot auto_connection
          w1 v set box refl disp (inr (refl, away)) in
      let emitted =
        ap (λ r. b.invoke caller sig r.0)
          (connect-connected b sig receiver slot auto_connection ob w set e)
        ∙ b.invoke_one caller sig (h, sig, c) w1 (connected-of h sig receiver ob c w none_yet) in
      (
        ap (λ u. (u.dispatchers (object_dispatcher ob w)).event_queue) emitted
            ∙ all.0
            ∙ ap
                (λ t.
                  if t
                  then (w.dispatchers (object_dispatcher ob w)).event_queue
                    ++ queued_call receiver (bound_slot ob.life slot) ∷ []
                  else (w.dispatchers (object_dispatcher ob w)).event_queue)
                lives,
        all.1,
      )
