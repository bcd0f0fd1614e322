-- ===== src/Examples/Signals.antt =====
-- A signal library that meets the interface, and the theorems on connections at concrete inputs.
use qobject_mimic.Base.{
  none, ℕ, ◌+◌, ◌<◌, ◌≤◌, List, [], ◌∷◌, ◌++◌, some, false, ◌≡◌, refl, arith, any, ◌==◌, is_null,
  if◌then◌else◌, keep_if, remove_if, ltb, ap,
}
use qobject_mimic.World.{
  World, Code, auto_connection, queued_connection, data_thread, data_dispatcher, object_thread,
  object_dispatcher,
}
use qobject_mimic.Event.{bound_slot}
use qobject_mimic.Object.MetaCall.{connect_wrapper}
use qobject_mimic.Object.MetaCall.Queued.{queued_call}
use qobject_mimic.Signal.{Entry, Boost, has_handle, is_of, destroy_slots, connect, disconnect, emit}
use qobject_mimic.Signal.Roundtrip.{connect_disconnect, connection_to}
use qobject_mimic.Signal.Delivery.{connect_emit}
use qobject_mimic.Signal.Linked.{IsLinked}
use qobject_mimic.Signal.Linked.Runs.{
  makes, connects, disconnects, destroys, act_all, act_all-IsLinked,
}
use qobject_mimic.Examples.Sample.{sample, sample_code, plain_object, call_pair, delete_pair}

-- A handle above every handle in use.
abbrev pub next_handle : List Entry → ℕ
next_handle [] = 1
next_handle (e ∷ es) = let n = next_handle es in if ltb e.0 n then n else e.0 + 1

next_handle-fresh : (n : ℕ) (es : List Entry) → next_handle es ≤ n → any (has_handle n) es ≡ false
next_handle-fresh n [] h = refl
next_handle-fresh n (e ∷ es) h = ground (arith, next_handle-fresh n es)

next_handle-positive : (es : List Entry) → 0 < next_handle es
next_handle-positive [] = ground arith
next_handle-positive (e ∷ es) = ground (arith, next_handle-positive es)

pub next_handle-set : (es : List Entry) → is_null (next_handle es) ≡ false
next_handle-set es = ground (arith, next_handle-positive es)

pub next_handle-new : (es : List Entry) → any (has_handle (next_handle es)) es ≡ false
next_handle-new es = next_handle-fresh (next_handle es) es (ground arith)

abbrev pub boost_disconnect : ℕ → World → World
boost_disconnect h w =
    destroy_slots (keep_if (has_handle h) w.connections)
      (record w { connections = remove_if (has_handle h) w.connections })

abbrev pub boost_code : Code
boost_code = record sample_code { disconnect = boost_disconnect }

abbrev pub invoke_each : ℕ → List Entry → World → World
invoke_each caller [] w = w
invoke_each caller (e ∷ es) w =
    invoke_each caller es
      (connect_wrapper boost_code caller e.2.life e.2.box e.2.receiver e.2.slot e.2.type w)

abbrev pub sample_boost : Boost boost_code
sample_boost = record {
  connect = λ sig c w. (
    record w { connections = w.connections ++ (next_handle w.connections, sig, c) ∷ [] },
    next_handle w.connections,
  );
  connect_lem = λ sig c w. refl;
  handle_set = λ sig c w. next_handle-set w.connections;
  handle_fresh = λ sig c w. next_handle-new w.connections;
  disconnect_lem = λ h w. refl;
  invoke = λ caller sig w. invoke_each caller (keep_if (is_of sig) w.connections) w;
  invoke_none = λ caller sig w e. ap (λ es. invoke_each caller es w) e;
  invoke_one = λ caller sig e w h. ap (λ es. invoke_each caller es w) h;
}

-- A slot of the object at 5 on the signal 90, of an emitter on the second thread.
abbrev one_connection : World
one_connection = record sample {
  heap = λ o. if o == 5 then some (record plain_object { incoming = 1 ∷ [] }) else sample.heap o;
  connections = (1, 90, connection_to 5 plain_object 4 auto_connection) ∷ [];
}

connect_disconnect_example :
    let r = connect sample_boost 90 5 6 queued_connection one_connection in
    (disconnect boost_code r.1 r.0).connections ≡ one_connection.connections
connect_disconnect_example =
    (connect_disconnect sample_boost 90 5 6 6 queued_connection
      (record plain_object { incoming = 1 ∷ [] }) one_connection (ground arith) (ground arith) refl
      refl (refl, tt)).0

connect_emit_example :
    ((emit sample_boost 2 90 (connect sample_boost 90 5 4 auto_connection sample).0).dispatchers
      21).event_queue
    ≡ call_pair ∷ delete_pair ∷ queued_call 5 (bound_slot 41 4) ∷ []
unfolding object_thread data_thread object_dispatcher data_dispatcher
connect_emit_example =
    (connect_emit sample_boost 2 90 5 4 plain_object sample sample (ground arith) refl refl
      (ground arith) (ground arith) (ground arith) refl).0

-- Two objects are made, connected to one signal, and the first connection and the second object go.
abbrev bare_world : World
bare_world = record sample { heap = λ o. none }

act_all-IsLinked_example : IsLinked (
    act_all sample_boost
      (makes 1 5 none
        ∷ makes 1 6 none
        ∷ connects 90 5 4 auto_connection
        ∷ connects 90 6 4 queued_connection
        ∷ disconnects 1
        ∷ destroys 1 6
        ∷ [])
      bare_world)
act_all-IsLinked_example =
    act_all-IsLinked sample_boost
      (makes 1 5 none
        ∷ makes 1 6 none
        ∷ connects 90 5 4 auto_connection
        ∷ connects 90 6 4 queued_connection
        ∷ disconnects 1
        ∷ destroys 1 6
        ∷ [])
      bare_world (λ n v. (refl, refl, refl, refl))
      (record { owned = tt; linked = λ o. tt; apart = λ o p far. refl })
