-- ===== src/Object/Lifetime.antt =====
-- Construction, connections received, cleanup callbacks, and ~Object().
pub mod Destroyed
use qobject_mimic.Base.{
  ℕ, ◌+◌, List, [], ◌∷◌, ◌++◌, Option, none, some, Bool, true, false, ◌&&◌, not, if◌then◌else◌,
  is_null, nullptr, ◌==◌, update, remove_if,
}
use qobject_mimic.Key.{CallLaterKey}
use qobject_mimic.Dispatcher.{remove_events_for_receiver}
use qobject_mimic.World.{
  World, Code, Object, TimerFields, ThreadData, object_dispatcher, on_dispatcher, faulted, warn,
  put_object, affinity_data,
}
use qobject_mimic.Object.Affinity.{thread_data_of}

-- Object(), at the address `o` that the allocator gave; `caller` is null only while the calling
-- thread is being adopted.
unfoldable pub construct : ℕ → ℕ → Option TimerFields → World → World
unfolding thread_data_of
construct caller o timer w =
    let life = w.next_id + 1 in
    let box = w.next_id + 2 in
    record w {
      heap = update w.heap o (
          some (record {
            life = life;
            affinity = box;
            delete_later_posted = false;
            name = [];
            cleanup_callbacks = [];
            incoming = [];
            timer = timer;
          }));
      alive = update w.alive life true;
      boxes = update w.boxes box (thread_data_of caller w);
      next_id = box;
    }

-- trackIncoming() for a Cleanup whose owner is `o`.
unfoldable pub track_incoming : ℕ → ℕ → World → World
track_incoming o handle w = if is_null o then w else elim (w.heap o) [
  | none ↦ faulted w
  | some ob ↦ put_object o (record ob { incoming = ob.incoming ++ handle ∷ [] }) w
]

-- ~Cleanup(), for a connection to `o` made while its life token was `life`.
unfoldable pub destroy_cleanup : ℕ → ℕ → ℕ → World → World
destroy_cleanup o life handle w =
    if w.alive life
    then elim (w.heap o) [
      | none ↦ faulted w
      | some ob ↦ put_object o (record ob { incoming = remove_if (λ c. c == handle) ob.incoming }) w
    ]
    else w

-- addCleanupCallback().
unfoldable pub add_cleanup_callback : ℕ → ℕ → World → World
add_cleanup_callback o callback w = elim (w.heap o) [
  | none ↦ faulted w
  | some ob ↦
      put_object o (record ob { cleanup_callbacks = ob.cleanup_callbacks ++ callback ∷ [] }) w
]

-- The diagnostic at the start of ~Object().
unfoldable pub check_thread : ℕ → Object → World → World
check_thread caller ob w =
    let a = affinity_data ob w in
    if not (is_null a) && ((w.datas a).running && not ((w.datas a).thread == caller))
    then warn w
    else w

-- `incoming.swap( mIncoming )` and `callbacksToRun.swap( mCleanupCallbacks )`.
unfoldable pub take_incoming : ℕ → World → World × List ℕ
take_incoming o w = elim (w.heap o) [
  | none ↦ (faulted w, [])
  | some ob ↦ (put_object o (record ob { incoming = [] }) w, ob.incoming)
]

unfoldable pub take_callbacks : ℕ → World → World × List ℕ
take_callbacks o w = elim (w.heap o) [
  | none ↦ (faulted w, [])
  | some ob ↦ (put_object o (record ob { cleanup_callbacks = [] }) w, ob.cleanup_callbacks)
]

-- The loop over CallLaterRegistry::sPending.
abbrev pub forget_pending : ℕ → List (CallLaterKey × ℕ) → List (CallLaterKey × ℕ)
forget_pending o = remove_if (λ entry. entry.0.context == o)

module _ (code : Code) where
  unfoldable pub disconnect_all : List ℕ → World → World
  disconnect_all [] w = w
  disconnect_all (c ∷ cs) w = disconnect_all cs (code.disconnect c w)

  unfoldable pub run_callbacks : List ℕ → World → World
  run_callbacks [] w = w
  run_callbacks (c ∷ cs) w = run_callbacks cs (code.run c w)

  -- The part of ~Object() that runs other code: the life token ends, the connections received are
  -- cut, and the callbacks run.
  unfoldable pub wind_down : ℕ → ℕ → Object → World → World
  wind_down caller o ob w =
      let w1 = check_thread caller ob w in
      let (w2, handles) = take_incoming o (record w1 { alive = update w1.alive ob.life false }) in
      let (w3, callbacks) = take_callbacks o (disconnect_all handles w2) in
      run_callbacks callbacks w3

  -- The rest: the registry and the dispatcher forget the object, and its memory goes.
  unfoldable pub release : ℕ → Object → World → World
  release o ob w =
      let w1 = record w { pending = forget_pending o w.pending } in
      let k = object_dispatcher ob w1 in
      let w2 = if is_null k then w1 else on_dispatcher k (remove_events_for_receiver o) w1 in
      record w2 { heap = update w2.heap o none }

  -- ~Object() and the end of its memory.
  unfoldable pub destroy_object : ℕ → ℕ → World → World
  destroy_object caller o w = elim (w.heap o) [
    | none ↦ faulted w
    | some ob ↦ release o ob (wind_down caller o ob w)
  ]
