-- ===== src/Object/CallLater.antt =====
-- callLater() and scheduleCallLater(): deferred calls, one pending for each key.
pub mod Dedup
use qobject_mimic.Base.{
  ℕ, ◌+◌, List, [], ◌∷◌, Option, none, some, Bool, true, false, if◌then◌else◌, is_null, update,
}
use qobject_mimic.Key.{CallLaterKey, key_eq}
use qobject_mimic.Event.{Task, run_later}
use qobject_mimic.World.{World, Code, Object, queued_connection, faulted}
use qobject_mimic.Object.MetaCall.{dispatch_meta_call, erase_pending}

-- `pending.find( aKey )`.
unfoldable pub find_pending : CallLaterKey → List (CallLaterKey × ℕ) → Option ℕ
find_pending key [] = none
find_pending key ((k, node) ∷ entries) =
    let rest = find_pending key entries in if key_eq k key then some node else rest

module _ (code : Code) where
  -- The second half, for a node that was just made: the metacall is queued, and if that fails the
  -- entry is taken out again.
  unfoldable pub queue_node : ℕ → ℕ → CallLaterKey → ℕ → World → World
  queue_node caller context key node w = elim (w.heap context) [
    | none ↦ faulted w
    | some ob ↦
        let (w', done) =
          dispatch_meta_call code caller context (run_later key node ob.life) queued_connection w in
        if done then w' else record w' { pending = erase_pending key w'.pending }
  ]

  -- scheduleCallLater().
  unfoldable pub schedule_call_later : ℕ → ℕ → CallLaterKey → ℕ → World → World
  unfolding queue_node
  schedule_call_later caller context key invoker w =
      if is_null context then w else elim (find_pending key w.pending) [
        | some node ↦ record w { nodes = update w.nodes node (some invoker) }
        | none ↦
            let node = w.next_id + 1 in
            queue_node caller context key node (record w {
              pending = (key, node) ∷ w.pending;
              nodes = update w.nodes node (some invoker);
              next_id = node;
            })
      ]

  -- callLater() for a member function, a function or a signal: the callable's type, size and bytes
  -- make the key.
  unfoldable pub call_later : ℕ → ℕ → ℕ → ℕ → List ℕ → ℕ → World → World
  unfolding schedule_call_later
  call_later caller context type_hash target_size target_bytes invoker w =
      schedule_call_later caller context
        (record {
          context = context;
          type_hash = type_hash;
          target_size = target_size;
          target_bytes = target_bytes;
        })
        invoker w
