-- ===== src/Object/CallLater/Dedup.antt =====
-- scheduleCallLater() of src/Object.cpp, for a first call, a second one, and one that is lost.
use qobject_mimic.Base.{
  ℕ, ◌+◌, List, [], ◌∷◌, ◌++◌, none, some, true, if◌then◌else◌, nullptr, update, ◌≡◌, refl, ◌≢◌,
  arith, ap, ◌∙◌, update_self,
}
use qobject_mimic.Key.{CallLaterKey, key_eq}
use qobject_mimic.Event.{meta_call, run_later}
use qobject_mimic.Dispatcher.{post_event}
use qobject_mimic.World.{World, Code, Object, object_dispatcher, on_dispatcher}
use qobject_mimic.Object.MetaCall.{dispatch_meta_call, erase_pending, run_call_later}
use qobject_mimic.Object.CallLater.{find_pending, schedule_call_later}

erase_pending_of_none :
    (key : CallLaterKey) (entries : List (CallLaterKey × ℕ))
    → find_pending key entries ≡ none
    → erase_pending key entries ≡ entries
unfolding find_pending
erase_pending_of_none key [] h = refl
erase_pending_of_none key ((k, n) ∷ entries) h = ground (arith, erase_pending_of_none key entries)

find_pending-erase :
    (key : CallLaterKey) (entries : List (CallLaterKey × ℕ))
    → find_pending key (erase_pending key entries) ≡ none
unfolding find_pending
find_pending-erase key [] = refl
find_pending-erase key ((k, n) ∷ entries) = ground (arith, find_pending-erase key entries)

schedule_again :
    (code : Code) (caller context : ℕ) (key : CallLaterKey) (invoker : ℕ) (w : World) (node : ℕ)
    → context ≢ nullptr
    → find_pending key w.pending ≡ some node
    → schedule_call_later code caller context key invoker w
      ≡ record w { nodes = update w.nodes node (some invoker) }
unfolding schedule_call_later
schedule_again code caller context key invoker w node set found = ground arith

find_pending-cons :
    (key again : CallLaterKey) (node : ℕ) (entries rest : List (CallLaterKey × ℕ))
    → key_eq key again ≡ true
    → entries ≡ (key, node) ∷ rest
    → find_pending again entries ≡ some node
unfolding find_pending
find_pending-cons key again node entries rest same e = ground arith

-- What is common to the statements: an object at `context`, and a key that is not pending.
module _ (code : Code) (caller context invoker : ℕ) (key : CallLaterKey) (w : World) (ob : Object)
    (set : context ≢ nullptr) (object : w.heap context ≡ some ob)
    (fresh : find_pending key w.pending ≡ none) (self : key_eq key key ≡ true) where
  -- The first call for a key, when the object's thread has a dispatcher: the metacall is queued
  -- last, the key is pending, and its node holds the invoker.
  pub schedule_first :
      object_dispatcher ob w ≢ nullptr
      → let w' = schedule_call_later code caller context key invoker w in
        let k = object_dispatcher ob w in
        let node = w.next_id + 1 in
        (w'.pending ≡ (key, node) ∷ w.pending)
        × (w'.nodes node ≡ some invoker)
        × ((w'.dispatchers k).event_queue
            ≡ (w.dispatchers k).event_queue
              ++ record {
                receiver = context;
                event = some (meta_call (run_later key node ob.life));
              }
                ∷ [])
  unfolding schedule_call_later dispatch_meta_call object_dispatcher on_dispatcher post_event
      find_pending
  schedule_first d = ground arith

  -- A second call for an equal key before the metacall has run: nothing more is queued on any
  -- dispatcher and nothing more is pending, and its invoker takes the place of the first one's.
  -- When the metacall then runs in a world whose node is still that one, the key is not pending
  -- any more, the node is empty, and exactly the second invoker runs, if the object still lives.
  pub schedule_twice :
      (again : CallLaterKey) (second : ℕ) (v : World)
      → object_dispatcher ob w ≢ nullptr
      → key_eq key again ≡ true
      → (let node = w.next_id + 1 in v.nodes node ≡ some second)
      → let w' = schedule_call_later code caller context key invoker w in
        let w'' = schedule_call_later code caller context again second w' in
        let node = w.next_id + 1 in
        let left = record v {
          pending = erase_pending key v.pending;
          nodes = update v.nodes node none;
        } in
        (w''.pending ≡ w'.pending)
        × (w''.dispatchers ≡ w'.dispatchers)
        × (w''.nodes node ≡ some second)
        × (run_call_later code key node ob.life v
            ≡ (if v.alive ob.life then code.run second left else left))
        × (find_pending key left.pending ≡ none)
  unfolding run_call_later
  schedule_twice again second v d same held =
      let w' = schedule_call_later code caller context key invoker w in
      let node = w.next_id + 1 in
      let found = find_pending-cons key again node w'.pending w.pending same (schedule_first d).0 in
      let next = schedule_again code caller context again second w' node set found in
      (
        ap (λ u. u.pending) next,
        ap (λ u. u.dispatchers) next,
        ap (λ u. u.nodes node) next ∙ update_self w'.nodes node (some second),
        ground arith,
        find_pending-erase key v.pending,
      )

  -- A call for an object whose thread has no dispatcher: the call is lost, but the registry is as
  -- it was, so that a later call for the key is queued as a first one.
  pub schedule_lost :
      object_dispatcher ob w ≡ nullptr
      → let w' = schedule_call_later code caller context key invoker w in
        (w'.pending ≡ w.pending)
        × (find_pending key w'.pending ≡ none)
        × (w'.dispatchers ≡ w.dispatchers)
  unfolding schedule_call_later dispatch_meta_call object_dispatcher find_pending
  schedule_lost d = ground (arith, erase_pending_of_none key w.pending fresh)
