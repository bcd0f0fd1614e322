-- ===== src/Virtual/DeleteLater.antt =====
-- Repeated calls of deleteLater() (src/Object.cpp).
use qobject_mimic.Base.{ℕ, List, [], ◌∷◌, ◌++◌, some, true, false, nullptr, ◌≡◌, refl, ◌≢◌, arith}
use qobject_mimic.Event.{deferred_delete}
use qobject_mimic.Dispatcher.{post_event}
use qobject_mimic.World.{World, Code, Object, object_dispatcher, on_dispatcher}
use qobject_mimic.Virtual.{delete_later}

-- A number of calls, one after another, each from a thread of its own.
unfoldable pub delete_later_all : Code → List ℕ → ℕ → World → World
delete_later_all code [] o w = w
delete_later_all code (caller ∷ callers) o w =
    delete_later_all code callers o (delete_later code caller o w)

delete_later_again :
    (code : Code) (caller o : ℕ) (ob : Object) (w : World)
    → w.heap o ≡ some ob
    → ob.delete_later_posted ≡ true
    → delete_later code caller o w ≡ w
unfolding delete_later
delete_later_again code caller o ob w e p = ground arith

delete_later_first :
    (code : Code) (caller o : ℕ) (ob : Object) (w : World)
    → o ≢ nullptr
    → w.heap o ≡ some ob
    → ob.delete_later_posted ≡ false
    → object_dispatcher ob w ≢ nullptr
    → let w' = delete_later code caller o w in
      let k = object_dispatcher ob w in
      ((w'.dispatchers k).event_queue
        ≡ (w.dispatchers k).event_queue
          ++ record { receiver = o; event = some deferred_delete } ∷ [])
      × (w'.heap o ≡ some (record ob { delete_later_posted = true }))
unfolding delete_later on_dispatcher post_event
delete_later_first code caller o ob w set e new has = ground arith

posted_stays :
    (code : Code) (callers : List ℕ) (o : ℕ) (ob : Object) (w : World)
    → w.heap o ≡ some ob
    → ob.delete_later_posted ≡ true
    → delete_later_all code callers o w ≡ w
unfolding delete_later_all
posted_stays code [] o ob w e p = refl
posted_stays code (caller ∷ callers) o ob w e p =
    rw (delete_later_again code caller o ob w e p) (posted_stays code callers o ob w e p)

-- However often and from wherever deleteLater() is called, an object whose thread has a dispatcher
-- gets exactly one deferred delete, behind all that was queued before, and nothing is destroyed.
pub delete_later_once :
    (code : Code) (caller : ℕ) (callers : List ℕ) (o : ℕ) (ob : Object) (w : World)
    → o ≢ nullptr
    → w.heap o ≡ some ob
    → ob.delete_later_posted ≡ false
    → object_dispatcher ob w ≢ nullptr
    → let w' = delete_later_all code (caller ∷ callers) o w in
      let k = object_dispatcher ob w in
      ((w'.dispatchers k).event_queue
        ≡ (w.dispatchers k).event_queue
          ++ record { receiver = o; event = some deferred_delete } ∷ [])
      × (w'.heap o ≡ some (record ob { delete_later_posted = true }))
unfolding delete_later_all
delete_later_once code caller callers o ob w set e new has =
    let first = delete_later_first code caller o ob w set e new has in
    rw
      (posted_stays code callers o (record ob { delete_later_posted = true })
        (delete_later code caller o w) first.1 refl)
      first
