-- ===== src/Object/MetaCall/Queued.antt =====
-- Where dispatchMetaCallTo() and the connect() wrappers run a slot, and what they queue.
use qobject_mimic.Base.{
  ℕ, ◌==◌, ◌&&◌, not, [], ◌∷◌, ◌++◌, some, true, false, if◌then◌else◌, is_null, nullptr, ◌≡◌, refl,
  ◌≢◌, arith, ◌⊎◌,
}
use qobject_mimic.Event.{Event, meta_call, Task, bound_slot}
use qobject_mimic.Dispatcher.{EventPair, post_event}
use qobject_mimic.World.{
  World, Code, ConnectionType, auto_connection, direct_connection, queued_connection, data_thread,
  data_dispatcher, on_dispatcher, free_event,
}
use qobject_mimic.Object.MetaCall.{
  dispatch_meta_call_to, dispatch_through_box, connect_wrapper, run_task,
}

-- The pair that a queued call puts at the end of a queue.
abbrev pub queued_call : ℕ → Task → EventPair
queued_call receiver slot = record { receiver = receiver; event = some (meta_call slot) }

post_queue :
    (k receiver : ℕ) (e : Event) (w : World)
    → receiver ≢ nullptr
    → ((on_dispatcher k (post_event receiver (some e)) w).dispatchers k).event_queue
      ≡ (w.dispatchers k).event_queue ++ record { receiver = receiver; event = some e } ∷ []
unfolding on_dispatcher post_event
post_queue k receiver e w h = ground arith

pub dispatch_elsewhere :
    (code other : Code) (caller data_ receiver j : ℕ) (slot : Task) (type : ConnectionType)
    (w : World)
    → receiver ≢ nullptr
    → (type ≡ queued_connection) ⊎ ((type ≡ auto_connection) × (caller ≢ data_thread data_ w))
    → let r = dispatch_meta_call_to code caller data_ receiver slot type w in
      let k = data_dispatcher data_ w in
      (r ≡ dispatch_meta_call_to other caller data_ receiver slot type w)
      × (r.1 ≡ (if is_null k then false else true))
      × ((if is_null k then r.0 else w)
          ≡ (if is_null k then free_event (some (meta_call slot)) w else w))
      × ((r.0.dispatchers j).event_queue ≡ (
          if not (is_null k) && (k == j)
          then (w.dispatchers j).event_queue ++ queued_call receiver slot ∷ []
          else (w.dispatchers j).event_queue))
unfolding dispatch_meta_call_to on_dispatcher post_event
dispatch_elsewhere code other caller data_ receiver j slot type w h c =
    (ground arith, ground arith, ground arith, ground arith)

-- A call to the caller's own thread that is not explicitly queued, and any direct one, runs at
-- once on the caller, and is reported delivered.
pub dispatch_here :
    (code : Code) (caller data_ receiver : ℕ) (slot : Task) (type : ConnectionType) (w : World)
    → (type ≡ direct_connection) ⊎ ((type ≡ auto_connection) × (caller ≡ data_thread data_ w))
    → dispatch_meta_call_to code caller data_ receiver slot type w ≡ (run_task code slot w, true)
unfolding dispatch_meta_call_to
dispatch_here code caller data_ receiver slot type w c = ground arith

-- An emission to a receiver on another thread, or over a queued connection, queues the slot behind
-- the receiver's life token on the dispatcher that the affinity box names at that time; when it is
-- taken from the queue the slot runs if the receiver still lives, and nothing happens if not. An
-- emission to a receiver that is gone does nothing.
pub emission :
    (code : Code) (caller life box data_ receiver slot : ℕ) (type : ConnectionType) (w v : World)
    → receiver ≢ nullptr
    → box ≢ nullptr
    → w.boxes box ≡ data_
    → data_dispatcher data_ w ≢ nullptr
    → (type ≡ queued_connection) ⊎ ((type ≡ auto_connection) × (caller ≢ data_thread data_ w))
    → let k = data_dispatcher data_ w in
      (((connect_wrapper code caller life box receiver slot type w).dispatchers k).event_queue ≡ (
        if w.alive life
        then (w.dispatchers k).event_queue ++ queued_call receiver (bound_slot life slot) ∷ []
        else (w.dispatchers k).event_queue))
      × (run_task code (bound_slot life slot) v ≡ (if v.alive life then code.run slot v else v))
unfolding connect_wrapper dispatch_through_box dispatch_meta_call_to run_task
emission code caller life box data_ receiver slot type w v h b e d c = (
  ground
      (arith, post_queue (data_dispatcher data_ w) receiver (meta_call (bound_slot life slot)) w h),
  refl,
)
