-- ===== src/Virtual/Backed/Exec.antt =====
-- exec() of src/Thread.cpp on a thread whose dispatcher holds events and timers for its own
-- objects, and what a batch does with an object that other code destroys.
use qobject_mimic.Base.{
  ℕ, zero, suc, ◌<◌, [], ◌∷◌, Option, none, some, true, false, is_null, ◌≡◌, ◌≢◌, arith, subst, sym,
  nullptr,
}
use qobject_mimic.Event.{Task, meta_call, timer, deferred_delete}
use qobject_mimic.Dispatcher.{EventPair}
use qobject_mimic.World.{World, Code}
use qobject_mimic.Loop.{dispatch_batch, dispatch_event, dispatch_timer_event}
use qobject_mimic.Virtual.{host, event, timer_event, delete_this}
use qobject_mimic.Object.MetaCall.{run_task}
use qobject_mimic.Thread.{own_dispatcher}
use qobject_mimic.Thread.Running.{Body, pass, exec_loop}
use qobject_mimic.Thread.Body.{passes, Ends, exec_loop_lem}
use qobject_mimic.Virtual.Backed.{IsSound}
use qobject_mimic.Virtual.Backed.Delivery.{IsCareful}
use qobject_mimic.Virtual.Backed.Safety.{IsCarefulHost, process_events_safe}

module _ (code : Code) (body : Body) (k : ℕ) (set : is_null k ≡ false) (careful : IsCareful k code)
    (calm : IsCarefulHost k body.wait_hook body.platform_hook) where
  pub passes-IsSound :
      (n t : ℕ) (w : World)
      → IsSound k w
      → ((m : ℕ) → m < n → own_dispatcher t (passes code body m t w) ≡ k)
      → IsSound k (passes code body n t w)
  unfolding passes pass
  passes-IsSound zero t w s own = s
  passes-IsSound (suc n) t w s own =
      let v = pass code body t (own_dispatcher t w) w in
      let first : own_dispatcher t w ≡ k = own 0 (omega arith) in
      let s' : IsSound k v =
        subst (λ x. IsSound k (pass code body t x w)) (sym first)
          (process_events_safe code t k body.wait_hook body.platform_hook set careful calm w s).0 in
      passes-IsSound n t v s' (λ m le. own (suc m) (omega arith))

  -- Let the dispatcher of a thread hold events and timers for objects of the thread only, no
  -- access to a destroyed object have happened, objects list connections of their own only, and
  -- the user's code and the hooks be careful in the sense of process_events_safe, by which
  -- destructors return, so that the loop of a Thread does not delete that Thread. If the thread is
  -- told to exit within some passes, and until then has that dispatcher, exec() with more fuel
  -- than passes returns, with the exit code of the state in which it stops; until then no
  -- destroyed object has been accessed, and the dispatcher's events and timers are still for
  -- objects of the thread.
  pub exec_safe :
      (n fuel t : ℕ) (w : World)
      → n < fuel
      → IsSound k w
      → ((m : ℕ) → m < n → own_dispatcher t (passes code body m t w) ≡ k)
      → Ends code body t (passes code body n t w)
      → (v : World) × (exec_loop code body fuel t w ≡ some (v, (v.threads t).exit_code))
        × IsSound k v
        × Ends code body t v
  exec_safe n fuel t w enough s own ends =
      let (m, le, same, stop) = exec_loop_lem code body n fuel t w enough ends in
      (passes code body m t w, same, passes-IsSound m t w s (λ i lt. own i (omega arith)), stop)

-- In a batch of two entries, a queued call of one object and behind it a timer event or a deferred
-- delete of another: if nothing is at the other's address when the call has run, the dispatch of
-- the batch accesses a destroyed object.
pub destroyed_in_batch :
    (code : Code) (caller k a o i : ℕ) (wait : Option ℕ → World → World) (platform : World → World)
    (t : Task) (w : World)
    → a ≢ nullptr
    → o ≢ nullptr
    → (run_task code t w).heap o ≡ none
    → let h = host code caller k wait platform in
      let first : EventPair = record { receiver = a; event = some (meta_call t) } in
      let queued : EventPair = record { receiver = o; event = some deferred_delete } in
      let due : EventPair = record { receiver = o; event = some (timer i) } in
      ((dispatch_batch h (first ∷ []) (due ∷ []) w).0.fault ≡ true)
      × ((dispatch_batch h (first ∷ queued ∷ []) [] w).0.fault ≡ true)
unfolding dispatch_batch dispatch_event dispatch_timer_event host event timer_event delete_this
destroyed_in_batch code caller k a o i wait platform t w real real' gone = ground arith
