-- ===== src/Virtual/Backed/Threads.antt =====
-- ~Thread() of src/Thread.cpp, run by the loop of another thread, as the destructor of an object's
-- own class.
use qobject_mimic.Base.{ℕ, some, Bool, false, ◌≡◌, refl, arith, pos}
use qobject_mimic.World.{World, set_thread, data_dispatcher}
use qobject_mimic.Thread.{wait, quit, clear_thread, put_thread}
use qobject_mimic.Virtual.Backed.{is_home, IsSound, Fine, Fine-of, Fine-then, Fine-refl}
use qobject_mimic.Virtual.Backed.Timers.{exit-Fine}

module _ (k t : ℕ) where
  joined-Fine :
      (w : World)
      → IsSound k w
      → Fine k w (put_thread t (record (w.threads t) { joinable = false }) w)
  unfolding is_home data_dispatcher
  joined-Fine w s = Fine-of k w _ s.safe (λ r here h. (refl, h)) s.queued s.timed s.anchored

  wait-Fine :
      (elapse : World → World) (w v : World) (done : Bool)
      → ((u : World) → IsSound k u → Fine k u (elapse u))
      → IsSound k w
      → wait elapse false t w ≡ some (v, done)
      → Fine k w v
  unfolding wait
  wait-Fine elapse w v done calm s e = ground (
    arith,
    Fine-refl k w s,
    joined-Fine w s,
    Fine-then k w (elapse w) _ (calm w s) (λ s'. joined-Fine (elapse w) s'),
  )

  clear_thread-Fine : (native : ℕ) (w : World) → IsSound k w → Fine k w (clear_thread native t w)
  unfolding clear_thread set_thread is_home data_dispatcher
  clear_thread-Fine native w s =
      Fine-of k w (clear_thread native t w) (ground (arith, s.safe)) (λ r here h. ground arith)
        (ground (arith, s.queued)) (ground (arith, s.timed))
        (λ o ob e. ground (arith, s.anchored o ob))

  -- Where what other threads do leaves the thread's objects alone and the wait of ~Thread() ends,
  -- ~Thread() accesses no destroyed object, and leaves the objects of the thread that runs it and
  -- what its dispatcher holds as IsSound asks.
  pub thread_destructor-Fine :
      (elapse : World → World) (native : ℕ) (w v : World) (done : Bool)
      → ((u : World) → IsSound k u → Fine k u (elapse u))
      → IsSound k w
      → wait elapse false t (quit t w) ≡ some (v, done)
      → Fine k w (clear_thread native t v)
  thread_destructor-Fine elapse native w v done calm s e =
      let told = exit-Fine k t (pos 0) w s in
      let waited =
        Fine-then k w (quit t w) v told (λ s'. wait-Fine elapse (quit t w) v done calm s' e) in
      Fine-then k w v (clear_thread native t v) waited (λ s'. clear_thread-Fine native v s')
