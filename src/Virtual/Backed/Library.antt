-- ===== src/Virtual/Backed/Library.antt =====
-- Slots and callbacks that are made of calls of the library (src/Object.h, src/Timer.h,
-- src/Thread.h) on the objects of their thread.
use qobject_mimic.Base.{
  ◌==◌, Bool-cases, All, any, keep_if, subst, sym, inl, inr, ℕ, ◌+◌, List, [], ◌∷◌, Option, none,
  some, true, false, is_null, ◌≡◌, ◌≢◌, arith, ℤ,
}
use qobject_mimic.Key.{CallLaterKey}
use qobject_mimic.World.{World, Code, TimerFields, Connection, ConnectionType, data_dispatcher}
use qobject_mimic.Object.MetaCall.{connect_wrapper}
use qobject_mimic.Object.CallLater.{schedule_call_later}
use qobject_mimic.Object.Timers.{start_timer, kill_timer}
use qobject_mimic.Object.Lifetime.{construct, add_cleanup_callback}
use qobject_mimic.Object.Names.{set_object_name}
use qobject_mimic.Thread.{exit}
use qobject_mimic.Signal.{Entry, Boost, has_handle, connect, disconnect}
use qobject_mimic.Timer
use qobject_mimic.Virtual.{delete_later}
use qobject_mimic.Virtual.Backed.{
  IsAnchored, box_of, is_home, IsSound, Fine, Fine-of, Fine-refl, Fine-then,
}
use qobject_mimic.Virtual.Backed.Operations.{kill_timer-Fine, stop-Fine}
use qobject_mimic.Virtual.Backed.Delivery.{IsCareful}
use qobject_mimic.Virtual.Backed.Calls.{
  emission-Fine, call_later-Fine, delete_later-Fine, start_timer-Fine, set_name-Fine,
}
use qobject_mimic.Virtual.Backed.Connections.{
  IsUnlisted, AreHome, connect-Fine, disconnect-Fine, add_callback-Fine,
}
use qobject_mimic.Virtual.Backed.Timers.{start-Fine, start_with-Fine, set_interval-Fine, exit-Fine}

-- A call of the library: connect(), disconnect(), an emission over one connection, callLater(),
-- deleteLater(), startTimer(), killTimer(), the methods of a Timer, a new Object or Timer,
-- addCleanupCallback(), setObjectName(), exit(), and other code of the user.
pub data LibraryCall : Type 0 where
  connects : (signal_ receiver slot : ℕ) → ConnectionType → LibraryCall
  disconnects : (handle : ℕ) → LibraryCall
  adds_callback : (object callback : ℕ) → LibraryCall
  emits : (life box receiver slot : ℕ) → ConnectionType → LibraryCall
  calls_later : CallLaterKey → (invoker : ℕ) → LibraryCall
  deletes_later : (object : ℕ) → LibraryCall
  starts_timer : (object : ℕ) → (interval : ℤ) → LibraryCall
  kills_timer : (object id : ℕ) → LibraryCall
  sets_interval : (object : ℕ) → (interval : ℤ) → LibraryCall
  starts : (object : ℕ) → LibraryCall
  starts_with : (object : ℕ) → (interval : ℤ) → LibraryCall
  stops : (object : ℕ) → LibraryCall
  constructs : (object : ℕ) → Option TimerFields → LibraryCall
  names : (object : ℕ) → List ℕ → LibraryCall
  exits : (thread : ℕ) → ℤ → LibraryCall
  runs : (slot : ℕ) → LibraryCall

abbrev pub IsTimerAt : ℕ → World → ℕ → Type 0
IsTimerAt k w o = (is_home k w o ≡ true) × ((f : TimerFields) × (Timer.timer_fields o w ≡ some f))

-- The objects that a call names live in the thread; the receiver of an emission does if it lives
-- and its connection leads to this dispatcher, and so do those of the connections that a disconnect()
-- ends. A new object gets an address and a box that are not in use, a new connection a handle that no
-- object lists.
abbrev pub IsProper : {code : Code} → Boost code → ℕ → World → LibraryCall → Type 0
IsProper b k w (connects sig o slot type) =
    (is_home k w o ≡ true) × ((c : Connection) → IsUnlisted (b.connect sig c w).1 w)
IsProper b k w (disconnects h) = AreHome k w (keep_if (has_handle h) w.connections)
IsProper b k w (adds_callback o callback) = is_home k w o ≡ true
IsProper b k w (emits life box receiver slot type) =
    (w.alive life ≡ true → data_dispatcher (w.boxes box) w ≡ k → is_home k w receiver ≡ true)
    × (is_null box ≡ false)
IsProper b k w (calls_later key invoker) = is_home k w key.context ≡ true
IsProper b k w (deletes_later o) = is_home k w o ≡ true
IsProper b k w (starts_timer o n) = is_home k w o ≡ true
IsProper b k w (kills_timer o i) = is_home k w o ≡ true
IsProper b k w (sets_interval o n) = IsTimerAt k w o
IsProper b k w (starts o) = IsTimerAt k w o
IsProper b k w (starts_with o n) = IsTimerAt k w o
IsProper b k w (stops o) = IsTimerAt k w o
IsProper b k w (constructs o timer) =
    (w.heap o ≡ none) × ((r : ℕ) → is_home k w r ≡ true → box_of r w ≢ some (w.next_id + 2))
IsProper b k w (names o name) = is_home k w o ≡ true
IsProper b k w (exits t c) = Unit {0}
IsProper b k w (runs n) = Unit {0}

All-never :
    (life : ℕ) (es : List Entry) → All (λ e. any (λ h. h == e.0) [] ≡ true → e.2.life ≡ life) es
All-never life [] = tt
All-never life (e ∷ es) = (λ absurd_. ground arith, All-never life es)

construct-IsAnchored :
    (caller o : ℕ) (timer : Option TimerFields) (w : World)
    → IsAnchored w
    → IsAnchored (construct caller o timer w)
unfolding construct
construct-IsAnchored caller o timer w a r rob e = elim (Bool-cases (o == r)) [
  | inl same ↦
      let bare : rob.incoming ≡ [] = ground arith in
      subst (λ hs. All (λ c. any (λ h. h == c.0) hs ≡ true → c.2.life ≡ rob.life) w.connections)
        (sym bare) (All-never rob.life w.connections)
  | inr apart ↦ a r rob (ground arith)
]

construct-Fine :
    (k caller o : ℕ) (timer : Option TimerFields) (w : World)
    → IsSound k w
    → w.heap o ≡ none
    → ((r : ℕ) → is_home k w r ≡ true → box_of r w ≢ some (w.next_id + 2))
    → Fine k w (construct caller o timer w)
unfolding construct is_home data_dispatcher
construct-Fine k caller o timer w s empty fresh =
    Fine-of k w (construct caller o timer w) s.safe (λ r here h. ground (arith, fresh r h)) s.queued
      s.timed (construct-IsAnchored caller o timer w s.anchored)

module _ {code : Code} (b : Boost code) (caller : ℕ) where
  unfoldable pub perform_call : LibraryCall → World → World
  perform_call (connects sig o slot type) w = (connect b sig o slot type w).0
  perform_call (disconnects h) w = disconnect code h w
  perform_call (adds_callback o callback) w = add_cleanup_callback o callback w
  perform_call (emits life box o slot type) w = connect_wrapper code caller life box o slot type w
  perform_call (calls_later key invoker) w =
      schedule_call_later code caller key.context key invoker w
  perform_call (deletes_later o) w = delete_later code caller o w
  perform_call (starts_timer o n) w = (start_timer caller o n w).0
  perform_call (kills_timer o i) w = kill_timer caller o i w
  perform_call (sets_interval o n) w = Timer.set_interval o n w
  perform_call (starts o) w = Timer.start caller o w
  perform_call (starts_with o n) w = Timer.start_with caller o n w
  perform_call (stops o) w = Timer.stop caller o w
  perform_call (constructs o timer) w = construct caller o timer w
  perform_call (names o name) w = set_object_name o name w
  perform_call (exits t c) w = exit t c w
  perform_call (runs n) w = code.run n w

  unfoldable pub perform_calls : List LibraryCall → World → World
  perform_calls [] w = w
  perform_calls (c ∷ cs) w = perform_calls cs (perform_call c w)

  -- Each call of a list is proper where it is made.
  abbrev pub AreProper : ℕ → World → List LibraryCall → Type 0
  AreProper k w [] = Unit {0}
  AreProper k w (c ∷ cs) = IsProper b k w c × AreProper k (perform_call c w) cs

  module _ (k : ℕ) (set : is_null k ≡ false) (careful : IsCareful k code) where
    perform_call-Fine :
        (c : LibraryCall) (w : World) → IsSound k w → IsProper b k w c → Fine k w (perform_call c w)
    unfolding perform_call
    perform_call-Fine (connects sig o slot type) w s p =
        connect-Fine b k sig o slot type w s p.0 p.1
    perform_call-Fine (disconnects h) w s p = disconnect-Fine b k h w s p
    perform_call-Fine (adds_callback o callback) w s p = add_callback-Fine k o callback w s p
    perform_call-Fine (emits life box o slot type) w s p =
        emission-Fine k code set careful caller life box o slot type w s p.0 p.1
    perform_call-Fine (calls_later key invoker) w s p =
        call_later-Fine k code set careful caller key.context key invoker w s p
    perform_call-Fine (deletes_later o) w s p = delete_later-Fine k code set careful caller o w s p
    perform_call-Fine (starts_timer o n) w s p = start_timer-Fine k caller o n w s p
    perform_call-Fine (kills_timer o i) w s p = kill_timer-Fine k caller o i w s p
    perform_call-Fine (sets_interval o n) w s p = set_interval-Fine k o n p.1.0 w s p.0 p.1.1
    perform_call-Fine (starts o) w s p = start-Fine k caller o p.1.0 w s p.0 p.1.1
    perform_call-Fine (starts_with o n) w s p = start_with-Fine k caller o n p.1.0 w s p.0 p.1.1
    perform_call-Fine (stops o) w s p = stop-Fine k caller o p.1.0 w s p.0 p.1.1
    perform_call-Fine (constructs o timer) w s p = construct-Fine k caller o timer w s p.0 p.1
    perform_call-Fine (names o name) w s p = set_name-Fine k o name w s p
    perform_call-Fine (exits t c) w s p = exit-Fine k t c w s
    perform_call-Fine (runs n) w s p = careful.run_Fine n w s

    -- Let everything that the dispatcher of a thread holds be for objects that live in the thread, no
    -- access to a destroyed object have happened, objects list connections of their own only, and the
    -- user's code be careful in the sense of process_events_safe. Then so is any sequence of these
    -- calls: connect(), disconnect(), an emission over one connection, addCleanupCallback(),
    -- callLater(), deleteLater(), startTimer(), killTimer(), setInterval(), start() and stop() of a
    -- Timer, the construction of an Object or a Timer, setObjectName(), exit(), and careful code of
    -- the user. Each is made for objects of the thread, with an unused address and box for a new
    -- object and an unlisted handle for a new connection; moveToThread(), delete, post() and
    -- singleShot() are not among them. Afterwards no connection is listed but by its receiver, the
    -- dispatcher still holds nothing but events and timers for objects of the thread, no destroyed
    -- object has been accessed, and every object of the thread is still there, in its thread.
    pub library_calls_careful :
        (cs : List LibraryCall) (w : World)
        → IsSound k w
        → AreProper k w cs
        → Fine k w (perform_calls cs w)
    unfolding perform_calls
    library_calls_careful [] w s proper = Fine-refl k w s
    library_calls_careful (c ∷ cs) w s proper =
        Fine-then k w (perform_call c w) (perform_calls cs (perform_call c w))
          (perform_call-Fine c w s proper.0)
          (λ s'. library_calls_careful cs (perform_call c w) s' proper.1)
