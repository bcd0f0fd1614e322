-- ===== src/Virtual/Backed.antt =====
-- What the dispatcher of a thread relies on: the objects that its queue and its timers name, which
-- are objects of src/Object.cpp that live in that thread.
pub mod Operations
pub mod Delivery
pub mod Destruction
pub mod Passes
pub mod Safety
pub mod Calls
pub mod Timers
pub mod Connections
pub mod Library
pub mod Threads
pub mod Exec
pub mod Deletes
use qobject_mimic.Base.{
  ℕ, if◌then◌else◌, List, Option, none, some, Bool, true, false, is_null, ◌==◌, ◌≡◌, ◌≢◌, refl,
  arith, All, All-mono, update, ◌∙◌, any, Bool-cases, inl, inr, subst, sym,
}
use qobject_mimic.Key.{CallLaterKey}
use qobject_mimic.Event.{Event, Task, meta_call, rearm}
use qobject_mimic.Dispatcher.{Dispatcher, EventPair, TimerData}
use qobject_mimic.World.{
  World, Code, Object, data_dispatcher, put_object, on_dispatcher, warn, free_event,
}

-- The affinity box of the object at an address, if there is one.
abbrev pub box_of : ℕ → World → Option ℕ
box_of r w = elim (w.heap r) [ none ↦ none | some ob ↦ some ob.affinity ]

-- Whether an object lives at `r`, in the thread of the dispatcher at `k`.
unfoldable pub is_home : ℕ → World → ℕ → Bool
unfolding data_dispatcher
is_home k w r = elim (box_of r w) [ none ↦ false | some b ↦ data_dispatcher (w.boxes b) w == k ]

-- A closure of moveToThread() is queued for the object that moves.
abbrev pub is_own : EventPair → Bool
is_own ep = elim ep.event [
  | none ↦ true
  | some e ↦ elim e [ meta_call t ↦ elim t [ rearm o rs ↦ o == ep.receiver | _ ↦ true ] | _ ↦ true ]
]

abbrev pub IsBacked : ℕ → World → EventPair → Type 0
IsBacked k w ep = (is_home k w ep.receiver ≡ true) × (is_own ep ≡ true)

abbrev pub IsTimed : ℕ → World → TimerData → Type 0
IsTimed k w t = is_home k w t.receiver ≡ true

-- The connections that an object lists are to the object itself: they hold its life token.
abbrev pub IsAnchored : World → Type 0
IsAnchored w =
    (o : ℕ) (ob : Object)
    → w.heap o ≡ some ob
    → All (λ e. any (λ h. h == e.0) ob.incoming ≡ true → e.2.life ≡ ob.life) w.connections

-- No access to a destroyed object has happened, what the dispatcher holds is for objects of its
-- thread, and objects list connections of their own.
pub record IsSound (k : ℕ) (w : World) : Type 0 where
  pub safe : w.fault ≡ false
  pub queued : All (IsBacked k w) (w.dispatchers k).event_queue
  pub timed : All (IsTimed k w) (w.dispatchers k).timers
  pub anchored : IsAnchored w

-- The objects of the thread, those at the addresses in `gone` aside, are still there.
abbrev pub Stays : ℕ → (ℕ → Bool) → World → World → Type 0
Stays k gone w v =
    (r : ℕ)
    → gone r ≡ false
    → is_home k w r ≡ true
    → (box_of r v ≡ box_of r w) × (is_home k v r ≡ true)

abbrev pub nobody : ℕ → Bool
nobody r = false

abbrev pub Fine : ℕ → World → World → Type 0
Fine k w v = IsSound k v × Stays k nobody w v

pub Fine-of :
    (k : ℕ) (w v : World)
    → v.fault ≡ false
    → Stays k nobody w v
    → All (IsBacked k w) (v.dispatchers k).event_queue
    → All (IsTimed k w) (v.dispatchers k).timers
    → IsAnchored v
    → Fine k w v
Fine-of k w v safe stays queued timed anchored = (
  record {
    safe = safe;
    queued =
        All-mono (IsBacked k w) (IsBacked k v) (v.dispatchers k).event_queue
          (λ ep h. ((stays ep.receiver refl h.0).1, h.1)) queued;
    timed =
        All-mono (IsTimed k w) (IsTimed k v) (v.dispatchers k).timers
          (λ t h. (stays t.receiver refl h).1) timed;
    anchored = anchored;
  },
  stays,
)

pub Fine-refl : (k : ℕ) (w : World) → IsSound k w → Fine k w w
Fine-refl k w v = (v, λ r here h. (refl, h))

pub Stays-trans :
    (k : ℕ) (gone : ℕ → Bool) (u v w : World)
    → Stays k gone u v
    → Stays k gone v w
    → Stays k gone u w
Stays-trans k gone u v w f g r here h =
    let (same, home) = f r here h in let (again, still) = g r here home in (again ∙ same, still)

-- A step on the world that follows another.
pub Fine-then : (k : ℕ) (u v w : World) → Fine k u v → (IsSound k v → Fine k v w) → Fine k u w
Fine-then k u v w f g = let h = g f.0 in (h.0, Stays-trans k nobody u v w f.1 h.1)

-- The steps on what no object of the thread is reached through.
module _ (k : ℕ) (w : World) (s : IsSound k w) where
  pub Fine-warn : Fine k w (warn w)
  unfolding is_home
  Fine-warn = Fine-of k w (warn w) s.safe (λ r here h. (refl, h)) s.queued s.timed s.anchored

  pub Fine-free : (e : Option Event) → Fine k w (free_event e w)
  unfolding is_home
  Fine-free e =
      Fine-of k w (free_event e w) s.safe (λ r here h. (refl, h)) s.queued s.timed s.anchored

  pub Fine-alive : (life : ℕ) (b : Bool) → Fine k w (record w { alive = update w.alive life b })
  unfolding is_home
  Fine-alive life b = Fine-of k w _ s.safe (λ r here h. (refl, h)) s.queued s.timed s.anchored

  pub Fine-pending :
      (p : List (CallLaterKey × ℕ)) (nodes : ℕ → Option ℕ)
      → Fine k w (record w { pending = p; nodes = nodes })
  unfolding is_home
  Fine-pending p nodes = Fine-of k w _ s.safe (λ r here h. (refl, h)) s.queued s.timed s.anchored

put-IsAnchored :
    (o : ℕ) (new : Object) (w : World)
    → IsAnchored w
    → All (λ e. any (λ h. h == e.0) new.incoming ≡ true → e.2.life ≡ new.life) w.connections
    → IsAnchored (put_object o new w)
put-IsAnchored o new w a own r rob er = elim (Bool-cases (o == r)) [
  | inl same ↦
      let it : rob ≡ new = ground arith in
      subst
        (λ (x : Object).
          All (λ e. any (λ h. h == e.0) x.incoming ≡ true → e.2.life ≡ x.life) w.connections)
        (sym it) own
  | inr apart ↦ a r rob (ground arith)
]

-- A write of an object that keeps its box, with connections of its own.
pub Fine-put_own :
    (k o : ℕ) (ob new : Object) (w : World)
    → IsSound k w
    → w.heap o ≡ some ob
    → new.affinity ≡ ob.affinity
    → All (λ e. any (λ h. h == e.0) new.incoming ≡ true → e.2.life ≡ new.life) w.connections
    → Fine k w (put_object o new w)
unfolding is_home data_dispatcher
Fine-put_own k o ob new w s e same own =
    Fine-of k w (put_object o new w) s.safe (λ r here h. ground arith) s.queued s.timed
      (put-IsAnchored o new w s.anchored own)

pub Fine-put :
    (k o : ℕ) (ob new : Object) (w : World)
    → IsSound k w
    → w.heap o ≡ some ob
    → new.affinity ≡ ob.affinity
    → new.life ≡ ob.life
    → ((h : ℕ) → any (λ x. x == h) new.incoming ≡ true → any (λ x. x == h) ob.incoming ≡ true)
    → Fine k w (put_object o new w)
Fine-put k o ob new w s e same life fewer =
    Fine-put_own k o ob new w s e same (
      All-mono _ _ w.connections (λ c f listed. f (fewer c.0 listed) ∙ sym life)
        (s.anchored o ob e))

pub Fine-on :
    (k i : ℕ) (f : Dispatcher → Dispatcher) (w : World)
    → IsSound k w
    → (i ≡ k
        → All (IsBacked k w) (f (w.dispatchers k)).event_queue
          × All (IsTimed k w) (f (w.dispatchers k)).timers)
    → Fine k w (on_dispatcher i f w)
unfolding is_home data_dispatcher on_dispatcher
Fine-on k i f w s kept =
    Fine-of k w (on_dispatcher i f w) s.safe (λ r here h. (refl, h)) (ground (arith, kept))
      (ground (arith, kept)) s.anchored

pub Fine-if :
    (k : ℕ) (b : Bool) (w u v : World) → Fine k w u → Fine k w v → Fine k w (if b then u else v)
Fine-if k true w u v f g = f
Fine-if k false w u v f g = g

-- A write of the members of the dispatcher.
pub Fine-set :
    (k : ℕ) (d : Dispatcher) (w : World)
    → IsSound k w
    → All (IsBacked k w) d.event_queue
    → All (IsTimed k w) d.timers
    → Fine k w (record w { dispatchers = update w.dispatchers k d })
unfolding is_home
Fine-set k d w s q t =
    Fine-of k w (record w { dispatchers = update w.dispatchers k d }) s.safe (λ r here h. (refl, h))
      (ground arith) (ground arith) s.anchored
