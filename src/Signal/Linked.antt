-- ===== src/Signal/Linked.antt =====
-- The connections of the whole program, and the lists of connections received in its objects
-- (src/Object.h, src/Object.cpp, src/Signal.h).
pub mod Ending
pub mod Making
pub mod Constructing
pub mod Dead
pub mod Unwinding
pub mod Destroying
pub mod Runs
use qobject_mimic.Base.{
  ℕ, ◌+◌, ◌≤◌, List, [], ◌∷◌, ◌++◌, Option, none, some, Bool, true, false, ◌||◌, ◌&&◌, not,
  if◌then◌else◌, ◌==◌, nullptr, remove_if, keep_if, any, ◌≡◌, ◌≢◌, refl, arith, All, ◌∙◌, ap, sym,
  subst, is_some, update, remove_if_idem, All-append, All-remove_if,
}
use qobject_mimic.World.{World, Code, Object, Connection, ConnectionType}
use qobject_mimic.Object.Lifetime.{destroy_cleanup}
use qobject_mimic.Signal.{Entry, has_handle, destroy_slots, Boost}
use qobject_mimic.Signal.Connections.{is_to, is_incoming, destroy_slots-connections}

-- The receiver of a connection exists, and has the life token that the connection was made with.
abbrev pub is_owned : Option Object → Entry → Bool
is_owned none e = false
is_owned (some ob) e = ob.life == e.2.life

-- Of an object at `o`: its list has exactly the handles of the connections to it, its life token is
-- alive, and is none of those to come.
abbrev pub LinkedAt : ℕ → Option Object → List Entry → (ℕ → Bool) → ℕ → Type 0
LinkedAt o none es alive next = Unit {0}
LinkedAt o (some ob) es alive next =
    All (λ e. is_incoming ob.incoming e ≡ is_to o e) es
    × All (λ h. any (has_handle h) es ≡ true) ob.incoming
    × (alive ob.life ≡ true)
    × (ob.life ≤ next)

abbrev pub same_life : Option Object → Option Object → Bool
same_life none y = false
same_life (some x) none = false
same_life (some x) (some y) = x.life == y.life

pub record IsLinked (w : World) : Type 0 where
  pub owned : All (λ e. is_owned (w.heap e.2.receiver) e ≡ true) w.connections
  pub linked : (o : ℕ) → LinkedAt o (w.heap o) w.connections w.alive w.next_id
  pub apart : (o p : ℕ) → o ≢ p → same_life (w.heap o) (w.heap p) ≡ false

-- What the end of a connection does to an object.
abbrev pub forget : ℕ → Bool → Option Object → Option Object
forget h hit none = none
forget h hit (some ob) =
    some (record ob { incoming = if hit then remove_if (λ c. c == h) ob.incoming else ob.incoming })

forget_never : (h : ℕ) (x : Option Object) → forget h false x ≡ x
forget_never h none = refl
forget_never h (some ob) = refl

forget_twice :
    (h : ℕ) (a b : Bool) (x : Option Object) → forget h b (forget h a x) ≡ forget h (a || b) x
forget_twice h a b none = refl
forget_twice h true true (some ob) =
    ap (λ hs. some (record ob { incoming = hs })) (remove_if_idem (λ c. c == h) ob.incoming)
forget_twice h true false (some ob) = refl
forget_twice h false true (some ob) = refl
forget_twice h false false (some ob) = refl

destroy_cleanup-heap :
    (o life h p : ℕ) (w : World)
    → w.alive life ≡ true
    → is_some (w.heap o) ≡ true
    → (destroy_cleanup o life h w).heap p ≡ forget h (o == p) (w.heap p)
unfolding destroy_cleanup
destroy_cleanup-heap o life h p w lives there = ground arith

destroy_cleanup-alive :
    (o life h : ℕ) (w : World)
    → ((destroy_cleanup o life h w).alive ≡ w.alive)
      × ((destroy_cleanup o life h w).next_id ≡ w.next_id)
unfolding destroy_cleanup
destroy_cleanup-alive o life h w = ground arith

is_some-forget : (h : ℕ) (b : Bool) (x : Option Object) → is_some (forget h b x) ≡ is_some x
is_some-forget h b none = refl
is_some-forget h b (some ob) = refl

-- The receiver of a connection of handle `h` lives.
abbrev pub Ends : ℕ → (ℕ → Bool) → (ℕ → Option Object) → Entry → Type 0
Ends h alive heap e = (e.0 ≡ h) × (alive e.2.life ≡ true) × (is_some (heap e.2.receiver) ≡ true)

All-Ends :
    (h life o : ℕ) (w : World) (es : List Entry)
    → w.alive life ≡ true
    → is_some (w.heap o) ≡ true
    → All (Ends h w.alive w.heap) es
    → let v = destroy_cleanup o life h w in All (Ends h v.alive v.heap) es
All-Ends h life o w [] lives there v = tt
All-Ends h life o w (e ∷ es) lives there v = (
  (
    v.0.0,
    ap (λ f. f e.2.life) (destroy_cleanup-alive o life h w).0 ∙ v.0.1,
    ap is_some (destroy_cleanup-heap o life h e.2.receiver w lives there)
        ∙ is_some-forget h (o == e.2.receiver) (w.heap e.2.receiver)
        ∙ v.0.2,
  ),
  All-Ends h life o w es lives there v.1,
)

pub destroy_slots-heap :
    (h p : ℕ) (es : List Entry) (w : World)
    → All (Ends h w.alive w.heap) es
    → (destroy_slots es w).heap p ≡ forget h (any (is_to p) es) (w.heap p)
unfolding destroy_slots
destroy_slots-heap h p [] w v = sym (forget_never h (w.heap p))
destroy_slots-heap h p (e ∷ es) w v =
    let w1 = λ (k : ℕ). destroy_cleanup e.2.receiver e.2.life k w in
    subst
      (λ k. (destroy_slots es (w1 k)).heap p ≡ forget h (is_to p e || any (is_to p) es) (w.heap p))
      (sym v.0.0)
      (destroy_slots-heap h p es (w1 h) (All-Ends h e.2.life e.2.receiver w es v.0.1 v.0.2 v.1)
        ∙ ap (forget h (any (is_to p) es))
            (destroy_cleanup-heap e.2.receiver e.2.life h p w v.0.1 v.0.2)
        ∙ forget_twice h (is_to p e) (any (is_to p) es) (w.heap p))

pub destroy_slots-alive :
    (es : List Entry) (w : World)
    → ((destroy_slots es w).alive ≡ w.alive) × ((destroy_slots es w).next_id ≡ w.next_id)
unfolding destroy_slots
destroy_slots-alive [] w = (refl, refl)
destroy_slots-alive (e ∷ es) w =
    let rest = destroy_slots-alive es (destroy_cleanup e.2.receiver e.2.life e.0 w) in
    let one = destroy_cleanup-alive e.2.receiver e.2.life e.0 w in (rest.0 ∙ one.0, rest.1 ∙ one.1)
