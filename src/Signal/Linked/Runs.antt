-- ===== src/Signal/Linked/Runs.antt =====
-- Sequences of constructions, connections, disconnections and destructions (src/Object.h,
-- src/Object.cpp, src/Signal.h).
use qobject_mimic.Base.{
  ℕ, List, [], ◌∷◌, Option, is_some, if◌then◌else◌, inl, inr, sym, subst, Option-cases,
}
use qobject_mimic.World.{World, Code, TimerFields, ConnectionType}
use qobject_mimic.Object.Lifetime.{construct, destroy_object}
use qobject_mimic.Signal.{Boost, connect, disconnect}
use qobject_mimic.Signal.Linked.{IsLinked}
use qobject_mimic.Signal.Linked.Ending.{disconnect-IsLinked}
use qobject_mimic.Signal.Linked.Making.{connect-IsLinked}
use qobject_mimic.Signal.Linked.Constructing.{construct-IsLinked}
use qobject_mimic.Signal.Linked.Unwinding.{IsInert}
use qobject_mimic.Signal.Linked.Destroying.{destroy_object-IsLinked}

pub data Action : Type 0 where
  makes : ℕ → ℕ → Option TimerFields → Action
  connects : ℕ → ℕ → ℕ → ConnectionType → Action
  disconnects : ℕ → Action
  destroys : ℕ → ℕ → Action

module _ {code : Code} (b : Boost code) where
  -- An address that holds an object is not given to a new one.
  unfoldable pub act : World → Action → World
  act w (makes caller o timer) = if is_some (w.heap o) then w else construct caller o timer w
  act w (connects sig receiver slot type) = (connect b sig receiver slot type w).0
  act w (disconnects h) = disconnect code h w
  act w (destroys caller o) = destroy_object code caller o w

  unfoldable pub act_all : List Action → World → World
  unfolding act
  act_all [] w = w
  act_all (a ∷ rest) w = act_all rest (act w a)

  act-IsLinked : (a : Action) (w : World) → IsInert code → IsLinked w → IsLinked (act w a)
  unfolding act
  act-IsLinked (makes caller o timer) w inert v = elim (Option-cases (w.heap o)) [
    | inl free ↦
        subst (λ x. IsLinked (if is_some x then w else construct caller o timer w)) (sym free)
          (construct-IsLinked caller o timer w free v)
    | inr found ↦
        subst (λ x. IsLinked (if is_some x then w else construct caller o timer w)) (sym found.1) v
  ]
  act-IsLinked (connects sig receiver slot type) w inert v =
      connect-IsLinked b sig receiver slot type w v
  act-IsLinked (disconnects h) w inert v = disconnect-IsLinked b h w v
  act-IsLinked (destroys caller o) w inert v = destroy_object-IsLinked b inert caller o w v

  -- If it holds of a program, then it still holds after any objects and connections have been made
  -- and ended, in whatever order and by any thread, where cleanup callbacks leave objects and
  -- connections alone: every connection's receiver exists, alive under the life token that the
  -- connection was made with; the list of connections received of every object has the handles of
  -- exactly the connections to it; no two objects share a life token, and no object has one that
  -- is still to be given.
  pub act_all-IsLinked :
      (actions : List Action) (w : World) → IsInert code → IsLinked w → IsLinked (act_all actions w)
  unfolding act_all
  act_all-IsLinked [] w inert v = v
  act_all-IsLinked (a ∷ rest) w inert v =
      act_all-IsLinked rest (act w a) inert (act-IsLinked a w inert v)
