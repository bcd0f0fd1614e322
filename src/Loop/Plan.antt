-- ===== src/Loop/Plan.antt =====
-- The dispatch loops of processEvents() as a plan that is fixed by the batch alone.
use qobject_mimic.Base.{
  ℕ, List, [], ◌∷◌, ◌++◌, Option, none, some, Bool, true, false, ◌&&◌, ◌||◌, not, ◌≡◌, refl,
  if◌then◌else◌, is_null, is_some, contains, any, any-append, All, arith, ◌==◌, map, ◌≢◌,
}
use qobject_mimic.Event.{Event, is_deferred_delete}
use qobject_mimic.Dispatcher.{EventPair, is_deferred_pair}
use qobject_mimic.Loop.{Host, Pass, dispatch_event, dispatch_timer_event}

-- What a loop does to the world, one call at a time.
pub data Action : Type 0 where
  delivers : ℕ → Event → Action
  frees : Option Event → Action

-- An earlier pair of the batch that deletes the receiver.
abbrev pub deletes : ℕ → EventPair → Bool
deletes r ep = (ep.receiver == r) && is_deferred_pair ep

-- A pair is delivered if its receiver and event are not null and no earlier pair of the batch
-- deletes the receiver.
abbrev pub is_wanted : List EventPair → EventPair → Bool
is_wanted before ep =
    is_some ep.event && (not (is_null ep.receiver) && not (any (deletes ep.receiver) before))

abbrev pub deliveries : ℕ → Option Event → List Action
deliveries r none = []
deliveries r (some e) = delivers r e ∷ []

-- The actions for a part of the batch, given the pairs `before` it.
unfoldable pub plan : List EventPair → List EventPair → List Action
plan before [] = []
plan before (ep ∷ eps) =
    let rest = frees ep.event ∷ plan (before ++ ep ∷ []) eps in
    if is_wanted before ep then deliveries ep.receiver ep.event ++ rest else rest

abbrev pub is_delivery : Action → Bool
is_delivery (delivers r e) = true
is_delivery (frees e) = false

abbrev pub frees_of : List Action → List (Option Event)
frees_of [] = []
frees_of (delivers r e ∷ acts) = frees_of acts
frees_of (frees e ∷ acts) = e ∷ frees_of acts

abbrev pub Avoids : ℕ → Action → Type 0
Avoids r (delivers s e) = s ≢ r
Avoids r (frees e) = Unit {0}

abbrev pub EndsLife : Event → ℕ → List Action → Type 0
EndsLife e r acts = if is_deferred_delete e then All (Avoids r) acts else Unit {0}

-- Once a deferred delete has been delivered, nothing more is delivered to its receiver.
abbrev pub IsSafe : List Action → Type 0
IsSafe [] = Unit {0}
IsSafe (delivers r e ∷ acts) = EndsLife e r acts × IsSafe acts
IsSafe (frees e ∷ acts) = IsSafe acts

-- Each event of the batch is freed once, in order.
pub plan_frees :
    (before eps : List EventPair) → frees_of (plan before eps) ≡ map (λ ep. ep.event) eps
unfolding plan
plan_frees before [] = refl
plan_frees before (ep ∷ eps) = ground (arith, plan_frees (before ++ ep ∷ []) eps)

plan-Avoids :
    (r : ℕ) (before eps : List EventPair)
    → any (deletes r) before ≡ true
    → All (Avoids r) (plan before eps)
unfolding plan
plan-Avoids r before [] h = tt
plan-Avoids r before (ep ∷ eps) h =
    ground (arith, plan-Avoids r (before ++ ep ∷ []) eps, any-append (deletes r) before (ep ∷ []))

pub plan-IsSafe : (before eps : List EventPair) → IsSafe (plan before eps)
unfolding plan
plan-IsSafe before [] = tt
plan-IsSafe before (ep ∷ eps) = ground (
  arith,
  plan-IsSafe (before ++ ep ∷ []) eps,
  plan-Avoids ep.receiver (before ++ ep ∷ []) eps,
  any-append (deletes ep.receiver) before (ep ∷ []),
)

pub any-delivery :
    (before : List EventPair) (ep : EventPair) (eps : List EventPair)
    → any is_delivery (plan before (ep ∷ eps))
      ≡ (is_wanted before ep || any is_delivery (plan (before ++ ep ∷ []) eps))
unfolding plan
any-delivery before ep eps = ground arith

module _ {W : Type 0} (h : Host W) where
  unfoldable pub act : W → Action → W
  act w (delivers r e) = h.deliver r e w
  act w (frees e) = h.free e w

  unfoldable pub run_actions : List Action → W → W
  unfolding act
  run_actions [] w = w
  run_actions (a ∷ acts) w = run_actions acts (act w a)

  -- The set of the loop holds the receivers that the pairs so far delete.
  abbrev pub Agree : List ℕ → List EventPair → Type 0
  Agree deleted before = (r : ℕ) → r ≢ 0 → contains r deleted ≡ any (deletes r) before

  pub Agree-step :
      (p : Pass W) (before : List EventPair) (ep : EventPair)
      → Agree p.deleted before
      → Agree (dispatch_event h p ep).deleted (before ++ ep ∷ [])
  unfolding dispatch_event
  Agree-step p before ep agree r ne =
      ground (arith, agree r ne, any-append (deletes r) before (ep ∷ []))

  pub Agree-step_timer :
      (p : Pass W) (before : List EventPair) (ep : EventPair)
      → is_deferred_pair ep ≡ false
      → Agree p.deleted before
      → Agree (dispatch_timer_event h p ep).deleted (before ++ ep ∷ [])
  unfolding dispatch_timer_event
  Agree-step_timer p before ep no_delete agree r ne =
      ground (arith, agree r ne, any-append (deletes r) before (ep ∷ []))

  -- One round of the loop does what the plan says for its pair.
  pub event_step :
      (p : Pass W) (before : List EventPair) (ep : EventPair) (eps : List EventPair)
      → Agree p.deleted before
      → (run_actions (plan before (ep ∷ eps)) p.world
          ≡ run_actions (plan (before ++ ep ∷ []) eps) (dispatch_event h p ep).world)
        × ((dispatch_event h p ep).processed ≡ (p.processed || is_wanted before ep))
  unfolding dispatch_event plan run_actions
  event_step p before ep eps agree = ground (arith, agree ep.receiver)

  pub timer_step :
      (p : Pass W) (before : List EventPair) (ep : EventPair) (eps : List EventPair)
      → Agree p.deleted before
      → (run_actions (plan before (ep ∷ eps)) p.world
          ≡ run_actions (plan (before ++ ep ∷ []) eps) (dispatch_timer_event h p ep).world)
        × ((dispatch_timer_event h p ep).processed ≡ (p.processed || is_wanted before ep))
  unfolding dispatch_timer_event plan run_actions
  timer_step p before ep eps agree = ground (arith, agree ep.receiver)
