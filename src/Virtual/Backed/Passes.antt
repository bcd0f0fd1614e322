-- ===== src/Virtual/Backed/Passes.antt =====
-- processEvents() of src/EventDispatcherDefault.cpp over the objects of its thread.
use qobject_mimic.Base.{
  ℕ, List, [], ◌∷◌, ◌++◌, Option, some, Bool, true, false, is_null, ◌≡◌, refl, arith, All, All-mono,
  any, any-append, ◌||◌, ◌∙◌, if◌then◌else◌, sym, subst, Option-cases, Bool-cases, inl, inr,
}
use qobject_mimic.Event.{Event}
use qobject_mimic.Dispatcher.{EventPair}
use qobject_mimic.World.{World, Code, free_event}
use qobject_mimic.Loop.{Host}
use qobject_mimic.Loop.Plan.{plan, deletes, is_wanted, run_actions, act, deliveries}
use qobject_mimic.Virtual.{event, host}
use qobject_mimic.Virtual.Backed.{is_home, is_own, IsSound, Stays, Fine-free}
use qobject_mimic.Virtual.Backed.Delivery.{IsCareful}
use qobject_mimic.Virtual.Backed.Destruction.{event-Stays}

-- A pair of the batch can be dispatched after those before it.
abbrev pub IsReady : ℕ → List EventPair → World → EventPair → Type 0
IsReady k before w ep =
    (any (deletes ep.receiver) before ≡ false → is_home k w ep.receiver ≡ true) × (is_own ep ≡ true)

Stays-join :
    (k : ℕ) (g h both : ℕ → Bool) (u v w : World)
    → ((r : ℕ) → both r ≡ (g r || h r))
    → Stays k g u v
    → Stays k h v w
    → Stays k both u w
Stays-join k g h both u v w split f f' r kept here =
    let (same, home) = f r (ground (arith, split r)) here in
    let (again, still) = f' r (ground (arith, split r)) home in (again ∙ same, still)

module _ (code : Code) (caller k : ℕ) (wait : Option ℕ → World → World) (platform : World → World)
    (set : is_null k ≡ false) (careful : IsCareful k code) where
  abbrev here : Host World
  here = host code caller k wait platform

  -- What the loop does for one pair, before it frees the event.
  unfoldable delivered : List EventPair → EventPair → World → World
  unfolding host
  delivered before ep w =
      if is_wanted before ep then run_actions here (deliveries ep.receiver ep.event) w else w

  plan-delivered :
      (before : List EventPair) (ep : EventPair) (eps : List EventPair) (w : World)
      → run_actions here (plan before (ep ∷ eps)) w
        ≡ run_actions here
            (plan (before ++ ep ∷ []) eps)
            (free_event ep.event (delivered before ep w))
  unfolding plan run_actions delivered host act
  plan-delivered before ep eps w = ground arith

  delivered_not :
      (before : List EventPair) (ep : EventPair) (w : World)
      → is_wanted before ep ≡ false
      → delivered before ep w ≡ w
  unfolding delivered
  delivered_not before ep w un = ground arith

  delivered_wanted :
      (before : List EventPair) (ep : EventPair) (e : Event) (w : World)
      → is_wanted before ep ≡ true
      → ep.event ≡ some e
      → delivered before ep w ≡ (event code caller ep.receiver (some e) w).0
  unfolding delivered run_actions host act
  delivered_wanted before ep e w wanted some_ = ground arith

  free-Stays :
      (e : Option Event) (gone : ℕ → Bool) (w v : World)
      → IsSound k v × Stays k gone w v
      → IsSound k (free_event e v) × Stays k gone w (free_event e v)
  unfolding is_home
  free-Stays e gone w v f = ((Fine-free k v f.0 e).0, f.1)

  deliver-Stays :
      (before : List EventPair) (ep : EventPair) (e : Event) (w : World)
      → IsSound k w
      → IsReady k before w ep
      → ep.event ≡ some e
      → is_wanted before ep ≡ true
      → IsSound k (event code caller ep.receiver (some e) w).0
        × Stays k (λ r. deletes r ep) w (event code caller ep.receiver (some e) w).0
  deliver-Stays before ep e w s ready same wanted =
      let pair : EventPair = record { receiver = ep.receiver; event = some e } in
      let own : is_own pair ≡ true = ground arith in
      let home : is_home k w ep.receiver ≡ true = ground (arith, ready.0) in
      let real : is_null ep.receiver ≡ false = ground arith in
      let f = event-Stays k code caller set careful ep.receiver e w real s home own in
      (f.0, λ r kept at_home. f.1 r (ground arith) at_home)

  delivered-Stays :
      (before : List EventPair) (ep : EventPair) (w : World)
      → IsSound k w
      → IsReady k before w ep
      → IsSound k (delivered before ep w) × Stays k (λ r. deletes r ep) w (delivered before ep w)
  delivered-Stays before ep w s ready =
      let Kept = λ (v : World). IsSound k v × Stays k (λ r. deletes r ep) w v in
      let still : Kept w = (s, λ r kept at_home. (refl, at_home)) in
      elim (Bool-cases (is_wanted before ep)) [
        | inl wanted ↦ elim (Option-cases ep.event) [
          | inl none_ ↦ absurd (ground arith)
          | inr (e, some_) ↦
              subst Kept (sym (delivered_wanted before ep e w wanted some_))
                (deliver-Stays before ep e w s ready some_ wanted)
        ]
        | inr un ↦ subst Kept (sym (delivered_not before ep w un)) still
      ]

  IsReady-next :
      (before : List EventPair) (ep : EventPair) (eps : List EventPair) (w v : World)
      → Stays k (λ r. deletes r ep) w v
      → All (IsReady k before w) eps
      → All (IsReady k (before ++ ep ∷ []) v) eps
  IsReady-next before ep eps w v f =
      All-mono (IsReady k before w) (IsReady k (before ++ ep ∷ []) v) eps (λ x ready. (
        λ none_yet.
            let split = any-append (deletes x.receiver) before (ep ∷ []) in
            (f x.receiver (ground arith) (ready.0 (ground arith))).1,
        ready.1,
      ))

  -- The loops destroy no object of the thread but those with a deferred delete in the batch.
  pub plan-Stays :
      (before eps : List EventPair) (w : World)
      → IsSound k w
      → All (IsReady k before w) eps
      → IsSound k (run_actions here (plan before eps) w)
        × Stays k (λ r. any (deletes r) eps) w (run_actions here (plan before eps) w)
  unfolding plan run_actions
  plan-Stays before [] w s ready = (s, λ r kept at_home. (refl, at_home))
  plan-Stays before (ep ∷ eps) w s ready =
      let v = free_event ep.event (delivered before ep w) in
      let f =
        free-Stays ep.event (λ r. deletes r ep) w (delivered before ep w)
          (delivered-Stays before ep w s ready.0) in
      let g =
        plan-Stays (before ++ ep ∷ []) eps v f.0 (IsReady-next before ep eps w v f.1 ready.1) in
      let u = run_actions here (plan (before ++ ep ∷ []) eps) v in
      let both =
        Stays-join k (λ r. deletes r ep) (λ r. any (deletes r) eps)
          (λ r. any (deletes r) (ep ∷ eps)) w v u (λ r. refl) f.1 g.1 in
      subst (λ x. IsSound k x × Stays k (λ r. any (deletes r) (ep ∷ eps)) w x)
        (sym (plan-delivered before ep eps w)) (g.0, both)
