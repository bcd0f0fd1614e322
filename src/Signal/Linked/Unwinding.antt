-- ===== src/Signal/Linked/Unwinding.antt =====
-- What ~Object() does to the objects and the connections (src/Object.cpp).
use qobject_mimic.Base.{
  All-mono, All-both, eq_of_test, ℕ, ◌+◌, List, [], ◌∷◌, Option, none, some, Bool, true, false,
  if◌then◌else◌, ◌==◌, remove_if, ◌≡◌, ◌≢◌, ◌⊎◌, refl, arith, ◌∙◌, ap, sym, subst, update,
  update_ne, Bool-cases, inl, inr,
}
use qobject_mimic.World.{
  World, Code, Object, warn, faulted, put_object, object_dispatcher, on_dispatcher,
}
use qobject_mimic.Object.Lifetime.{
  destroy_object, wind_down, release, check_thread, take_incoming, take_callbacks, disconnect_all,
  run_callbacks,
}
use qobject_mimic.Signal.{Entry, Boost}
use qobject_mimic.Signal.Connections.{is_to, is_incoming, remove_if_same}
use qobject_mimic.Signal.Linked.{is_owned, LinkedAt, IsLinked}
use qobject_mimic.Signal.Linked.Dead.{AreDead, disconnect_all-dead}

-- Two states with the same objects and connections.
abbrev pub SameLinks : World → World → Type 0
SameLinks v w =
    (v.heap ≡ w.heap)
    × (v.connections ≡ w.connections)
    × (v.alive ≡ w.alive)
    × (v.next_id ≡ w.next_id)

-- Callbacks that leave the objects and the connections alone.
abbrev pub IsInert : Code → Type 0
IsInert code = (n : ℕ) (v : World) → SameLinks (code.run n v) v

run_callbacks-SameLinks :
    (code : Code) (cs : List ℕ) (w : World) → IsInert code → SameLinks (run_callbacks code cs w) w
unfolding run_callbacks
run_callbacks-SameLinks code [] w inert = (refl, refl, refl, refl)
run_callbacks-SameLinks code (c ∷ cs) w inert =
    let rest = run_callbacks-SameLinks code cs (code.run c w) inert in
    let one = inert c w in (rest.0 ∙ one.0, rest.1 ∙ one.1, rest.2 ∙ one.2, rest.3 ∙ one.3)

check_thread-cases :
    (caller : ℕ) (ob : Object) (w : World)
    → (check_thread caller ob w ≡ w) ⊎ (check_thread caller ob w ≡ warn w)
unfolding check_thread
check_thread-cases caller ob w = ground arith

-- ~Object() after its diagnostic.
abbrev after_check : Code → ℕ → Object → World → World
after_check code o ob w =
    let (w2, handles) = take_incoming o (record w { alive = update w.alive ob.life false }) in
    let (w3, callbacks) = take_callbacks o (disconnect_all code handles w2) in
    release code o ob (run_callbacks code callbacks w3)

-- The objects, the connections, the life tokens and the next token of a state.
abbrev HasLinks : (ℕ → Option Object) → List Entry → (ℕ → Bool) → ℕ → World → Type 0
HasLinks heap es alive next w =
    ((p : ℕ) → w.heap p ≡ heap p) × (w.connections ≡ es) × (w.alive ≡ alive) × (w.next_id ≡ next)

take_incoming-eq :
    (o : ℕ) (ob : Object) (w : World)
    → w.heap o ≡ some ob
    → take_incoming o w ≡ (put_object o (record ob { incoming = [] }) w, ob.incoming)
unfolding take_incoming
take_incoming-eq o ob w e = ground arith

take_callbacks-links :
    (o p : ℕ) (w : World)
    → o ≢ p
    → ((take_callbacks o w).0.heap p ≡ w.heap p)
      × ((take_callbacks o w).0.connections ≡ w.connections)
      × ((take_callbacks o w).0.alive ≡ w.alive)
      × ((take_callbacks o w).0.next_id ≡ w.next_id)
unfolding take_callbacks
take_callbacks-links o p w far = ground arith

release-links :
    (code : Code) (o p : ℕ) (ob : Object) (w : World)
    → ((release code o ob w).heap p ≡ update w.heap o none p)
      × ((release code o ob w).connections ≡ w.connections)
      × ((release code o ob w).alive ≡ w.alive)
      × ((release code o ob w).next_id ≡ w.next_id)
unfolding release on_dispatcher object_dispatcher
release-links code o p ob w = ground arith

owned_dead :
    (heap : ℕ → Option Object) (alive : ℕ → Bool) (o : ℕ) (ob : Object) (e : Entry)
    → heap o ≡ some ob
    → is_to o e ≡ true
    → is_owned (heap e.2.receiver) e ≡ true
    → update alive ob.life false e.2.life ≡ false
owned_dead heap alive o ob e there hit own =
    let here = ap heap (eq_of_test e.2.receiver o hit) ∙ there in ground (arith, here)

linked_dead :
    (o : ℕ) (ob : Object) (w : World)
    → w.heap o ≡ some ob
    → IsLinked w
    → AreDead (update w.alive ob.life false) (is_incoming ob.incoming) w.connections
linked_dead o ob w there v =
    let at_o = subst (λ x. LinkedAt o x w.connections w.alive w.next_id) there (v.linked o) in
    All-mono
      (λ e. (is_incoming ob.incoming e ≡ is_to o e) × (is_owned (w.heap e.2.receiver) e ≡ true))
      (λ e. is_incoming ob.incoming e ≡ true → update w.alive ob.life false e.2.life ≡ false)
      w.connections
      (λ e both listed. owned_dead w.heap w.alive o ob e there (sym both.0 ∙ listed) both.1)
      (All-both (λ e. is_incoming ob.incoming e ≡ is_to o e)
        (λ e. is_owned (w.heap e.2.receiver) e ≡ true) w.connections at_o.0 v.owned)

update_agree :
    {A : Type 0} (f g : ℕ → A) (o : ℕ) (a : A) (p : ℕ)
    → (o ≢ p → f p ≡ g p)
    → update f o a p ≡ update g o a p
update_agree f g o a p same = elim (Bool-cases (o == p)) [
  | inl here ↦ ap (λ t. if t then a else f p) here ∙ sym (ap (λ t. if t then a else g p) here)
  | inr far ↦
      ap (λ t. if t then a else f p) far
      ∙ same (ground arith)
      ∙ sym (ap (λ t. if t then a else g p) far)
]

module _ {code : Code} (b : Boost code) (inert : IsInert code) where
  pub destroy_gone :
      (caller o : ℕ) (w : World) → w.heap o ≡ none → destroy_object code caller o w ≡ faulted w
  unfolding destroy_object
  destroy_gone caller o w gone =
      ap
        (λ x. elim x [
          | none ↦ faulted w
          | some ob' ↦ release code o ob' (wind_down code caller o ob' w)
        ])
        gone

  destroyed-after_check :
      (caller o : ℕ) (ob : Object) (w : World)
      → w.heap o ≡ some ob
      → destroy_object code caller o w ≡ after_check code o ob (check_thread caller ob w)
  unfolding destroy_object wind_down
  destroyed-after_check caller o ob w there =
      ap
        (λ x. elim x [
          | none ↦ faulted w
          | some ob' ↦ release code o ob' (wind_down code caller o ob' w)
        ])
        there

  after_check-links :
      (o : ℕ) (ob : Object) (w : World)
      → w.heap o ≡ some ob
      → IsLinked w
      → HasLinks
          (update w.heap o none)
          (remove_if (is_to o) w.connections)
          (update w.alive ob.life false)
          w.next_id
          (after_check code o ob w)
  after_check-links o ob w there v =
      let at_o = subst (λ x. LinkedAt o x w.connections w.alive w.next_id) there (v.linked o) in
      let w1 = record w { alive = update w.alive ob.life false } in
      let w2 = put_object o (record ob { incoming = [] }) w1 in
      let left = remove_if (is_incoming ob.incoming) w.connections in
      let cut = record w2 { connections = left } in
      let w4 = λ (v3 : World). run_callbacks code (take_callbacks o v3).1 (take_callbacks o v3).0 in
      let ended : after_check code o ob w ≡ release code o ob (w4 cut) =
        ap (λ r. release code o ob (w4 (disconnect_all code r.1 r.0)))
          (take_incoming-eq o ob w1 there)
        ∙ ap (λ v3. release code o ob (w4 v3))
            (disconnect_all-dead b ob.incoming w2 (linked_dead o ob w there v)) in
      let ran =
        run_callbacks-SameLinks code (take_callbacks o cut).1 (take_callbacks o cut).0 inert in
      let swapped = take_callbacks-links o (o + 1) cut (ground arith) in
      let freed = release-links code o o ob (w4 cut) in
      subst
        (HasLinks (update w.heap o none) (remove_if (is_to o) w.connections)
          (update w.alive ob.life false) w.next_id)
        (sym ended)
        (
          λ p.
              (release-links code o p ob (w4 cut)).0
              ∙ update_agree (w4 cut).heap w.heap o none p (λ far.
                ap (λ f. f p) ran.0
                ∙ (take_callbacks-links o p cut far).0
                ∙ update_ne w.heap o p (some (record ob { incoming = [] })) far),
          freed.1
              ∙ ran.1
              ∙ swapped.1
              ∙ remove_if_same (is_incoming ob.incoming) (is_to o) w.connections at_o.0,
          freed.2 ∙ ran.2 ∙ swapped.2,
          freed.3 ∙ ran.3 ∙ swapped.3,
        )

  pub destroy_object-links :
      (caller o : ℕ) (ob : Object) (w : World)
      → w.heap o ≡ some ob
      → IsLinked w
      → HasLinks
          (update w.heap o none)
          (remove_if (is_to o) w.connections)
          (update w.alive ob.life false)
          w.next_id
          (destroy_object code caller o w)
  destroy_object-links caller o ob w there v =
      let L =
        HasLinks (update w.heap o none) (remove_if (is_to o) w.connections)
          (update w.alive ob.life false) w.next_id in
      subst L (sym (destroyed-after_check caller o ob w there))
        (elim (check_thread-cases caller ob w) [
          | inl calm ↦
              subst (λ u. L (after_check code o ob u)) (sym calm) (after_check-links o ob w there v)
          | inr warned ↦
              subst (λ u. L (after_check code o ob u)) (sym warned)
                (after_check-links o ob (warn w) there
                  (record { owned = v.owned; linked = v.linked; apart = v.apart }))
        ])
