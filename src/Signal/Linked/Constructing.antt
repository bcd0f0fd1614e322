-- ===== src/Signal/Linked/Constructing.antt =====
-- The construction of objects (src/Object.cpp).
use qobject_mimic.Base.{
  All-mono, eq_of_test, ℕ, ◌+◌, List, [], Option, none, some, Bool, true, false, if◌then◌else◌,
  ◌==◌, ◌≡◌, ◌≢◌, refl, arith, ◌∙◌, ap, sym, subst, update, Bool-cases, inl, inr,
}
use qobject_mimic.World.{World, Object, TimerFields}
use qobject_mimic.Object.Lifetime.{construct}
use qobject_mimic.Signal.{Entry}
use qobject_mimic.Signal.Connections.{is_to, is_incoming}
use qobject_mimic.Signal.Linked.{is_owned, LinkedAt, same_life, IsLinked}
use qobject_mimic.Signal.Linked.Making.{update-cases}

owned_elsewhere :
    (heap : ℕ → Option Object) (o q : ℕ) (e : Entry)
    → heap o ≡ none
    → is_owned (heap q) e ≡ true
    → (q == o) ≡ false
owned_elsewhere heap o q e free own = elim (Bool-cases (q == o)) [
  | inl same ↦
      let here = subst (λ k. heap k ≡ none) (sym (eq_of_test q o same)) free in ground (arith, here)
  | inr far ↦ far
]

is_owned-new :
    (heap : ℕ → Option Object) (o q : ℕ) (ob : Object) (e : Entry)
    → heap o ≡ none
    → is_owned (heap q) e ≡ true
    → is_owned (update heap o (some ob) q) e ≡ true
is_owned-new heap o q ob e free own = ground (arith, owned_elsewhere heap o q e free own)

LinkedAt-grown :
    (o : ℕ) (x : Option Object) (es : List Entry) (alive : ℕ → Bool) (next : ℕ)
    → LinkedAt o x es alive next
    → LinkedAt o x es (update alive (next + 1) true) (next + 2)
LinkedAt-grown o none es alive next v = tt
LinkedAt-grown o (some ob) es alive next v =
    (v.0, v.1, ground (arith, v.2, v.3), ground (arith, v.3))

new_life :
    (o : ℕ) (ob : Object) (x : Option Object) (es : List Entry) (alive : ℕ → Bool) (next : ℕ)
    → ob.life ≡ next + 1
    → LinkedAt o x es alive next
    → (same_life (some ob) x ≡ false) × (same_life x (some ob) ≡ false)
new_life o ob none es alive next born v = (refl, refl)
new_life o ob (some old) es alive next born v = (ground (arith, v.3), ground (arith, v.3))

same_life-new :
    (heap : ℕ → Option Object) (o p q : ℕ) (ob : Object)
    → p ≢ q
    → same_life (some ob) (heap q) ≡ false
    → same_life (heap p) (some ob) ≡ false
    → same_life (heap p) (heap q) ≡ false
    → same_life (update heap o (some ob) p) (update heap o (some ob) q) ≡ false
same_life-new heap o p q ob far left right old = elim (Bool-cases (o == p)) [
  | inl here ↦
      let elsewhere : (o == q) ≡ false = ground arith in
      ap (λ b. same_life (if b then some ob else heap p) (update heap o (some ob) q)) here
      ∙ ap (λ b. same_life (some ob) (if b then some ob else heap q)) elsewhere
      ∙ left
  | inr there ↦
      ap (λ b. same_life (if b then some ob else heap p) (update heap o (some ob) q)) there
      ∙ elim (Bool-cases (o == q)) [
        | inl here ↦ ap (λ b. same_life (heap p) (if b then some ob else heap q)) here ∙ right
        | inr elsewhere ↦
            ap (λ b. same_life (heap p) (if b then some ob else heap q)) elsewhere ∙ old
      ]
]

-- An object made at an address that holds none.
pub construct-IsLinked :
    (caller o : ℕ) (timer : Option TimerFields) (w : World)
    → w.heap o ≡ none
    → IsLinked w
    → IsLinked (construct caller o timer w)
unfolding construct
construct-IsLinked caller o timer w free v =
    let ob : Object = record {
      life = w.next_id + 1;
      affinity = w.next_id + 2;
      delete_later_posted = false;
      name = [];
      cleanup_callbacks = [];
      incoming = [];
      timer = timer;
    } in
    let heap' = update w.heap o (some ob) in
    let alive' = update w.alive (w.next_id + 1) true in
    let next' = w.next_id + 2 in
    record {
      owned =
          All-mono (λ e. is_owned (w.heap e.2.receiver) e ≡ true)
            (λ e. is_owned (heap' e.2.receiver) e ≡ true) w.connections
            (λ e own. is_owned-new w.heap o e.2.receiver ob e free own) v.owned;
      linked =
          update-cases (λ p x. LinkedAt p x w.connections alive' next') w.heap o (some ob)
            (
              All-mono (λ e. is_owned (w.heap e.2.receiver) e ≡ true)
                  (λ e. is_incoming [] e ≡ is_to o e) w.connections
                  (λ e own. sym (owned_elsewhere w.heap o e.2.receiver e free own)) v.owned,
              tt,
              ground arith,
              ground arith,
            )
            (λ p far. LinkedAt-grown p (w.heap p) w.connections w.alive w.next_id (v.linked p));
      apart = λ p q far.
          same_life-new w.heap o p q ob far
            (new_life q ob (w.heap q) w.connections w.alive w.next_id refl (v.linked q)).0
            (new_life p ob (w.heap p) w.connections w.alive w.next_id refl (v.linked p)).1
            (v.apart p q far);
    }
