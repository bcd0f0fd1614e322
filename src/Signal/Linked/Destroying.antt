-- ===== src/Signal/Linked/Destroying.antt =====
-- ~Object() among the connections of the whole program (src/Object.cpp).
use qobject_mimic.Base.{
  All-left, eq_of_test, ℕ, List, [], ◌∷◌, Option, none, some, Bool, true, false, ◌==◌, remove_if,
  any, ◌≡◌, ◌≢◌, refl, arith, All, ◌∙◌, ap, sym, subst, update, Bool-cases, inl, inr, Option-cases,
}
use qobject_mimic.World.{World, Code, Object}
use qobject_mimic.Object.Lifetime.{destroy_object}
use qobject_mimic.Signal.{Entry, has_handle, Boost}
use qobject_mimic.Signal.Connections.{is_to, is_incoming}
use qobject_mimic.Signal.Linked.{is_owned, LinkedAt, same_life, IsLinked}
use qobject_mimic.Signal.Linked.Ending.{IsLinked-parts}
use qobject_mimic.Signal.Linked.Unwinding.{IsInert, destroy_gone, destroy_object-links}
use qobject_mimic.Signal.Linked.Making.{update-cases, faulted-IsLinked}

is_owned-gone :
    (heap : ℕ → Option Object) (o : ℕ) (e : Entry)
    → is_to o e ≡ false
    → is_owned (heap e.2.receiver) e ≡ true
    → is_owned (update heap o none e.2.receiver) e ≡ true
is_owned-gone heap o e away own = ground arith

same_life-gone :
    (heap : ℕ → Option Object) (o p q : ℕ)
    → same_life (heap p) (heap q) ≡ false
    → same_life (update heap o none p) (update heap o none q) ≡ false
same_life-gone heap o p q old = ground arith

any-away :
    (o p i : ℕ) (hs : List ℕ) (es : List Entry)
    → o ≢ p
    → any (λ c. c == i) hs ≡ true
    → All (λ e. is_incoming hs e ≡ is_to p e) es
    → any (has_handle i) (remove_if (is_to o) es) ≡ any (has_handle i) es
any-away o p i hs [] far listed v = refl
any-away o p i hs (e ∷ es) far listed v = elim (Bool-cases (has_handle i e)) [
  | inl hit ↦
      let here : is_incoming hs e ≡ true =
        subst (λ k. any (λ c. c == k) hs ≡ true) (eq_of_test i e.0 hit) listed in
      ground (arith, v.0)
  | inr miss ↦ ground (arith, any-away o p i hs es far listed v.1)
]

listed_later :
    (h i : ℕ) (hs : List ℕ) → any (λ c. c == i) hs ≡ true → any (λ c. c == i) (h ∷ hs) ≡ true
listed_later h i hs listed = ground arith

All-listed_mono :
    (hs : List ℕ) (P Q : ℕ → Type 0)
    → ((i : ℕ) → any (λ c. c == i) hs ≡ true → P i → Q i)
    → All P hs
    → All Q hs
All-listed_mono [] P Q f v = tt
All-listed_mono (h ∷ hs) P Q f v = (
  f h (ground arith) v.0,
  All-listed_mono hs P Q (λ i listed. f i (listed_later h i hs listed)) v.1,
)

LinkedAt-left :
    (o p : ℕ) (ob : Object) (x : Option Object) (es : List Entry) (alive : ℕ → Bool) (next : ℕ)
    → o ≢ p
    → same_life (some ob) x ≡ false
    → LinkedAt p x es alive next
    → LinkedAt p x (remove_if (is_to o) es) (update alive ob.life false) next
LinkedAt-left o p ob none es alive next far other v = tt
LinkedAt-left o p ob (some x) es alive next far other v = (
  All-left (λ e. is_incoming x.incoming e ≡ is_to p e) (λ e. is_incoming x.incoming e ≡ is_to p e)
      (is_to o) es (λ e away old. old) v.0,
  All-listed_mono x.incoming (λ i. any (has_handle i) es ≡ true)
      (λ i. any (has_handle i) (remove_if (is_to o) es) ≡ true)
      (λ i listed old. any-away o p i x.incoming es far listed v.0 ∙ old) v.1,
  ground (arith, v.2),
  v.3,
)

module _ {code : Code} (b : Boost code) (inert : IsInert code) where
  pub destroy_object-IsLinked :
      (caller o : ℕ) (w : World) → IsLinked w → IsLinked (destroy_object code caller o w)
  destroy_object-IsLinked caller o w v = elim (Option-cases (w.heap o)) [
    | inl gone ↦ subst IsLinked (sym (destroy_gone b inert caller o w gone)) (faulted-IsLinked w v)
    | inr found ↦
        let (ob, there) = found in
        let parts = destroy_object-links b inert caller o ob w there v in
        let w' = destroy_object code caller o w in
        IsLinked-parts w' (update w.heap o none) (remove_if (is_to o) w.connections) parts.0 parts.1
          (All-left (λ e. is_owned (w.heap e.2.receiver) e ≡ true)
            (λ e. is_owned (update w.heap o none e.2.receiver) e ≡ true) (is_to o) w.connections
            (λ e away own. is_owned-gone w.heap o e away own) v.owned)
          (λ p.
            subst
              (λ f.
                LinkedAt p (update w.heap o none p) (remove_if (is_to o) w.connections) f
                  w'.next_id)
              (sym parts.2)
              (subst
                (λ n.
                  LinkedAt p (update w.heap o none p) (remove_if (is_to o) w.connections)
                    (update w.alive ob.life false) n)
                (sym parts.3)
                (update-cases
                  (λ q x.
                    LinkedAt q x (remove_if (is_to o) w.connections) (update w.alive ob.life false)
                      w.next_id)
                  w.heap o none tt
                  (λ q far.
                    LinkedAt-left o q ob (w.heap q) w.connections w.alive w.next_id far
                      (ap (λ x. same_life x (w.heap q)) (sym there) ∙ v.apart o q far) (v.linked q))
                  p)))
          (λ p q far. same_life-gone w.heap o p q (v.apart p q far))
  ]
