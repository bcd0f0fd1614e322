-- ===== src/Signal/Linked/Ending.antt =====
-- disconnect() of Object and Signal, and what it keeps (src/Object.h, src/Object.cpp, src/Signal.h).
use qobject_mimic.Base.{
  All-mono, All-kept, All-left, eq_of_test, ℕ, List, [], ◌∷◌, Option, none, some, Bool, true, false,
  if◌then◌else◌, ◌==◌, remove_if, keep_if, any, ◌≡◌, ◌≢◌, refl, arith, All, ◌∙◌, ap, sym, subst,
  is_some, Bool-cases, inl, inr, remove_if_of_none,
}
use qobject_mimic.World.{World, Code, Object}
use qobject_mimic.Signal.{Entry, has_handle, destroy_slots, Boost, disconnect}
use qobject_mimic.Signal.Connections.{is_to, is_incoming, destroy_slots-connections}
use qobject_mimic.Signal.Linked.{
  is_owned, LinkedAt, same_life, IsLinked, forget, Ends, destroy_slots-heap, destroy_slots-alive,
}

owned_lives :
    (o : ℕ) (x : Option Object) (e : Entry) (es : List Entry) (alive : ℕ → Bool) (next : ℕ)
    → LinkedAt o x es alive next
    → is_owned x e ≡ true
    → (alive e.2.life ≡ true) × (is_some x ≡ true)
owned_lives o none e es alive next v own = ground arith
owned_lives o (some ob) e es alive next v own = (ground (arith, v.2), refl)

-- A connection of a linked program ends at a receiver that lives.
owned-Ends :
    (h : ℕ) (w : World)
    → IsLinked w
    → All (Ends h w.alive w.heap) (keep_if (has_handle h) w.connections)
owned-Ends h w v =
    All-kept (λ e. is_owned (w.heap e.2.receiver) e ≡ true) (Ends h w.alive w.heap) (has_handle h)
      w.connections
      (λ e hit own.
        let both =
          owned_lives e.2.receiver (w.heap e.2.receiver) e w.connections w.alive w.next_id
            (v.linked e.2.receiver) own in
        (ground arith, both.0, both.1))
      v.owned

is_incoming-left :
    (h : ℕ) (hs : List ℕ) (e : Entry)
    → has_handle h e ≡ false
    → is_incoming (remove_if (λ c. c == h) hs) e ≡ is_incoming hs e
is_incoming-left h [] e miss = refl
is_incoming-left h (i ∷ hs) e miss = ground (arith, is_incoming-left h hs e miss)

any-left :
    (h i : ℕ) (es : List Entry)
    → (i == h) ≡ false
    → any (has_handle i) (remove_if (has_handle h) es) ≡ any (has_handle i) es
any-left h i [] other = refl
any-left h i (e ∷ es) other = ground (arith, any-left h i es other)

current_of :
    (h : ℕ) (hs : List ℕ) (es : List Entry)
    → All (λ i. any (has_handle i) es ≡ true) hs
    → any (λ c. c == h) hs ≡ true
    → any (has_handle h) es ≡ true
current_of h [] es v e = ground arith
current_of h (i ∷ hs) es v e = elim (Bool-cases (i == h)) [
  | inl same ↦ subst (λ k. any (has_handle k) es ≡ true) (eq_of_test i h same) v.0
  | inr other ↦ current_of h hs es v.1 (ground arith)
]

hit_of :
    (o h : ℕ) (hs : List ℕ) (es : List Entry)
    → All (λ e. is_incoming hs e ≡ is_to o e) es
    → any (λ c. c == h) hs ≡ true
    → any (has_handle h) es ≡ true
    → any (is_to o) (keep_if (has_handle h) es) ≡ true
hit_of o h hs [] v listed e = ground arith
hit_of o h hs (x ∷ es) v listed e = elim (Bool-cases (has_handle h x)) [
  | inl same ↦
      let here : is_incoming hs x ≡ true =
        subst (λ k. any (λ c. c == k) hs ≡ true) (eq_of_test h x.0 same) listed in
      ground (arith, v.0)
  | inr other ↦ ground (arith, hit_of o h hs es v.1 listed)
]

incoming_left :
    (o h : ℕ) (hs : List ℕ) (es : List Entry)
    → All (λ e. is_incoming hs e ≡ is_to o e) es
    → All (λ i. any (has_handle i) es ≡ true) hs
    → (if any (is_to o) (keep_if (has_handle h) es) then remove_if (λ c. c == h) hs else hs)
      ≡ remove_if (λ c. c == h) hs
incoming_left o h hs es tracked current = elim (Bool-cases (any (λ c. c == h) hs)) [
  | inl listed ↦
      ap (λ b. if b then remove_if (λ c. c == h) hs else hs)
        (hit_of o h hs es tracked listed (current_of h hs es current listed))
  | inr unlisted ↦ ground (arith, remove_if_of_none (λ c. c == h) hs unlisted)
]

-- The object at `o` after the connections of handle `h` have ended.
forget-LinkedAt :
    (h o : ℕ) (x : Option Object) (es : List Entry) (alive : ℕ → Bool) (next : ℕ)
    → LinkedAt o x es alive next
    → LinkedAt o
        (forget h (any (is_to o) (keep_if (has_handle h) es)) x)
        (remove_if (has_handle h) es)
        alive
        next
forget-LinkedAt h o none es alive next v = tt
forget-LinkedAt h o (some ob) es alive next v =
    subst
      (λ hs.
        LinkedAt o (some (record ob { incoming = hs })) (remove_if (has_handle h) es) alive next)
      (sym (incoming_left o h ob.incoming es v.0 v.1))
      (
        All-left (λ e. is_incoming ob.incoming e ≡ is_to o e)
            (λ e. is_incoming (remove_if (λ c. c == h) ob.incoming) e ≡ is_to o e) (has_handle h) es
            (λ e miss old. is_incoming-left h ob.incoming e miss ∙ old) v.0,
        All-left (λ i. any (has_handle i) es ≡ true)
            (λ i. any (has_handle i) (remove_if (has_handle h) es) ≡ true) (λ c. c == h) ob.incoming
            (λ i miss old. any-left h i es miss ∙ old) v.1,
        v.2,
        v.3,
      )

is_owned-forget :
    (h : ℕ) (b : Bool) (x : Option Object) (e : Entry) → is_owned (forget h b x) e ≡ is_owned x e
is_owned-forget h b none e = refl
is_owned-forget h b (some ob) e = refl

same_life-forget :
    (h : ℕ) (a b : Bool) (x y : Option Object)
    → same_life (forget h a x) (forget h b y) ≡ same_life x y
same_life-forget h a b none y = refl
same_life-forget h a b (some x) none = refl
same_life-forget h a b (some x) (some y) = refl

-- What IsLinked says of a state with these parts.
pub IsLinked-parts :
    (w : World) (heap : ℕ → Option Object) (es : List Entry)
    → ((p : ℕ) → w.heap p ≡ heap p)
    → w.connections ≡ es
    → All (λ e. is_owned (heap e.2.receiver) e ≡ true) es
    → ((o : ℕ) → LinkedAt o (heap o) es w.alive w.next_id)
    → ((o p : ℕ) → o ≢ p → same_life (heap o) (heap p) ≡ false)
    → IsLinked w
IsLinked-parts w heap es eh ec owned linked apart = record {
  owned = subst (All (λ e. is_owned (w.heap e.2.receiver) e ≡ true)) (sym ec) (
      All-mono (λ e. is_owned (heap e.2.receiver) e ≡ true)
        (λ e. is_owned (w.heap e.2.receiver) e ≡ true) es
        (λ e own. ap (λ x. is_owned x e) (eh e.2.receiver) ∙ own) owned);
  linked = λ o.
      subst (λ fs. LinkedAt o (w.heap o) fs w.alive w.next_id) (sym ec)
        (subst (λ x. LinkedAt o x es w.alive w.next_id) (sym (eh o)) (linked o));
  apart = λ o p far.
      ap (λ x. same_life x (w.heap p)) (eh o) ∙ ap (same_life (heap o)) (eh p) ∙ apart o p far;
}

module _ {code : Code} (b : Boost code) where
  pub disconnect-IsLinked : (h : ℕ) (w : World) → IsLinked w → IsLinked (disconnect code h w)
  unfolding disconnect
  disconnect-IsLinked h w v =
      let kept = keep_if (has_handle h) w.connections in
      let left = remove_if (has_handle h) w.connections in
      let w' = destroy_slots kept (record w { connections = left }) in
      let rest = destroy_slots-alive kept (record w { connections = left }) in
      subst IsLinked (sym (b.disconnect_lem h w)) (
        IsLinked-parts w' (λ p. forget h (any (is_to p) kept) (w.heap p)) left
          (λ p. destroy_slots-heap h p kept (record w { connections = left }) (owned-Ends h w v))
          (destroy_slots-connections kept (record w { connections = left }))
          (All-left (λ e. is_owned (w.heap e.2.receiver) e ≡ true)
            (λ e.
              is_owned (forget h (any (is_to e.2.receiver) kept) (w.heap e.2.receiver)) e ≡ true)
            (has_handle h) w.connections
            (λ e miss own.
              is_owned-forget h (any (is_to e.2.receiver) kept) (w.heap e.2.receiver) e ∙ own)
            v.owned)
          (λ o.
            subst (λ f. LinkedAt o (forget h (any (is_to o) kept) (w.heap o)) left f w'.next_id)
              (sym rest.0)
              (subst (λ n. LinkedAt o (forget h (any (is_to o) kept) (w.heap o)) left w.alive n)
                (sym rest.1)
                (forget-LinkedAt h o (w.heap o) w.connections w.alive w.next_id (v.linked o))))
          (λ o p far.
            same_life-forget h (any (is_to o) kept) (any (is_to p) kept) (w.heap o) (w.heap p)
            ∙ v.apart o p far))
