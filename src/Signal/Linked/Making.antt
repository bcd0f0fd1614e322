-- ===== src/Signal/Linked/Making.antt =====
-- The making of connections (src/Object.h, src/Object.cpp).
use qobject_mimic.Base.{
  All-mono, any-append, eq_of_test, ℕ, List, [], ◌∷◌, ◌++◌, Option, none, some, Bool, true, false,
  if◌then◌else◌, ◌==◌, nullptr, any, ◌≡◌, ◌≢◌, refl, arith, All, ◌∙◌, ap, sym, subst, is_null,
  update, All-append, Bool-cases, inl, inr, Option-cases, ==_of_ne,
}
use qobject_mimic.World.{World, Code, Object, Connection, ConnectionType, faulted}
use qobject_mimic.Signal.{Entry, has_handle, Boost, connect}
use qobject_mimic.Signal.Connections.{is_to, is_incoming}
use qobject_mimic.Signal.Roundtrip.{
  connected, connection_to, connect-connected, fresh_elsewhere, tracked_still, is_incoming-append,
}
use qobject_mimic.Signal.Linked.{is_owned, LinkedAt, same_life, IsLinked}

-- The handles of a list are still those of connections when one more is made.
current_still :
    (h sig : ℕ) (c : Connection) (hs : List ℕ) (es : List Entry)
    → All (λ i. any (has_handle i) es ≡ true) hs
    → All (λ i. any (has_handle i) (es ++ (h, sig, c) ∷ []) ≡ true) hs
current_still h sig c [] es v = tt
current_still h sig c (i ∷ hs) es v = (
  ground (arith, any-append (has_handle i) es ((h, sig, c) ∷ [])),
  current_still h sig c hs es v.1,
)

-- Another object than the receiver.
LinkedAt-other :
    (h sig o : ℕ) (c : Connection) (x : Option Object) (es : List Entry) (alive : ℕ → Bool)
    (next : ℕ)
    → any (has_handle h) es ≡ false
    → c.receiver ≢ o
    → LinkedAt o x es alive next
    → LinkedAt o x (es ++ (h, sig, c) ∷ []) alive next
LinkedAt-other h sig o c none es alive next fresh far v = tt
LinkedAt-other h sig o c (some ob) es alive next fresh far v =
    let elsewhere = fresh_elsewhere h ob.incoming es fresh v.1 in
    (
      All-append (λ e. is_incoming ob.incoming e ≡ is_to o e) es ((h, sig, c) ∷ []) v.0
          (elsewhere ∙ sym (==_of_ne c.receiver o far), tt),
      current_still h sig c ob.incoming es v.1,
      v.2,
      v.3,
    )

-- The receiver.
LinkedAt-receiver :
    (h sig o : ℕ) (c : Connection) (ob : Object) (es : List Entry) (alive : ℕ → Bool) (next : ℕ)
    → any (has_handle h) es ≡ false
    → c.receiver ≡ o
    → LinkedAt o (some ob) es alive next
    → LinkedAt o
        (some (record ob { incoming = ob.incoming ++ h ∷ [] }))
        (es ++ (h, sig, c) ∷ [])
        alive
        next
LinkedAt-receiver h sig o c ob es alive next fresh own v = (
  All-append (λ e. is_incoming (ob.incoming ++ h ∷ []) e ≡ is_to o e) es ((h, sig, c) ∷ [])
      (tracked_still o h ob.incoming es fresh v.0)
      (ground (arith, is_incoming-append ob.incoming h (h, sig, c)), tt),
  All-append (λ i. any (has_handle i) (es ++ (h, sig, c) ∷ []) ≡ true) ob.incoming (h ∷ [])
      (current_still h sig c ob.incoming es v.1)
      (ground (arith, any-append (has_handle h) es ((h, sig, c) ∷ [])), tt),
  v.2,
  v.3,
)

-- An object written back under its life token.
is_owned-replace :
    (heap : ℕ → Option Object) (o q : ℕ) (ob ob' : Object) (e : Entry)
    → heap o ≡ some ob
    → ob'.life ≡ ob.life
    → is_owned (update heap o (some ob') q) e ≡ is_owned (heap q) e
is_owned-replace heap o q ob ob' e there same = ground arith

same_life-replace :
    (heap : ℕ → Option Object) (o p q : ℕ) (ob ob' : Object)
    → heap o ≡ some ob
    → ob'.life ≡ ob.life
    → same_life (update heap o (some ob') p) (update heap o (some ob') q)
      ≡ same_life (heap p) (heap q)
same_life-replace heap o p q ob ob' there same = ground arith

pub update-cases {ℓ κ} :
    {A : Type ℓ} (P : ℕ → A → Type κ) (f : ℕ → A) (o : ℕ) (a : A)
    → P o a
    → ((p : ℕ) → o ≢ p → P p (f p))
    → (p : ℕ) → P p (update f o a p)
update-cases P f o a here there p = elim (Bool-cases (o == p)) [
  | inl same ↦
      subst (λ b. P p (if b then a else f p)) (sym same)
        (subst (λ q. P q a) (eq_of_test o p same) here)
  | inr far ↦ subst (λ b. P p (if b then a else f p)) (sym far) (there p (ground arith))
]

connected-IsLinked :
    (h sig o : ℕ) (ob : Object) (c : Connection) (w : World)
    → w.heap o ≡ some ob
    → c.receiver ≡ o
    → c.life ≡ ob.life
    → any (has_handle h) w.connections ≡ false
    → IsLinked w
    → IsLinked (connected h sig o ob c w)
connected-IsLinked h sig o ob c w there own born fresh v =
    let ob' = record ob { incoming = ob.incoming ++ h ∷ [] } in
    let heap' = update w.heap o (some ob') in
    let es = w.connections ++ (h, sig, c) ∷ [] in
    record {
      owned =
          All-append (λ e. is_owned (heap' e.2.receiver) e ≡ true) w.connections ((h, sig, c) ∷ [])
            (All-mono (λ e. is_owned (w.heap e.2.receiver) e ≡ true)
              (λ e. is_owned (heap' e.2.receiver) e ≡ true) w.connections
              (λ e old. is_owned-replace w.heap o e.2.receiver ob ob' e there refl ∙ old) v.owned)
            (ground arith, tt);
      linked =
          update-cases (λ p x. LinkedAt p x es w.alive w.next_id) w.heap o (some ob')
            (LinkedAt-receiver h sig o c ob w.connections w.alive w.next_id fresh own
              (subst (λ x. LinkedAt o x w.connections w.alive w.next_id) there (v.linked o)))
            (λ p far.
              LinkedAt-other h sig p c (w.heap p) w.connections w.alive w.next_id fresh
                (ground arith) (v.linked p));
      apart = λ p q far. same_life-replace w.heap o p q ob ob' there refl ∙ v.apart p q far;
    }

pub faulted-IsLinked : (w : World) → IsLinked w → IsLinked (faulted w)
faulted-IsLinked w v = record { owned = v.owned; linked = v.linked; apart = v.apart }

module _ {code : Code} (b : Boost code) where
  connect_null :
      (sig receiver slot : ℕ) (type : ConnectionType) (w : World)
      → is_null receiver ≡ true
      → connect b sig receiver slot type w ≡ (w, nullptr)
  unfolding connect
  connect_null sig receiver slot type w null = ground arith

  connect_gone :
      (sig receiver slot : ℕ) (type : ConnectionType) (w : World)
      → is_null receiver ≡ false
      → w.heap receiver ≡ none
      → connect b sig receiver slot type w ≡ (faulted w, nullptr)
  unfolding connect
  connect_gone sig receiver slot type w set gone = ground arith

  pub connect-IsLinked :
      (sig receiver slot : ℕ) (type : ConnectionType) (w : World)
      → IsLinked w
      → IsLinked (connect b sig receiver slot type w).0
  connect-IsLinked sig receiver slot type w v = elim (Bool-cases (is_null receiver)) [
    | inl null ↦ subst IsLinked (sym (ap (λ r. r.0) (connect_null sig receiver slot type w null))) v
    | inr set ↦ elim (Option-cases (w.heap receiver)) [
      | inl gone ↦
          subst IsLinked (sym (ap (λ r. r.0) (connect_gone sig receiver slot type w set gone)))
            (faulted-IsLinked w v)
      | inr found ↦
          let (ob, there) = found in
          let c = connection_to receiver ob slot type in
          subst IsLinked
            (sym (
              ap (λ r. r.0) (connect-connected b sig receiver slot type ob w (ground arith) there)))
            (connected-IsLinked (b.connect sig c w).1 sig receiver ob c w there refl refl
              (b.handle_fresh sig c w) v)
    ]
  ]
