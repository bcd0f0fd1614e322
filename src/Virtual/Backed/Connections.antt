-- ===== src/Virtual/Backed/Connections.antt =====
-- connect(), disconnect() and addCleanupCallback() of src/Object.h on objects of the thread.
use qobject_mimic.Base.{
  ℕ, List, [], ◌∷◌, ◌++◌, some, true, false, is_null, ◌==◌, ◌≡◌, refl, arith, All, All-mono,
  All-append, any, any-append, keep_if, remove_if, ◌∙◌, sym, subst, ap, Bool-cases, inl, inr,
  if◌then◌else◌,
}
use qobject_mimic.World.{World, Code, Object, Connection, ConnectionType}
use qobject_mimic.Object.Lifetime.{track_incoming, destroy_cleanup, add_cleanup_callback}
use qobject_mimic.Signal.{
  Entry, Boost, has_handle, connect, signal_connect, disconnect, destroy_slots,
}
use qobject_mimic.Virtual.Backed.{
  is_home, IsSound, Fine, Fine-of, Fine-refl, Fine-then, Fine-put, Fine-put_own, Fine-if,
}
use qobject_mimic.Virtual.Backed.Operations.{home_object}
use qobject_mimic.Virtual.Backed.Delivery.{Fine-cut}

pub add_callback-Fine :
    (k o callback : ℕ) (w : World)
    → IsSound k w
    → is_home k w o ≡ true
    → Fine k w (add_cleanup_callback o callback w)
unfolding add_cleanup_callback
add_callback-Fine k o callback w s h =
    let (ob, e, home) = home_object k o w h in
    let new = record ob { cleanup_callbacks = ob.cleanup_callbacks ++ callback ∷ [] } in
    ground (arith, Fine-put k o ob new w s e refl refl (λ c listed. listed))

-- The end of one connection.
any-remove :
    (h c : ℕ) (hs : List ℕ)
    → any (λ x. x == c) (remove_if (λ x. x == h) hs) ≡ true
    → any (λ x. x == c) hs ≡ true
any-remove h c [] e = e
any-remove h c (x ∷ hs) e = ground (arith, any-remove h c hs)

cleanup-Fine :
    (k o life h : ℕ) (w : World)
    → IsSound k w
    → (w.alive life ≡ true → is_home k w o ≡ true)
    → Fine k w (destroy_cleanup o life h w)
unfolding destroy_cleanup
cleanup-Fine k o life h w s home = elim (Bool-cases (w.alive life)) [
  | inl lives ↦
      let (ob, e, _) = home_object k o w (home lives) in
      let new = record ob { incoming = remove_if (λ c. c == h) ob.incoming } in
      ground
        (arith, Fine-put k o ob new w s e refl refl (λ c listed. any-remove h c ob.incoming listed))
  | inr dead ↦ ground (arith, Fine-refl k w s)
]

-- The receivers of a list of connections live in the thread, if they live.
abbrev pub AreHome : ℕ → World → List Entry → Type 0
AreHome k w = All (λ e. w.alive e.2.life ≡ true → is_home k w e.2.receiver ≡ true)

cleanup-alive : (o life h : ℕ) (w : World) → (destroy_cleanup o life h w).alive ≡ w.alive
unfolding destroy_cleanup
cleanup-alive o life h w = ground arith

slots-Fine :
    (k : ℕ) (es : List Entry) (w : World)
    → IsSound k w
    → AreHome k w es
    → Fine k w (destroy_slots es w)
unfolding destroy_slots
slots-Fine k [] w s home = Fine-refl k w s
slots-Fine k (e ∷ es) w s home =
    let v = destroy_cleanup e.2.receiver e.2.life e.0 w in
    let f = cleanup-Fine k e.2.receiver e.2.life e.0 w s home.0 in
    let rest : AreHome k v es =
      All-mono _ _ es
        (λ c h lives.
          (f.1 c.2.receiver refl
            (h (ap (λ a. a c.2.life) (sym (cleanup-alive e.2.receiver e.2.life e.0 w)) ∙ lives))).1)
        home.1 in
    Fine-then k w v (destroy_slots es v) f (λ s'. slots-Fine k es v s' rest)

pub disconnect-Fine :
    {code : Code} (b : Boost code) (k h : ℕ) (w : World)
    → IsSound k w
    → AreHome k w (keep_if (has_handle h) w.connections)
    → Fine k w (disconnect code h w)
unfolding disconnect is_home
disconnect-Fine b k h w s home =
    let v = record w { connections = remove_if (has_handle h) w.connections } in
    let es = keep_if (has_handle h) w.connections in
    subst (Fine k w) (sym (b.disconnect_lem h w)) (
      Fine-then k w v (destroy_slots es v) (Fine-cut k (has_handle h) w s)
        (λ s'. slots-Fine k es v s' home))

-- No object lists the handle already.
abbrev pub IsUnlisted : ℕ → World → Type 0
IsUnlisted h w = (o : ℕ) (ob : Object) → w.heap o ≡ some ob → any (λ x. x == h) ob.incoming ≡ false

-- The connections of an object, with one more that is its own.
added-own :
    (h life : ℕ) (hs : List ℕ) (es : List Entry)
    → All (λ e. any (λ x. x == e.0) hs ≡ true → e.2.life ≡ life) es
    → any (has_handle h) es ≡ false
    → All (λ e. any (λ x. x == e.0) (hs ++ h ∷ []) ≡ true → e.2.life ≡ life) es
added-own h life hs [] own new = tt
added-own h life hs (e ∷ es) own new = (
  λ listed. let split = any-append (λ x. x == e.0) hs (h ∷ []) in own.0 (ground arith),
  added-own h life hs es own.1 (ground arith),
)

module _ {code : Code} (b : Boost code) (k : ℕ) where
  -- boost::signals2 holds the new connection, which no object lists.
  entry-Fine :
      (e : Entry) (w : World)
      → IsSound k w
      → IsUnlisted e.0 w
      → Fine k w (record w { connections = w.connections ++ e ∷ [] })
  unfolding is_home
  entry-Fine e w s new =
      Fine-of k w (record w { connections = w.connections ++ e ∷ [] }) s.safe
        (λ r here h. (refl, h)) s.queued s.timed
        (λ o ob eo.
          All-append _ w.connections (e ∷ []) (s.anchored o ob eo)
            (λ listed. absurd (ground (arith, new o ob eo)), tt))

  track-Fine :
      (o : ℕ) (ob : Object) (e : Entry) (w : World)
      → IsSound k w
      → IsSound k (record w { connections = w.connections ++ e ∷ [] })
      → w.heap o ≡ some ob
      → e.2.life ≡ ob.life
      → any (has_handle e.0) w.connections ≡ false
      → let v = record w { connections = w.connections ++ e ∷ [] } in
        Fine k v (track_incoming o e.0 v)
  unfolding track_incoming
  track-Fine o ob e w s s' eo life fresh =
      let v = record w { connections = w.connections ++ e ∷ [] } in
      let new = record ob { incoming = ob.incoming ++ e.0 ∷ [] } in
      let own =
        All-append _ w.connections (e ∷ [])
          (added-own e.0 ob.life ob.incoming w.connections (s.anchored o ob eo) fresh)
          (λ listed. life, tt) in
      ground (arith, Fine-refl k v s', Fine-put_own k o ob new v s' eo refl own)

  pub connect-Fine :
      (sig o slot : ℕ) (type : ConnectionType) (w : World)
      → IsSound k w
      → is_home k w o ≡ true
      → ((c : Connection) → IsUnlisted (b.connect sig c w).1 w)
      → Fine k w (connect b sig o slot type w).0
  unfolding connect signal_connect
  connect-Fine sig o slot type w s h new =
      let (ob, eo, home) = home_object k o w h in
      let c : Connection = record {
        receiver = o;
        life = ob.life;
        box = ob.affinity;
        slot = slot;
        type = type;
      } in
      let e : Entry = ((b.connect sig c w).1, sig, c) in
      let v = record w { connections = w.connections ++ e ∷ [] } in
      let f = entry-Fine e w s (new c) in
      let both =
        Fine-then k w v (track_incoming o e.0 v) f
          (λ s'. track-Fine o ob e w s s' eo refl (b.handle_fresh sig c w)) in
      let made : (b.connect sig c w).0 ≡ v = b.connect_lem sig c w in
      let same : (connect b sig o slot type w).0
          ≡ (if is_null o then w else track_incoming o e.0 (b.connect sig c w).0) =
        ground arith in
      subst (Fine k w) (sym same) (
        Fine-if k (is_null o) w w _ (Fine-refl k w s)
          (subst (λ x. Fine k w (track_incoming o e.0 x)) (sym made) both))
