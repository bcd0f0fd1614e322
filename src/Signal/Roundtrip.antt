-- ===== src/Signal/Roundtrip.antt =====
-- Object::connect() followed by Object::disconnect() (src/Object.h, src/Object.cpp, src/Signal.h).
use qobject_mimic.Base.{
  ℕ, ◌+◌, List, [], ◌∷◌, ◌++◌, some, Bool, true, false, ◌||◌, ◌==◌, nullptr, remove_if, keep_if,
  any, ◌≡◌, ◌≢◌, refl, arith, All, ◌∙◌, ap, sym, subst, All-append, length-append, remove_if-append,
  remove_if_of_none,
}
use qobject_mimic.World.{World, Code, Object, Connection, ConnectionType, put_object}
use qobject_mimic.Object.Lifetime.{track_incoming, destroy_cleanup}
use qobject_mimic.Object.Lifetime.Destroyed.{remove_if-append_one}
use qobject_mimic.Signal.{
  Entry, has_handle, is_of, destroy_slots, Boost, receivers, disconnect, connect, signal_connect,
}
use qobject_mimic.Signal.Connections.{is_to, is_incoming, IsTracked}

-- Each handle in the object's list is that of a connection.
abbrev pub IsCurrent : Object → World → Type 0
IsCurrent ob w = All (λ h. any (has_handle h) w.connections ≡ true) ob.incoming

pub fresh_elsewhere :
    (h : ℕ) (hs : List ℕ) (es : List Entry)
    → any (has_handle h) es ≡ false
    → All (λ i. any (has_handle i) es ≡ true) hs
    → any (λ i. i == h) hs ≡ false
fresh_elsewhere h [] es new known = refl
fresh_elsewhere h (i ∷ hs) es new known = ground (arith, fresh_elsewhere h hs es new known.1)

pub keep_if-append {ℓ} :
    {A : Type ℓ} (p : A → Bool) (xs ys : List A)
    → keep_if p (xs ++ ys) ≡ keep_if p xs ++ keep_if p ys
keep_if-append p [] ys = refl
keep_if-append p (x ∷ xs) ys = ground (arith, keep_if-append p xs ys)

keep_if_of_none {ℓ} :
    {A : Type ℓ} (p : A → Bool) (xs : List A) → any p xs ≡ false → keep_if p xs ≡ []
keep_if_of_none p [] e = refl
keep_if_of_none p (x ∷ xs) e = ground (arith, keep_if_of_none p xs)

pub is_incoming-append :
    (hs : List ℕ) (h : ℕ) (e : Entry)
    → is_incoming (hs ++ h ∷ []) e ≡ is_incoming hs e || has_handle h e
is_incoming-append [] h e = ground arith
is_incoming-append (i ∷ hs) h e = ground (arith, is_incoming-append hs h e)

pub tracked_still :
    (o h : ℕ) (hs : List ℕ) (es : List Entry)
    → any (has_handle h) es ≡ false
    → All (λ e. is_incoming hs e ≡ is_to o e) es
    → All (λ e. is_incoming (hs ++ h ∷ []) e ≡ is_to o e) es
tracked_still o h hs [] new tracked = tt
tracked_still o h hs (e ∷ es) new tracked =
    (ground (arith, is_incoming-append hs h e), tracked_still o h hs es (ground arith) tracked.1)

-- What connect() makes of its arguments and the receiver.
abbrev pub connection_to : ℕ → Object → ℕ → ConnectionType → Connection
connection_to receiver ob slot type = record {
  receiver = receiver;
  life = ob.life;
  box = ob.affinity;
  slot = slot;
  type = type;
}

-- The state after a connect() whose handle is `h`.
abbrev pub connected : ℕ → ℕ → ℕ → Object → Connection → World → World
connected h sig receiver ob c w =
    put_object receiver (record ob { incoming = ob.incoming ++ h ∷ [] })
      (record w { connections = w.connections ++ (h, sig, c) ∷ [] })

pub connected-IsTracked :
    (h sig receiver : ℕ) (ob : Object) (c : Connection) (w : World)
    → c.receiver ≡ receiver
    → any (has_handle h) w.connections ≡ false
    → IsTracked receiver ob w
    → IsTracked receiver
        (record ob { incoming = ob.incoming ++ h ∷ [] })
        (connected h sig receiver ob c w)
connected-IsTracked h sig receiver ob c w own new tracked =
    All-append (λ e. is_incoming (ob.incoming ++ h ∷ []) e ≡ is_to receiver e) w.connections
      ((h, sig, c) ∷ []) (tracked_still receiver h ob.incoming w.connections new tracked)
      (ground (arith, is_incoming-append ob.incoming h (h, sig, c)), tt)

connected-receivers :
    (h sig receiver : ℕ) (ob : Object) (c : Connection) (w : World)
    → receivers sig (connected h sig receiver ob c w) ≡ receivers sig w + 1
unfolding receivers
connected-receivers h sig receiver ob c w = ground (
  arith,
  keep_if-append (is_of sig) w.connections ((h, sig, c) ∷ []),
  length-append (keep_if (is_of sig) w.connections) ((h, sig, c) ∷ []),
)

-- What a connect() on a live receiver establishes.
abbrev pub IsEstablished : ℕ → ℕ → ℕ → ConnectionType → Object → World → World × ℕ → Type 0
IsEstablished sig receiver slot type ob w r =
    let ob' = record ob { incoming = ob.incoming ++ r.1 ∷ [] } in
    (r.1 ≢ nullptr)
    × (r.0.connections ≡ w.connections ++ (r.1, sig, connection_to receiver ob slot type) ∷ [])
    × (receivers sig r.0 ≡ receivers sig w + 1)
    × (r.0.heap receiver ≡ some ob')
    × IsTracked receiver ob' r.0

own_entry :
    (h sig : ℕ) (c : Connection) → keep_if (has_handle h) ((h, sig, c) ∷ []) ≡ (h, sig, c) ∷ []
own_entry h sig c = ground arith

own_removed :
    (h sig : ℕ) (c : Connection) (es : List Entry)
    → es ++ remove_if (has_handle h) ((h, sig, c) ∷ []) ≡ es
own_removed h sig c [] = ground arith
own_removed h sig c (e ∷ es) = ap (λ rest. e ∷ rest) (own_removed h sig c es)

module _ {code : Code} (b : Boost code) where
  pub connect-connected :
      (sig receiver slot : ℕ) (type : ConnectionType) (ob : Object) (w : World)
      → receiver ≢ nullptr
      → w.heap receiver ≡ some ob
      → let c = connection_to receiver ob slot type in
        connect b sig receiver slot type w
        ≡ (connected (b.connect sig c w).1 sig receiver ob c w, (b.connect sig c w).1)
  unfolding connect signal_connect track_incoming
  connect-connected sig receiver slot type ob w set e =
      ground (arith, b.connect_lem sig (connection_to receiver ob slot type) w)

  -- connect() on a receiver that exists, and whose list has exactly the connections to it, gives a
  -- handle that is not the empty one, adds one connection under it, at the end and counted by
  -- receivers(), with the receiver's life token and affinity box of that moment, adds the handle to
  -- the receiver's list, and leaves that list exact. On a null receiver it does nothing and gives
  -- the empty handle.
  pub connect_lem :
      (sig receiver slot : ℕ) (type : ConnectionType) (ob : Object) (w : World)
      → receiver ≢ nullptr
      → w.heap receiver ≡ some ob
      → IsTracked receiver ob w
      → IsEstablished sig receiver slot type ob w (connect b sig receiver slot type w)
        × (connect b sig nullptr slot type w ≡ (w, nullptr))
  unfolding connect
  connect_lem sig receiver slot type ob w set e tracked =
      let c = connection_to receiver ob slot type in
      let h = (b.connect sig c w).1 in
      (
        subst (IsEstablished sig receiver slot type ob w)
            (sym (connect-connected sig receiver slot type ob w set e))
            (
              ground (arith, b.handle_set sig c w),
              refl,
              connected-receivers h sig receiver ob c w,
              ground arith,
              connected-IsTracked h sig receiver ob c w refl (b.handle_fresh sig c w) tracked,
            ),
        refl,
      )

  disconnect-connected :
      (h sig receiver : ℕ) (ob : Object) (c : Connection) (w : World)
      → any (has_handle h) w.connections ≡ false
      → code.disconnect h (connected h sig receiver ob c w)
        ≡ destroy_cleanup c.receiver c.life h
            (put_object receiver (record ob { incoming = ob.incoming ++ h ∷ [] }) w)
  unfolding destroy_slots
  disconnect-connected h sig receiver ob c w new =
      let w' = connected h sig receiver ob c w in
      let kept =
        keep_if-append (has_handle h) w.connections ((h, sig, c) ∷ [])
        ∙ ap (λ es. es ++ keep_if (has_handle h) ((h, sig, c) ∷ []))
            (keep_if_of_none (has_handle h) w.connections new) in
      let removed =
        remove_if-append (has_handle h) w.connections ((h, sig, c) ∷ [])
        ∙ ap (λ es. es ++ remove_if (has_handle h) ((h, sig, c) ∷ []))
            (remove_if_of_none (has_handle h) w.connections new) in
      b.disconnect_lem h w'
      ∙ ap
          (λ es.
            destroy_slots es (record w' { connections = remove_if (has_handle h) w'.connections }))
          (kept ∙ own_entry h sig c)
      ∙ ap (λ es. destroy_cleanup c.receiver c.life h (record w' { connections = es }))
          (removed ∙ own_removed h sig c w.connections)

  -- A connect() and the disconnect() of its handle, on a receiver that lives and whose list holds
  -- handles of connections only, leave the connections, the receiver and every other object as
  -- they were.
  pub connect_disconnect :
      (sig receiver other slot : ℕ) (type : ConnectionType) (ob : Object) (w : World)
      → receiver ≢ nullptr
      → receiver ≢ other
      → w.heap receiver ≡ some ob
      → w.alive ob.life ≡ true
      → IsCurrent ob w
      → let r = connect b sig receiver slot type w in
        let w' = disconnect code r.1 r.0 in
        (w'.connections ≡ w.connections)
        × (w'.heap receiver ≡ some ob)
        × (w'.heap other ≡ w.heap other)
  unfolding disconnect destroy_cleanup
  connect_disconnect sig receiver other slot type ob w set apart e lives current =
      let c = connection_to receiver ob slot type in
      let h = (b.connect sig c w).1 in
      let new = b.handle_fresh sig c w in
      ground (
        arith,
        connect-connected sig receiver slot type ob w set e,
        disconnect-connected h sig receiver ob c w new,
        remove_if-append_one h ob.incoming
            (fresh_elsewhere h ob.incoming w.connections new current),
      )
