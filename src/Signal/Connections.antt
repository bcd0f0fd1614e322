-- ===== src/Signal/Connections.antt =====
-- Connections from Object::connect() to their end: by disconnect(), and by the destruction of the
-- receiver (src/Object.h, src/Object.cpp, src/Signal.h).
use qobject_mimic.Base.{
  ℕ, List, [], ◌∷◌, some, Bool, false, ◌||◌, ◌==◌, remove_if, keep_if, any, ◌≡◌, refl, arith, All,
  ◌∙◌, ap, sym, update,
}
use qobject_mimic.World.{World, Code, Object, on_dispatcher}
use qobject_mimic.Object.Lifetime.{
  destroy_cleanup, destroy_object, wind_down, release, check_thread, take_incoming, take_callbacks,
  disconnect_all, run_callbacks,
}
use qobject_mimic.Signal.{Entry, has_handle, destroy_slots, Boost}

abbrev pub is_to : ℕ → Entry → Bool
is_to o e = e.2.receiver == o

abbrev pub is_incoming : List ℕ → Entry → Bool
is_incoming hs e = any (λ h. h == e.0) hs

-- Of the connections that there are, exactly those to the object at `o` are in its list.
abbrev pub IsTracked : ℕ → Object → World → Type 0
IsTracked o ob w = All (λ e. is_incoming ob.incoming e ≡ is_to o e) w.connections

destroy_cleanup-connections :
    (o life h : ℕ) (w : World) → (destroy_cleanup o life h w).connections ≡ w.connections
unfolding destroy_cleanup
destroy_cleanup-connections o life h w = ground arith

pub destroy_slots-connections :
    (es : List Entry) (w : World) → (destroy_slots es w).connections ≡ w.connections
unfolding destroy_slots
destroy_slots-connections [] w = refl
destroy_slots-connections (e ∷ es) w =
    destroy_slots-connections es (destroy_cleanup e.2.receiver e.2.life e.0 w)
    ∙ destroy_cleanup-connections e.2.receiver e.2.life e.0 w

pub remove_if_twice {ℓ} :
    {A : Type ℓ} (p q : A → Bool) (xs : List A)
    → remove_if p (remove_if q xs) ≡ remove_if (λ x. q x || p x) xs
remove_if_twice p q [] = refl
remove_if_twice p q (x ∷ xs) = ground (arith, remove_if_twice p q xs)

pub remove_if_same {ℓ} :
    {A : Type ℓ} (p q : A → Bool) (xs : List A)
    → All (λ x. p x ≡ q x) xs
    → remove_if p xs ≡ remove_if q xs
remove_if_same p q [] h = refl
remove_if_same p q (x ∷ xs) h = ground (arith, remove_if_same p q xs h.1)

pub remove_if_never {ℓ} : {A : Type ℓ} (xs : List A) → remove_if (λ x. false) xs ≡ xs
remove_if_never [] = refl
remove_if_never (x ∷ xs) = ap (λ ys. x ∷ ys) (remove_if_never xs)

module _ {code : Code} (b : Boost code) where
  disconnect-connections :
      (h : ℕ) (w : World)
      → (code.disconnect h w).connections ≡ remove_if (has_handle h) w.connections
  disconnect-connections h w =
      ap (λ v. v.connections) (b.disconnect_lem h w)
      ∙ destroy_slots-connections (keep_if (has_handle h) w.connections) _

  disconnect_all-connections :
      (hs : List ℕ) (w : World)
      → (disconnect_all code hs w).connections ≡ remove_if (is_incoming hs) w.connections
  unfolding disconnect_all
  disconnect_all-connections [] w = sym (remove_if_never w.connections)
  disconnect_all-connections (h ∷ hs) w =
      disconnect_all-connections hs (code.disconnect h w)
      ∙ ap (remove_if (is_incoming hs)) (disconnect-connections h w)
      ∙ remove_if_twice (is_incoming hs) (has_handle h) w.connections

run_callbacks-connections :
    (code : Code) (cs : List ℕ) (w : World)
    → ((n : ℕ) (v : World) → (code.run n v).connections ≡ v.connections)
    → (run_callbacks code cs w).connections ≡ w.connections
unfolding run_callbacks
run_callbacks-connections code [] w quiet = refl
run_callbacks-connections code (c ∷ cs) w quiet =
    run_callbacks-connections code cs (code.run c w) quiet ∙ quiet c w

check_thread-connections :
    (caller : ℕ) (ob : Object) (w : World)
    → ((check_thread caller ob w).connections ≡ w.connections)
      × ((check_thread caller ob w).heap ≡ w.heap)
unfolding check_thread
check_thread-connections caller ob w = ground arith

take_callbacks-connections :
    (o : ℕ) (w : World) → (take_callbacks o w).0.connections ≡ w.connections
unfolding take_callbacks
take_callbacks-connections o w = ground arith

take_incoming_lem :
    (o : ℕ) (ob : Object) (w : World)
    → w.heap o ≡ some ob
    → ((take_incoming o w).0.connections ≡ w.connections) × ((take_incoming o w).1 ≡ ob.incoming)
unfolding take_incoming
take_incoming_lem o ob w e = ground arith

module _ {code : Code} (b : Boost code) where
  wind_down-connections :
      (caller o : ℕ) (ob : Object) (w : World)
      → ((n : ℕ) (v : World) → (code.run n v).connections ≡ v.connections)
      → w.heap o ≡ some ob
      → (wind_down code caller o ob w).connections
        ≡ remove_if (is_incoming ob.incoming) w.connections
  unfolding wind_down
  wind_down-connections caller o ob w quiet e =
      let checked = check_thread-connections caller ob w in
      let w1 = check_thread caller ob w in
      let v = record w1 { alive = update w1.alive ob.life false } in
      let taken = take_incoming_lem o ob v (ap (λ f. f o) checked.1 ∙ e) in
      let w2 = disconnect_all code (take_incoming o v).1 (take_incoming o v).0 in
      run_callbacks-connections code (take_callbacks o w2).1 (take_callbacks o w2).0 quiet
      ∙ take_callbacks-connections o w2
      ∙ disconnect_all-connections b (take_incoming o v).1 (take_incoming o v).0
      ∙ ap (λ hs. remove_if (is_incoming hs) (take_incoming o v).0.connections) taken.1
      ∙ ap (remove_if (is_incoming ob.incoming)) (taken.0 ∙ checked.0)

  -- ~Object() of an object whose list of connections received is exact takes out every connection to
  -- it and no other, whatever signal they are of, if the cleanup callbacks leave connections alone.
  pub destroyed_disconnected :
      (caller o : ℕ) (ob : Object) (w : World)
      → ((n : ℕ) (v : World) → (code.run n v).connections ≡ v.connections)
      → w.heap o ≡ some ob
      → IsTracked o ob w
      → (destroy_object code caller o w).connections ≡ remove_if (is_to o) w.connections
  unfolding destroy_object release on_dispatcher
  destroyed_disconnected caller o ob w quiet e tracked = ground (
    arith,
    wind_down-connections caller o ob w quiet e,
    remove_if_same (is_incoming ob.incoming) (is_to o) w.connections tracked,
  )
