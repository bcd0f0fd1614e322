-- ===== src/Signal/Linked/Dead.antt =====
-- The connections that ~Object() of src/Object.cpp ends, when the life token has ended.
use qobject_mimic.Base.{
  All-mono, All-kept, All-left, ℕ, List, [], ◌∷◌, Bool, true, false, remove_if, keep_if, ◌≡◌, refl,
  arith, All, ◌∙◌, ap, sym,
}
use qobject_mimic.World.{World, Code}
use qobject_mimic.Object.Lifetime.{destroy_cleanup, disconnect_all}
use qobject_mimic.Signal.{Entry, has_handle, destroy_slots, Boost}
use qobject_mimic.Signal.Connections.{is_incoming, remove_if_twice, remove_if_never}

-- The receivers of these connections have been destroyed, as far as their life tokens say.
abbrev pub AreDead : (ℕ → Bool) → (Entry → Bool) → List Entry → Type 0
AreDead alive p es = All (λ e. p e ≡ true → alive e.2.life ≡ false) es

destroy_cleanup-dead :
    (o life h : ℕ) (w : World) → w.alive life ≡ false → destroy_cleanup o life h w ≡ w
unfolding destroy_cleanup
destroy_cleanup-dead o life h w dead = ground arith

destroy_slots-dead :
    (es : List Entry) (w : World) → All (λ e. w.alive e.2.life ≡ false) es → destroy_slots es w ≡ w
unfolding destroy_slots
destroy_slots-dead [] w v = refl
destroy_slots-dead (e ∷ es) w v =
    ap (destroy_slots es) (destroy_cleanup-dead e.2.receiver e.2.life e.0 w v.0)
    ∙ destroy_slots-dead es w v.1

module _ {code : Code} (b : Boost code) where
  disconnect-dead :
      (h : ℕ) (w : World)
      → AreDead w.alive (has_handle h) w.connections
      → code.disconnect h w ≡ record w { connections = remove_if (has_handle h) w.connections }
  disconnect-dead h w v =
      b.disconnect_lem h w
      ∙ destroy_slots-dead (keep_if (has_handle h) w.connections)
          (record w { connections = remove_if (has_handle h) w.connections })
          (All-kept (λ e. has_handle h e ≡ true → w.alive e.2.life ≡ false)
            (λ e. w.alive e.2.life ≡ false) (has_handle h) w.connections (λ e hit dead. dead hit) v)

  pub disconnect_all-dead :
      (hs : List ℕ) (w : World)
      → AreDead w.alive (is_incoming hs) w.connections
      → disconnect_all code hs w
        ≡ record w { connections = remove_if (is_incoming hs) w.connections }
  unfolding disconnect_all
  disconnect_all-dead [] w v =
      ap (λ es. record w { connections = es }) (sym (remove_if_never w.connections))
  disconnect_all-dead (h ∷ hs) w v =
      let left = remove_if (has_handle h) w.connections in
      ap (disconnect_all code hs) (
        disconnect-dead h w (
          All-mono (λ e. is_incoming (h ∷ hs) e ≡ true → w.alive e.2.life ≡ false)
            (λ e. has_handle h e ≡ true → w.alive e.2.life ≡ false) w.connections
            (λ e dead hit. dead (ground arith)) v))
      ∙ disconnect_all-dead hs (record w { connections = left })
          (All-left (λ e. is_incoming (h ∷ hs) e ≡ true → w.alive e.2.life ≡ false)
            (λ e. is_incoming hs e ≡ true → w.alive e.2.life ≡ false) (has_handle h) w.connections
            (λ e miss dead hit. dead (ground arith)) v)
      ∙ ap (λ es. record w { connections = es })
          (remove_if_twice (is_incoming hs) (has_handle h) w.connections)
