-- ===== src/Signal.antt =====
-- src/Signal.h: Signal, over boost::signals2. What a signal of boost does to the connections is an
-- interface of operations, with laws for what its documentation says of them.
pub mod Connections
pub mod Roundtrip
pub mod Delivery
pub mod Linked
use qobject_mimic.Base.{
  ℕ, ◌+◌, List, [], ◌∷◌, ◌++◌, Option, none, some, Bool, true, false, if◌then◌else◌, ◌==◌, is_null,
  nullptr, remove_if, keep_if, any, length, ◌≡◌,
}
use qobject_mimic.World.{World, Code, Connection, ConnectionType, faulted}
use qobject_mimic.Object.MetaCall.{connect_wrapper}
use qobject_mimic.Object.Lifetime.{track_incoming, destroy_cleanup}

abbrev pub Entry : Type 0
Entry = ℕ × ℕ × Connection

abbrev pub has_handle : ℕ → Entry → Bool
has_handle h e = h == e.0

abbrev pub is_of : ℕ → Entry → Bool
is_of sig e = e.1 == sig

-- The destruction of the slots of a list, and so of the Cleanup that each holds.
unfoldable pub destroy_slots : List Entry → World → World
destroy_slots [] w = w
destroy_slots ((h, sig, c) ∷ es) w = destroy_slots es (destroy_cleanup c.receiver c.life h w)

-- signal::connect(), signal::operator() and connection::disconnect(). A new connection has a handle
-- of its own, which is not the empty one; disconnecting takes out the connection of the handle and
-- destroys its slot. `invoke` calls the slots of a signal on the thread of its first argument.
pub record Boost (code : Code) : Type 0 where
  pub connect : ℕ → Connection → World → World × ℕ
  pub connect_lem :
      (sig : ℕ) (c : Connection) (w : World)
      → (connect sig c w).0
        ≡ record w { connections = w.connections ++ ((connect sig c w).1, sig, c) ∷ [] }
  pub handle_set : (sig : ℕ) (c : Connection) (w : World) → is_null (connect sig c w).1 ≡ false
  pub handle_fresh :
      (sig : ℕ) (c : Connection) (w : World)
      → any (has_handle (connect sig c w).1) w.connections ≡ false
  pub disconnect_lem :
      (h : ℕ) (w : World)
      → code.disconnect h w
        ≡ destroy_slots
            (keep_if (has_handle h) w.connections)
            (record w { connections = remove_if (has_handle h) w.connections })
  pub invoke : ℕ → ℕ → World → World
  pub invoke_none :
      (caller sig : ℕ) (w : World)
      → keep_if (is_of sig) w.connections ≡ []
      → invoke caller sig w ≡ w
  pub invoke_one :
      (caller sig : ℕ) (e : Entry) (w : World)
      → keep_if (is_of sig) w.connections ≡ e ∷ []
      → invoke caller sig w
        ≡ connect_wrapper code caller e.2.life e.2.box e.2.receiver e.2.slot e.2.type w

-- num_slots(), read by receivers().
unfoldable pub receivers : ℕ → World → ℕ
receivers sig w = length (keep_if (is_of sig) w.connections)

-- disconnect(), of Signal and of Object.
unfoldable pub disconnect : Code → ℕ → World → World
disconnect code h w = code.disconnect h w

module _ {code : Code} (b : Boost code) where
  -- Signal::connect().
  unfoldable pub signal_connect : ℕ → Connection → World → World × ℕ
  signal_connect sig c w = b.connect sig c w

  -- emit() and operator().
  unfoldable pub emit : ℕ → ℕ → World → World
  emit caller sig w = b.invoke caller sig w

  -- The body that the overloads of Object::connect() share: 0 is the empty handle.
  unfoldable pub connect : ℕ → ℕ → ℕ → ConnectionType → World → World × ℕ
  unfolding signal_connect
  connect sig receiver slot type w =
      if is_null receiver then (w, nullptr) else elim (w.heap receiver) [
        | none ↦ (faulted w, nullptr)
        | some ob ↦
            let c : Connection = record {
              receiver = receiver;
              life = ob.life;
              box = ob.affinity;
              slot = slot;
              type = type;
            } in
            let (w', h) = signal_connect sig c w in (track_incoming receiver h w', h)
      ]
