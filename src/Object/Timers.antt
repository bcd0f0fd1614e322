-- ===== src/Object/Timers.antt =====
-- startTimer() and killTimer().
pub mod Ids
use qobject_mimic.Base.{
  ℕ, ◌+◌, ◌%◌, Option, none, some, Bool, true, false, not, if◌then◌else◌, is_null, ◌==◌, ℤ,
}
use qobject_mimic.Dispatcher.{register_timer, unregister_timer}
use qobject_mimic.World.{
  World, Object, object_thread, object_dispatcher, on_dispatcher, faulted, warn,
}

-- -1 as a 32-bit pattern.
abbrev pub no_timer : ℕ
no_timer = 4294967295

-- `sNextTimerId.fetch_add( 1 )` on an atomic int, which wraps around.
abbrev pub next_int : ℕ → ℕ
next_int n = (n + 1) % 4294967296

-- startTimer().
unfoldable pub start_timer : ℕ → ℕ → ℤ → World → World × ℕ
start_timer caller o interval w = elim (w.heap o) [
  | none ↦ (faulted w, no_timer)
  | some ob ↦
      let k = object_dispatcher ob w in
      if not (object_thread ob w == caller)
      then (warn w, no_timer)
      else if is_null k
      then (warn w, no_timer)
      else (
        on_dispatcher k (register_timer w.clock w.next_timer_id interval o)
            (record w { next_timer_id = next_int w.next_timer_id }),
        w.next_timer_id,
      )
]

-- killTimer().
unfoldable pub kill_timer : ℕ → ℕ → ℕ → World → World
kill_timer caller o i w = elim (w.heap o) [
  | none ↦ faulted w
  | some ob ↦
      let k = object_dispatcher ob w in
      if not (object_thread ob w == caller)
      then warn w
      else if is_null k
      then w
      else on_dispatcher k (λ d. (unregister_timer i d).0) w
]
