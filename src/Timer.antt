-- ===== src/Timer.antt =====
-- src/Timer.h and src/Timer.cpp: a Timer is an Object with timer fields.
pub mod States
use qobject_mimic.Base.{
  ℕ, Option, none, some, Bool, true, false, ◌&&◌, not, if◌then◌else◌, ◌==◌, ℤ, pos, is_null,
}
use qobject_mimic.World.{World, Code, Object, TimerFields, faulted, put_object}
use qobject_mimic.Object.Timers.{start_timer, kill_timer, no_timer}
use qobject_mimic.Object.Lifetime.{construct, destroy_object}

-- The initial values of the members.
unfoldable pub new_fields : TimerFields
new_fields = record { interval = pos 0; timer_id = no_timer; single_shot = false; active = false }

-- Timer().
unfoldable pub construct_timer : ℕ → ℕ → World → World
construct_timer caller o w = construct caller o (some new_fields) w

unfoldable pub timer_fields : ℕ → World → Option TimerFields
timer_fields o w = elim (w.heap o) [ none ↦ none | some ob ↦ ob.timer ]

-- A write of the members of the Timer at `o`.
unfoldable pub put_fields : ℕ → TimerFields → World → World
put_fields o f w = elim (w.heap o) [
  | none ↦ faulted w
  | some ob ↦ put_object o (record ob { timer = some f }) w
]

-- A method of the Timer at `o`, given its members.
abbrev pub with_fields : ℕ → (TimerFields → World → World) → World → World
with_fields o method w = elim (timer_fields o w) [ none ↦ faulted w | some f ↦ method f w ]

-- setInterval() and setSingleShot().
unfoldable pub set_interval : ℕ → ℤ → World → World
set_interval o ms w = with_fields o (λ f. put_fields o (record f { interval = ms })) w

unfoldable pub set_single_shot : ℕ → Bool → World → World
set_single_shot o b w = with_fields o (λ f. put_fields o (record f { single_shot = b })) w

-- stop().
unfoldable pub stop : ℕ → ℕ → World → World
unfolding put_fields
stop caller o w =
    with_fields o
      (λ f v.
        if f.active && not (f.timer_id == no_timer)
        then put_fields o (record f { timer_id = no_timer; active = false })
            (kill_timer caller o f.timer_id v)
        else v)
      w

-- What start() does once it has stopped the timer.
unfoldable pub arm : ℕ → ℕ → TimerFields → World → World
unfolding put_fields
arm caller o f w =
    let (w', i) = start_timer caller o f.interval w in
    put_fields o (record f { timer_id = i; active = not (i == no_timer) }) w'

-- start().
unfoldable pub start : ℕ → ℕ → World → World
unfolding stop arm
start caller o w = with_fields o (arm caller o) (stop caller o w)

-- start( aMsec ).
unfoldable pub start_with : ℕ → ℕ → ℤ → World → World
unfolding start set_interval
start_with caller o ms w = start caller o (set_interval o ms w)

module _ (code : Code) where
  -- timerEvent().
  unfoldable pub timer_event : ℕ → ℕ → ℕ → World → World
  unfolding stop
  timer_event caller o i w =
      with_fields o
        (λ f v.
          if not (i == f.timer_id)
          then v
          else code.emit_timeout o (if f.single_shot then stop caller o v else v))
        w

  -- ~Timer(), the destructor of its member `timeout`, and then ~Object().
  unfoldable pub destroy_timer : ℕ → ℕ → World → World
  unfolding stop
  destroy_timer caller o w =
      destroy_object code caller o
        (code.destroy_timeout o (with_fields o (λ f v. if f.active then stop caller o v else v) w))
