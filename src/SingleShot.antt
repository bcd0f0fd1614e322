-- ===== src/SingleShot.antt =====
-- Timer::singleShot() of src/Timer.h: its two helper classes, Objects that run a functor once and
-- delete themselves. The members of a helper at an address are passed beside the state.
pub mod Fires
use qobject_mimic.Base.{
  ℕ, Option, none, some, Bool, true, false, if◌then◌else◌, is_null, ◌==◌, ℤ, List,
}
use qobject_mimic.World.{World, Code, object_thread, faulted}
use qobject_mimic.Object.Timers.{start_timer, no_timer}
use qobject_mimic.Object.Lifetime.{construct, destroy_object}
use qobject_mimic.Object.Affinity.{move_to_thread}
use qobject_mimic.Object.CallLater.{call_later}
use qobject_mimic.Virtual.{delete_later}

-- The members of SingleShotHelper and of SingleShotContextHelper. The functor is user code.
pub record Helper : Type 0 where
  pub functor : ℕ
  pub interval : ℤ
  pub id : ℕ

abbrev pub new_helper : ℤ → ℕ → Helper
new_helper ms fn = record { functor = fn; interval = ms; id = no_timer }

module _ (code : Code) where
  -- arm(), and the check of the first overload: a helper without a timer is deleted.
  unfoldable pub arm_helper : ℕ → ℕ → Helper → World → World × Helper
  arm_helper caller o h w =
      let (w', i) = start_timer caller o h.interval w in
      (if i == no_timer then destroy_object code caller o w' else w', record h { id = i })

  -- timerEvent() of both helpers.
  unfoldable pub helper_event : ℕ → ℕ → Helper → ℕ → World → World
  helper_event caller o h i w =
      if i == h.id then delete_later code caller o (code.run h.functor w) else w

  -- singleShot( aMsec, aFunctor ), with the helper at the address `o`.
  unfoldable pub single_shot : ℕ → ℕ → ℤ → ℕ → World → World × Helper
  unfolding arm_helper
  single_shot caller o ms fn w = arm_helper caller o (new_helper ms fn) (construct caller o none w)

  -- singleShot( aMsec, aContext, aFunctor ). `type_hash`, `size` and `bytes` describe the pointer to
  -- arm(), and `arming` names the call of it that callLater() makes.
  unfoldable pub single_shot_on : ℕ → ℕ → ℤ → ℕ → ℕ → ℕ → ℕ → List ℕ → ℕ → World → World × Helper
  unfolding arm_helper
  single_shot_on caller o ms context fn type_hash size bytes arming w =
      let w1 = construct caller o none w in
      let h = new_helper ms fn in
      if is_null context then (w, h) else elim (w1.heap context) [
        | none ↦ (faulted w1, h)
        | some ctx ↦ elim (w1.heap o) [
          | none ↦ (faulted w1, h)
          | some ob ↦
              if object_thread ob w1 == object_thread ctx w1 then arm_helper caller o h w1 else (
                call_later code caller o type_hash size bytes arming
                    (move_to_thread code caller o (object_thread ctx w1) w1).0,
                h,
              )
        ]
      ]
