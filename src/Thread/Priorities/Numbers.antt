-- ===== src/Thread/Priorities/Numbers.antt =====
-- What calculateUnixPriority(), setPriority() and priority() give.
use qobject_mimic.Base.{
  ℕ, ◌+◌, ◌-◌, ◌*◌, ◌/◌, ◌≤◌, some, Bool, false, ◌&&◌, not, if◌then◌else◌, ◌≡◌, arith, subst, sym,
}
use qobject_mimic.World.{World, Priority}
use qobject_mimic.Thread.Priorities.{
  rank, is_inherit, Scheduling, clamp, calculate_unix_priority, lowest_rank, set_priority, priority,
}

mul_split : (a c d : ℕ) → (a + c) * d ≡ a * d + c * d
mul_split a c d = omega arith

mul_mono : (a b d : ℕ) → a ≤ b → a * d ≤ b * d
mul_mono a b d h =
    let whole : b ≡ a + (b - a) = omega arith in
    subst (λ n. a * d ≤ n * d) (sym whole) (ground (arith, mul_split a (b - a) d))

scale_mono : (a b d : ℕ) → a ≤ b → a * d / 6 ≤ b * d / 6
scale_mono a b d h = ground (arith, mul_mono a b d h)

clamp_lem :
    (lo hi m n : ℕ)
    → lo ≤ hi
    → m ≤ n
    → (lo ≤ clamp lo hi m) × (clamp lo hi m ≤ clamp lo hi n) × (clamp lo hi n ≤ hi)
unfolding clamp
clamp_lem lo hi m n h k = ground arith

-- Over a range that is not empty, the priority numbers are in the range and do not decrease with
-- the priority, SCHED_IDLE being taken only below every priority that is not given it.
pub priority_numbers :
    (has_idle : Bool) (lo hi : ℕ) (p q : Priority) (a b : Scheduling)
    → lo ≤ hi
    → rank p ≤ rank q
    → calculate_unix_priority has_idle (some lo) (some hi) p ≡ some a
    → calculate_unix_priority has_idle (some lo) (some hi) q ≡ some b
    → a.idle_policy ≡ false
    → (b.idle_policy ≡ false) × (lo ≤ a.number) × (a.number ≤ b.number) × (b.number ≤ hi)
unfolding calculate_unix_priority
priority_numbers has_idle lo hi p q a b range le ea eb na =
    let base = lowest_rank has_idle in
    let scaled = scale_mono (rank p - base) (rank q - base) (hi - lo) (ground arith) in
    ground (
      arith,
      clamp_lem lo hi ((rank p - base) * (hi - lo) / 6 + lo) ((rank q - base) * (hi - lo) / 6 + lo)
          range (ground (arith, scaled)),
    )

-- setPriority() takes effect exactly on a running thread with a handle, for a priority other than
-- InheritPriority: priority() then reads it back. Otherwise it adds a warning, and priority() is as
-- before.
pub set_priority_lem :
    (p : Priority) (t : ℕ) (w : World)
    → let v = set_priority p t w in
      let running = (w.datas (w.threads t).thread_data).running in
      let accepted = not (is_inherit p) && (running && (w.threads t).joinable) in
      (priority t v ≡ (if accepted then p else priority t w))
      × (v.warnings ≡ (if accepted then w.warnings else w.warnings + 1))
unfolding set_priority priority
set_priority_lem p t w = ground arith
