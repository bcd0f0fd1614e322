-- ===== src/Thread/Priorities.antt =====
-- Priorities: setPriority() and priority() of src/Thread.cpp, and src/ThreadPosix.cpp.
pub mod Numbers
use qobject_mimic.Base.{
  ℕ, ◌+◌, ◌-◌, ◌*◌, ◌/◌, ◌≤◌, ◌<◌, Option, none, some, Bool, true, false, ◌&&◌, ◌||◌, not,
  if◌then◌else◌, update, ◌==◌, ltb, ◌≡◌, refl, arith, ◌≢◌, Bool-cases, inl, inr,
}
use qobject_mimic.World.{
  World, Thread, Priority, idle, lowest, low, normal, high, highest, time_critical, inherit,
  set_thread_running, warn,
}

-- The values of the enum.
abbrev pub rank : Priority → ℕ
rank idle = 0
rank lowest = 1
rank low = 2
rank normal = 3
rank high = 4
rank highest = 5
rank time_critical = 6
rank inherit = 7

abbrev pub is_inherit : Priority → Bool
is_inherit p = rank p == 7

-- A policy and a priority number. `idle_policy` is SCHED_IDLE.
pub record Scheduling : Type 0 where
  pub idle_policy : Bool
  pub number : ℕ

-- calculateUnixPriority(): `has_idle` is whether SCHED_IDLE is defined, and the range of the policy
-- is `none` where the system reports -1. Priorities of a range are not negative.
abbrev pub lowest_rank : Bool → ℕ
lowest_rank has_idle = if has_idle then 1 else 0

unfoldable pub clamp : ℕ → ℕ → ℕ → ℕ
clamp least most n =
    let raised = if ltb n least then least else n in if ltb most raised then most else raised

unfoldable pub calculate_unix_priority : Bool → Option ℕ → Option ℕ → Priority → Option Scheduling
unfolding clamp
calculate_unix_priority has_idle least most p =
    if has_idle && (rank p == 0)
    then some (record { idle_policy = true; number = 0 })
    else elim least [
      | none ↦ none
      | some lo ↦ elim most [
        | none ↦ none
        | some hi ↦ some (record {
          idle_policy = false;
          number =
              clamp lo hi ((rank p - lowest_rank has_idle) * (hi - lo) / rank time_critical + lo);
        })
      ]
    ]

-- What the calls of pthread answer: whether the policy can be read, its range, whether the three
-- attributes are accepted, and the results of the first and the second pthread_create().
pub data Created : Type 0 where
  success not_permitted failure : Created

pub record Posix : Type 0 where
  pub policy_known : Bool
  pub has_idle : Bool
  pub least : Option ℕ
  pub most : Option ℕ
  pub attributes_accepted : Bool
  pub first : Created
  pub second : Created

abbrev pub is_success : Created → Bool
is_success success = true
is_success not_permitted = false
is_success failure = false

abbrev pub created : Posix → Bool
created s = elim s.first [ success ↦ true | not_permitted ↦ is_success s.second | failure ↦ false ]

abbrev pub was_scheduled : Option Scheduling → Bool
was_scheduled none = false
was_scheduled (some s) = true

-- The fall back of startPlatformSpecific(): the attributes were computed and refused.
abbrev pub needs_reset : Posix → Priority → Bool
needs_reset s p =
    not (is_inherit p)
    && (s.policy_known
        && (was_scheduled (calculate_unix_priority s.has_idle s.least s.most p)
            && not s.attributes_accepted))

-- Its lines on stderr before the thread is created.
abbrev pub complaints : Posix → Priority → ℕ
complaints s p =
    if is_inherit p
    then 0
    else if not s.policy_known
    then 1
    else if was_scheduled (calculate_unix_priority s.has_idle s.least s.most p)
    then 0
    else 1

-- startPlatformSpecific().
unfoldable pub start_platform_specific : Posix → ℕ → World → World
start_platform_specific s t w =
    let f = w.threads t in
    let reset = f.priority_needs_reset || needs_reset s f.priority in
    let w1 = record w { warnings = w.warnings + complaints s f.priority } in
    if created s
    then record w1 {
      threads = update w1.threads t (record f { priority_needs_reset = reset; joinable = true });
    }
    else set_thread_running f.thread_data false (
        warn
          (record w1 { threads = update w1.threads t (record f { priority_needs_reset = reset }) }))

-- setPriority() on POSIX, where applyPriority() does nothing.
unfoldable pub set_priority : Priority → ℕ → World → World
set_priority p t w =
    let f = w.threads t in
    if is_inherit p
    then warn w
    else if not (w.datas f.thread_data).running || not f.joinable
    then warn w
    else record w { threads = update w.threads t (record f { priority = p }) }

-- priority().
unfoldable pub priority : ℕ → World → Priority
priority t w =
    if (w.datas (w.threads t).thread_data).running then (w.threads t).priority else inherit
