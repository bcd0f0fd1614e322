-- ===== src/Dispatcher/Wait.antt =====
-- The wait deadline of processEvents() in src/EventDispatcherDefault.cpp.
use qobject_mimic.Base.{
  ℕ, ◌+◌, ◌-◌, ◌*◌, ◌/◌, ◌≤◌, ◌<◌, List, [], ◌∷◌, Option, none, some, ltb, ◌≡◌, refl, if◌then◌else◌,
  arith, All, inl, inr, Bool-cases,
}
use qobject_mimic.Dispatcher.{TimerData, min_fire, wait_timeout, ns_per_ms}

min_fire-le : (m : ℕ) (ts : List TimerData) → min_fire m ts ≤ m
unfolding min_fire
min_fire-le m [] = omega arith
min_fire-le m (t ∷ ts) =
    ground (arith, min_fire-le (if ltb t.next_fire m then t.next_fire else m) ts)

min_fire-All : (m : ℕ) (ts : List TimerData) → All (λ t. min_fire m ts ≤ t.next_fire) ts
unfolding min_fire
min_fire-All m [] = tt
min_fire-All m (t ∷ ts) =
    let m' = (if ltb t.next_fire m then t.next_fire else m) in
    (ground (arith, min_fire-le m' ts), min_fire-All m' ts)

-- The least of the first `m` and all the rest is one of them.
min_fire-attained :
    (m b : ℕ) (ts : List TimerData) → b ≤ m → All (λ t. b ≤ t.next_fire) ts → b ≤ min_fire m ts
unfolding min_fire
min_fire-attained m b [] h a = h
min_fire-attained m b (t ∷ ts) h a =
    min_fire-attained (if ltb t.next_fire m then t.next_fire else m) b ts (ground arith) a.1

All-mono {ℓ κ μ} :
    {A : Type ℓ} (P : A → Type κ) (Q : A → Type μ)
    → ((a : A) → P a → Q a)
    → (xs : List A) → All P xs
    → All Q xs
All-mono P Q f [] h = tt
All-mono P Q f (x ∷ xs) h = (f x h.0, All-mono P Q f xs h.1)

-- The deadline of a wait, in nanoseconds; with no deadline the wait is not bounded.
abbrev pub WaitsAtMost : Option ℕ → ℕ → Type 0
WaitsAtMost none limit = ⊥
WaitsAtMost (some ms) limit = ms * ns_per_ms ≤ limit

-- With a timer registered the wait has a deadline, and it ends no later than any timer that is
-- not yet due becomes due: no timer is overslept.
pub wait_timeout_not_late :
    (now : ℕ) (t : TimerData) (ts : List TimerData)
    → All (λ u. WaitsAtMost (wait_timeout now (t ∷ ts)) (u.next_fire - now)) (t ∷ ts)
unfolding wait_timeout
wait_timeout_not_late now t ts =
    All-mono (λ u. min_fire t.next_fire (t ∷ ts) ≤ u.next_fire) _ (λ u h. ground arith) (t ∷ ts)
      (min_fire-All t.next_fire (t ∷ ts))

-- If every timer is due only later than `k` milliseconds and one more from now, the wait is
-- longer than `k` milliseconds: it does not wake early by more than the part of a millisecond
-- that duration_cast drops.
pub wait_timeout_not_early :
    (now k : ℕ) (t : TimerData) (ts : List TimerData)
    → All (λ u. now + (k + 1) * ns_per_ms ≤ u.next_fire) (t ∷ ts)
    → (ms : ℕ) × (wait_timeout now (t ∷ ts) ≡ some ms) × (k < ms)
unfolding wait_timeout
wait_timeout_not_early now k t ts h =
    let low = min_fire-attained t.next_fire (now + (k + 1) * ns_per_ms) (t ∷ ts) h.0 h in
    ((min_fire t.next_fire (t ∷ ts) - now) / ns_per_ms, ground (arith, low), omega (arith, low))

-- With no timer the wait has no deadline; with timers whose next shots lie within their intervals,
-- all below 2 ^ 31 milliseconds, the deadline is a value of `int`.
pub wait_timeout_fits :
    (now : ℕ) (t : TimerData) (ts : List TimerData)
    → t.next_fire ≤ now + t.interval_ms * ns_per_ms
    → t.interval_ms < 2147483648
    → (wait_timeout now [] ≡ none)
      × ((ms : ℕ) × (wait_timeout now (t ∷ ts) ≡ some ms) × (ms < 2147483648))
unfolding wait_timeout
wait_timeout_fits now t ts h i = (refl, bound)
  where
    low : min_fire t.next_fire (t ∷ ts) ≤ t.next_fire
    low = min_fire-le t.next_fire (t ∷ ts)

    bound : (ms : ℕ) × (wait_timeout now (t ∷ ts) ≡ some ms) × (ms < 2147483648)
    bound = elim (Bool-cases (ltb now (min_fire t.next_fire (t ∷ ts)))) [
      | inl late ↦ ((min_fire t.next_fire (t ∷ ts) - now) / ns_per_ms, rw late, omega (arith, low))
      | inr due ↦ (0, rw due, omega arith)
    ]
