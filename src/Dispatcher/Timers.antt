-- ===== src/Dispatcher/Timers.antt =====
-- The timer list of EventDispatcherDefault: registration, expiry and the transfer to another
-- dispatcher.
use qobject_mimic.Base.{
  ℕ, ◌+◌, ◌*◌, List, [], ◌∷◌, ◌++◌, Option, none, some, Bool, false, ◌||◌, ◌==◌, ◌≡◌, refl, ◌≢◌,
  if◌then◌else◌, nullptr, remove_if, arith, is_some, pos, negsuc,
}
use qobject_mimic.Dispatcher.{
  Dispatcher, TimerData, register_timer, install_timer, replace_timer, unregister_timer, has_timer,
  ns_per_ms,
}

-- No two timers share an id.
abbrev pub UniqueIds : List TimerData → Type 0
UniqueIds [] = Unit {0}
UniqueIds (t ∷ ts) = (has_timer t.timer_id ts ≡ false) × UniqueIds ts

has_timer-remove_if :
    (i : ℕ) (p : TimerData → Bool) (ts : List TimerData)
    → has_timer i ts ≡ false
    → has_timer i (remove_if p ts) ≡ false
has_timer-remove_if i p [] h = refl
has_timer-remove_if i p (t ∷ ts) h = ground (arith, has_timer-remove_if i p ts)

pub UniqueIds-remove_if :
    (p : TimerData → Bool) (ts : List TimerData) → UniqueIds ts → UniqueIds (remove_if p ts)
UniqueIds-remove_if p [] u = tt
UniqueIds-remove_if p (t ∷ ts) u =
    ground (arith, UniqueIds-remove_if p ts u.1, has_timer-remove_if t.timer_id p ts)

has_timer-replace :
    (i : ℕ) (td : TimerData) (ts : List TimerData)
    → has_timer i (replace_timer td ts) ≡ has_timer i ts
unfolding replace_timer
has_timer-replace i td [] = refl
has_timer-replace i td (t ∷ ts) = ground (arith, has_timer-replace i td ts)

UniqueIds-replace :
    (td : TimerData) (ts : List TimerData) → UniqueIds ts → UniqueIds (replace_timer td ts)
unfolding replace_timer
UniqueIds-replace td [] u = tt
UniqueIds-replace td (t ∷ ts) u =
    ground (arith, UniqueIds-replace td ts u.1, has_timer-replace t.timer_id td ts)

has_timer-append :
    (i : ℕ) (ts us : List TimerData) → has_timer i (ts ++ us) ≡ (has_timer i ts || has_timer i us)
has_timer-append i [] us = refl
has_timer-append i (t ∷ ts) us = ground (arith, has_timer-append i ts us)

UniqueIds-append :
    (td : TimerData) (ts : List TimerData)
    → has_timer td.timer_id ts ≡ false
    → UniqueIds ts
    → UniqueIds (ts ++ td ∷ [])
UniqueIds-append td [] h u = (refl, tt)
UniqueIds-append td (t ∷ ts) h u =
    ground (arith, UniqueIds-append td ts, has_timer-append t.timer_id ts (td ∷ []))

pub install_timer-UniqueIds :
    (td : TimerData) (d : Dispatcher) → UniqueIds d.timers → UniqueIds (install_timer td d).timers
unfolding install_timer
install_timer-UniqueIds td d u =
    ground (arith, UniqueIds-replace td d.timers u, UniqueIds-append td d.timers)

-- The first timer of an id.
unfoldable pub find_timer : ℕ → List TimerData → Option TimerData
find_timer i [] = none
find_timer i (t ∷ ts) = let rest = find_timer i ts in if t.timer_id == i then some t else rest

find_timer-replace :
    (i : ℕ) (td : TimerData) (ts : List TimerData)
    → find_timer i (replace_timer td ts)
      ≡ (if (td.timer_id == i) then (if has_timer i ts then some td else none) else find_timer i ts)
unfolding find_timer replace_timer
find_timer-replace i td [] = ground arith
find_timer-replace i td (t ∷ ts) = ground (arith, find_timer-replace i td ts)

find_timer-append :
    (i : ℕ) (td : TimerData) (ts : List TimerData)
    → has_timer td.timer_id ts ≡ false
    → find_timer i (ts ++ td ∷ []) ≡ (if td.timer_id == i then some td else find_timer i ts)
unfolding find_timer
find_timer-append i td [] h = refl
find_timer-append i td (t ∷ ts) h = ground (arith, find_timer-append i td ts)

-- After registerTimer() with an object and an interval of at least 0, looking an id up gives the
-- new timer, first due one interval from now, for its own id, and the timer of before for any
-- other; a null object or a negative interval changes nothing at all.
pub register_timer_lem :
    (now i j n o : ℕ) (d : Dispatcher)
    → o ≢ nullptr
    → (find_timer j (register_timer now i (pos n) o d).timers ≡ (
        if i == j
        then some (record {
          timer_id = i;
          interval_ms = n;
          receiver = o;
          next_fire = now + n * ns_per_ms;
        })
        else find_timer j d.timers))
      × (register_timer now i (negsuc n) o d ≡ d)
      × (register_timer now i (pos n) nullptr d ≡ d)
unfolding register_timer
register_timer_lem now i j n o d h =
    let td : TimerData = record {
      timer_id = i;
      interval_ms = n;
      receiver = o;
      next_fire = now + n * ns_per_ms;
    } in
    (ground (arith, find_timer-replace j td d.timers, find_timer-append j td d.timers), refl, refl)

find_timer-remove_if :
    (i j : ℕ) (ts : List TimerData)
    → find_timer j (remove_if (λ t. t.timer_id == i) ts)
      ≡ (if i == j then none else find_timer j ts)
unfolding find_timer
find_timer-remove_if i j [] = ground arith
find_timer-remove_if i j (t ∷ ts) = ground (arith, find_timer-remove_if i j ts)

find_timer_none : (i : ℕ) (ts : List TimerData) → is_some (find_timer i ts) ≡ has_timer i ts
unfolding find_timer
find_timer_none i [] = refl
find_timer_none i (t ∷ ts) = ground (arith, find_timer_none i ts)

-- unregisterTimer() reports whether the id was registered, and leaves it unregistered and every
-- other id as it was.
pub unregister_timer_lem :
    (i j : ℕ) (d : Dispatcher)
    → ((unregister_timer i d).1 ≡ is_some (find_timer i d.timers))
      × (find_timer j (unregister_timer i d).0.timers
          ≡ (if i == j then none else find_timer j d.timers))
unfolding unregister_timer
unregister_timer_lem i j d =
    ground (arith, find_timer-remove_if i j d.timers, find_timer_none i d.timers)
