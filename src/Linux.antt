-- ===== src/Linux.antt =====
-- src/EventDispatcherLinux.cpp: the registered descriptors, and the wakeup descriptor.
pub mod Wakeup
pub mod Wait
use qobject_mimic.Base.{
  ℕ, ◌+◌, List, [], ◌∷◌, ◌++◌, Option, none, some, Bool, true, false, ◌||◌, ◌&&◌, not,
  if◌then◌else◌, ◌==◌, any, ◌≡◌, refl, arith, ℤ, pos, negsuc, ◌≢◌, is_some,
}

-- A descriptor with its poll(2) mask and its callback.
pub record EventSource : Type 0 where
  pub fd : ℕ
  pub events : ℕ
  pub callback : ℕ

abbrev pub is_source : ℕ → EventSource → Bool
is_source fd s = s.fd == fd

-- The loop of registerEventSource().
unfoldable pub replace_source : EventSource → List EventSource → List EventSource
replace_source new [] = []
replace_source new (s ∷ ss) =
    let rest = replace_source new ss in if s.fd == new.fd then new ∷ ss else s ∷ rest

-- registerEventSource(): an empty callback is `none`, and the dispatcher is woken if it is true.
unfoldable pub register_event_source : ℤ → ℕ → Option ℕ → List EventSource → List EventSource × Bool
unfolding replace_source
register_event_source (negsuc n) events callback ss = (ss, false)
register_event_source (pos fd) events none ss = (ss, false)
register_event_source (pos fd) events (some c) ss =
    let new : EventSource = record { fd = fd; events = events; callback = c } in
    (if any (is_source fd) ss then replace_source new ss else ss ++ new ∷ [], true)

-- unregisterEventSource(): the first of that descriptor goes.
unfoldable pub erase_source : ℕ → List EventSource → List EventSource
erase_source fd [] = []
erase_source fd (s ∷ ss) = let rest = erase_source fd ss in if s.fd == fd then ss else s ∷ rest

unfoldable pub unregister_event_source : ℕ → List EventSource → List EventSource × Bool
unfolding erase_source
unregister_event_source fd ss = (erase_source fd ss, any (is_source fd) ss)

-- The callbacks that waitForEvents() invokes after poll(), given what poll() reports for each
-- source of the snapshot; 0 is nothing.
unfoldable pub ready_callbacks : List (EventSource × ℕ) → List (ℕ × ℕ)
ready_callbacks [] = []
ready_callbacks ((s, revents) ∷ polled) =
    let rest = ready_callbacks polled in if revents == 0 then rest else (s.callback, revents) ∷ rest

-- No descriptor is registered twice.
abbrev pub UniqueSources : List EventSource → Type 0
UniqueSources [] = Unit {0}
UniqueSources (s ∷ ss) = (any (is_source s.fd) ss ≡ false) × UniqueSources ss

unfoldable pub find_source : ℕ → List EventSource → Option EventSource
find_source fd [] = none
find_source fd (s ∷ ss) = let rest = find_source fd ss in if s.fd == fd then some s else rest

find_source-replace :
    (fd : ℕ) (new : EventSource) (ss : List EventSource)
    → find_source fd (replace_source new ss) ≡ (
        if new.fd == fd
        then (if any (is_source fd) ss then some new else none)
        else find_source fd ss)
unfolding find_source replace_source
find_source-replace fd new [] = ground arith
find_source-replace fd new (s ∷ ss) = ground (arith, find_source-replace fd new ss)

find_source-append :
    (fd : ℕ) (new : EventSource) (ss : List EventSource)
    → any (is_source new.fd) ss ≡ false
    → find_source fd (ss ++ new ∷ []) ≡ (if new.fd == fd then some new else find_source fd ss)
unfolding find_source
find_source-append fd new [] h = refl
find_source-append fd new (s ∷ ss) h = ground (arith, find_source-append fd new ss)

-- A registered descriptor is found with its new mask and callback, any other as before, and a
-- negative descriptor or an empty callback is refused with nothing changed.
pub register_event_source_lem :
    (fd other events c n : ℕ) (ss : List EventSource)
    → (find_source other (register_event_source (pos fd) events (some c) ss).0 ≡ (
        if fd == other
        then some (record { fd = fd; events = events; callback = c })
        else find_source other ss))
      × (register_event_source (negsuc n) events (some c) ss ≡ (ss, false))
      × (register_event_source (pos fd) events none ss ≡ (ss, false))
unfolding register_event_source
register_event_source_lem fd other events c n ss =
    let new : EventSource = record { fd = fd; events = events; callback = c } in
    (ground (arith, find_source-replace other new ss, find_source-append other new ss), refl, refl)

find_source-none :
    (fd : ℕ) (ss : List EventSource) → any (is_source fd) ss ≡ false → find_source fd ss ≡ none
unfolding find_source
find_source-none fd [] h = refl
find_source-none fd (s ∷ ss) h = ground (arith, find_source-none fd ss)

find_source_some :
    (fd : ℕ) (ss : List EventSource) → is_some (find_source fd ss) ≡ any (is_source fd) ss
unfolding find_source
find_source_some fd [] = refl
find_source_some fd (s ∷ ss) = ground (arith, find_source_some fd ss)

find_source-erase :
    (fd other : ℕ) (ss : List EventSource)
    → UniqueSources ss
    → find_source other (erase_source fd ss) ≡ (if fd == other then none else find_source other ss)
unfolding find_source erase_source
find_source-erase fd other [] u = ground arith
find_source-erase fd other (s ∷ ss) u =
    ground (arith, find_source-erase fd other ss u.1, find_source-none other ss)

-- Where no descriptor is registered twice, unregisterEventSource() reports whether the descriptor
-- was registered, and leaves it unregistered and every other as it was.
pub unregister_event_source_lem :
    (fd other : ℕ) (ss : List EventSource)
    → UniqueSources ss
    → ((unregister_event_source fd ss).1 ≡ is_some (find_source fd ss))
      × (find_source other (unregister_event_source fd ss).0
          ≡ (if fd == other then none else find_source other ss))
unfolding unregister_event_source
unregister_event_source_lem fd other ss u =
    ground (arith, find_source-erase fd other ss u, find_source_some fd ss)
