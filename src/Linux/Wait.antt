-- ===== src/Linux/Wait.antt =====
-- EventDispatcherLinux() and waitForEvents() of src/EventDispatcherLinux.cpp. poll(2) and eventfd(2)
-- are given by what they answer; `POLLIN` and the other bits of a mask are numbers.
use qobject_mimic.Base.{
  ℕ, ◌+◌, List, [], ◌∷◌, ◌++◌, Bool, true, false, ◌&&◌, not, if◌then◌else◌, ◌==◌, ℤ, pos, negsuc,
  any, foldl, length, ◌≡◌, arith, ◌∙◌, ap,
}
use qobject_mimic.Dispatcher.{Dispatcher, new_dispatcher, wake_waiter}
use qobject_mimic.Linux.{EventSource, is_source, ready_callbacks, unregister_event_source}

-- The members over those of the base, the value of the eventfd, and the number of lines on stderr.
pub record LinuxDispatcher : Type 0 where
  pub base : Dispatcher
  pub wake_fd : ℤ
  pub wake_pending : Bool
  pub counter : ℕ
  pub sources : List EventSource
  pub complaints : ℕ

abbrev pub has_fd : LinuxDispatcher → Bool
has_fd d = elim d.wake_fd [ pos n ↦ true | negsuc n ↦ false ]

-- EventDispatcherLinux(), with what eventfd() gave.
unfoldable pub construct_linux : ℤ → LinuxDispatcher
construct_linux fd = record {
  base = new_dispatcher;
  wake_fd = fd;
  wake_pending = false;
  counter = 0;
  sources = [];
  complaints = elim fd [ pos n ↦ 0 | negsuc n ↦ 1 ];
}

-- ~EventDispatcherLinux(): the state that it leaves to the destructor of the base, and the
-- descriptors that it closes.
unfoldable pub destroy_linux : LinuxDispatcher → LinuxDispatcher × List ℕ
destroy_linux d = elim d.wake_fd [
  | pos n ↦ (record d { wake_fd = negsuc 0 }, n ∷ [])
  | negsuc n ↦ (d, [])
]

-- wakeWaiter(); `written` is whether write() takes the eight bytes.
unfoldable pub wake_waiter_linux : Bool → LinuxDispatcher → LinuxDispatcher
wake_waiter_linux written d =
    let woken = record d { base = wake_waiter d.base } in
    if not (has_fd d)
    then woken
    else if d.wake_pending
    then woken
    else if written
    then record woken { wake_pending = true; counter = d.counter + 1 }
    else record woken { wake_pending = false }

-- drainWakeFd().
unfoldable pub drain_wake_fd : LinuxDispatcher → LinuxDispatcher
drain_wake_fd d = record d { counter = 0; wake_pending = false }

-- unregisterEventSource(), with its wakeup.
unfoldable pub unregister_and_wake : Bool → ℕ → LinuxDispatcher → LinuxDispatcher × Bool
unfolding unregister_event_source wake_waiter_linux
unregister_and_wake written fd d =
    let (ss, removed) = unregister_event_source fd d.sources in
    let d' = record d { sources = ss } in
    (if removed then wake_waiter_linux written d' else d', removed)

-- What poll() answers: the revents of the eventfd and of the sources in order, or that the time is
-- up, or an error, and whether that is EINTR.
pub data Polled : Type 0 where
  ready : ℕ → List ℕ → Polled
  timed_out : Polled
  failed : Bool → Polled

-- pollSet and callbacks after poll(), without the eventfd.
abbrev pub with_revents : List EventSource → List ℕ → List (EventSource × ℕ)
with_revents [] rs = []
with_revents (s ∷ ss) [] = []
with_revents (s ∷ ss) (r ∷ rs) = (s, r) ∷ with_revents ss rs

-- waitForEvents(). `fallback` is the wait of the base, `elapse` what other threads do while poll()
-- blocks, and `invoke` a call of a callback with its revents. The second part lists the callbacks
-- that are called.
module _ (fallback elapse : LinuxDispatcher → LinuxDispatcher)
    (invoke : LinuxDispatcher → ℕ × ℕ → LinuxDispatcher) where
  abbrev pub after_poll :
      List EventSource → Polled → LinuxDispatcher → LinuxDispatcher × List (ℕ × ℕ)
  after_poll snapshot (ready wake revents) d =
      let calls = ready_callbacks (with_revents snapshot revents) in
      (foldl invoke (if wake == 0 then d else drain_wake_fd d) calls, calls)
  after_poll snapshot timed_out d = (d, [])
  after_poll snapshot (failed interrupted) d =
      (if interrupted then d else record d { complaints = d.complaints + 1 }, [])

  unfoldable pub wait_for_events : Polled → LinuxDispatcher → LinuxDispatcher × List (ℕ × ℕ)
  wait_for_events polled d =
      if not (has_fd d) then (fallback d, []) else after_poll d.sources polled (elapse d)

-- The callbacks of a list of sources that have something to report.
abbrev pub is_called : List (ℕ × ℕ) → EventSource → ℕ → Bool
is_called calls s r = any (λ call. call.0 == s.callback && call.1 == r) calls

with_revents-called :
    (front back : List EventSource) (s : EventSource) (rs more : List ℕ) (r : ℕ)
    → length front ≡ length rs
    → (r == 0) ≡ false
    → is_called (ready_callbacks (with_revents (front ++ s ∷ back) (rs ++ r ∷ more))) s r ≡ true
unfolding ready_callbacks
with_revents-called [] back s [] more r e set = ground arith
with_revents-called [] back s (x ∷ rs) more r e set = ground arith
with_revents-called (f ∷ front) back s [] more r e set = ground arith
with_revents-called (f ∷ front) back s (x ∷ rs) more r e set =
    ground (arith, with_revents-called front back s rs more r)

any_source :
    (front back : List EventSource) (s : EventSource)
    → any (is_source s.fd) (front ++ s ∷ back) ≡ true
any_source [] back s = ground arith
any_source (f ∷ front) back s = ground (arith, any_source front back s)

-- With an eventfd, waitForEvents() polls the sources registered when it starts: whatever other
-- threads do while it blocks, the callback of a source that poll() reports on is called with its
-- revents, and the list of calls is the same, even if the source is unregistered meanwhile, for
-- which unregisterEventSource() returns true. A timeout calls nothing and leaves the state that it
-- finds. Without an eventfd it is the wait of its base.
pub wait_for_events_lem :
    (fallback elapse other : LinuxDispatcher → LinuxDispatcher)
    (invoke : LinuxDispatcher → ℕ × ℕ → LinuxDispatcher) (d bare : LinuxDispatcher)
    (front back : List EventSource) (s : EventSource) (rs more : List ℕ) (r wake : ℕ)
    (polled : Polled)
    → has_fd d ≡ true
    → has_fd bare ≡ false
    → d.sources ≡ front ++ s ∷ back
    → length front ≡ length rs
    → (r == 0) ≡ false
    → let all = ready wake (rs ++ r ∷ more) in
      let calls = (wait_for_events fallback elapse invoke all d).1 in
      (is_called calls s r ≡ true)
      × ((wait_for_events fallback other invoke all d).1 ≡ calls)
      × ((unregister_and_wake true s.fd d).1 ≡ true)
      × (wait_for_events fallback elapse invoke polled bare ≡ (fallback bare, []))
      × (wait_for_events fallback elapse invoke timed_out d ≡ (elapse d, []))
unfolding wait_for_events unregister_and_wake unregister_event_source
wait_for_events_lem fallback elapse other invoke d bare front back s rs more r wake polled fd no_fd
      e same set =
    let called = with_revents-called front back s rs more r same set in
    (
      ground (arith, called),
      ground arith,
      ap (any (is_source s.fd)) e ∙ any_source front back s,
      ground arith,
      ground arith,
    )
