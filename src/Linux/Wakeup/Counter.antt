-- ===== src/Linux/Wakeup/Counter.antt =====
-- The value of the eventfd of src/EventDispatcherLinux.cpp, and wakeWaiter() and drainWakeFd() run
-- to their end as the steps that they are made of.
use qobject_mimic.Base.{◌+◌, ◌≤◌, true, false, ◌≡◌, refl, arith, Bool-cases, inl, inr}
use qobject_mimic.Linux.Wakeup.{
  Wake, Step, Reach, readable, drained, returned, announce, exchange_set, exchange_seen, write,
  look, look_again, block, time_out, wake, read, clear, here, next,
}
use qobject_mimic.Linux.Wait.{LinuxDispatcher, has_fd, wake_waiter_linux, drain_wake_fd}

-- At most one write is done or under way for a pending flag, and none without one; a wait that
-- found the descriptor readable still finds it so.
pub record Bounded (s : Wake) : Type 0 where
  pub clear_ : s.pending ≡ false → s.counter + s.writing ≡ 0
  pub set_ : s.counter + s.writing ≤ 1
  pub found : s.phase ≡ readable → s.counter ≡ 1
  pub taken : s.phase ≡ drained → (s.pending ≡ true) × (s.counter + s.writing ≡ 0)

Step-Bounded : {s t : Wake} → Step s t → Bounded s → Bounded t
Step-Bounded announce v = ground arith
Step-Bounded (exchange_set n e p) v = ground arith
Step-Bounded (exchange_seen n e p) v = ground arith
Step-Bounded (write n e) v = ground arith
Step-Bounded (look e) v = ground arith
Step-Bounded (look_again e) v = ground arith
Step-Bounded (block e) v = ground arith
Step-Bounded (time_out e) v = ground arith
Step-Bounded (wake e c) v = ground arith
Step-Bounded (read e) v = ground arith
Step-Bounded (clear e) v = ground arith

pub Reach-Bounded : {s : Wake} → Reach s → Bounded s
Reach-Bounded here = ground arith
Reach-Bounded (next r st) = Step-Bounded st (Reach-Bounded r)

-- The members of the dispatcher as a state of the protocol has them.
pub record Shows (d : LinuxDispatcher) (s : Wake) : Type 0 where
  pub flag : d.wake_pending ≡ s.pending
  pub value : d.counter ≡ s.counter

Reach-seen : (s : Wake) → Reach s → s.pending ≡ true → Reach (record s { unseen = true })
Reach-seen s r p = next (next r announce) (exchange_seen s.starting refl p)

Reach-woken :
    (s : Wake)
    → Reach s
    → s.pending ≡ false
    → Reach (record s { unseen = true; pending = true; counter = s.counter + 1 })
Reach-woken s r p =
    next (next (next r announce) (exchange_set s.starting refl p)) (write s.writing refl)

Reach-drained :
    (s : Wake)
    → Reach s
    → s.phase ≡ readable
    → Reach (record s { phase = returned; pending = false; counter = 0 })
Reach-drained s r p = next (next r (read p)) (clear refl)

-- Where `s` is reachable, the members `d` that show it have the counter at one at most, so that
-- the write of wakeWaiter() never blocks: with the descriptor open, a thread that announces work
-- and runs wakeWaiter() to its end takes `d` to members that show a reachable state where work is
-- announced and no other thread has moved. Where the loop has found the descriptor readable in a
-- reachable state, the members that show it have the counter at one, and drainWakeFd() takes them
-- to members that show a reachable state with the loop back from its wait.
pub wakeup_refines :
    (d e : LinuxDispatcher) (s u : Wake)
    → Reach s
    → Shows d s
    → has_fd d ≡ true
    → Reach u
    → Shows e u
    → u.phase ≡ readable
    → (d.counter ≤ 1)
      × ((t : Wake) × Reach t
          × (Shows (wake_waiter_linux true d) t
              × (t.unseen ≡ true)
              × (t.phase ≡ s.phase)
              × (t.starting ≡ s.starting)
              × (t.writing ≡ s.writing)))
      × (e.counter ≡ 1)
      × ((t : Wake) × Reach t × (Shows (drain_wake_fd e) t × (t.phase ≡ returned)))
unfolding wake_waiter_linux drain_wake_fd
wakeup_refines d e s u r shown fd v seen found =
    let bounds = Reach-Bounded r in
    let taken = Reach-Bounded v in
    (
      ground arith,
      elim (Bool-cases s.pending) [
        | inl p ↦ (record s { unseen = true }, Reach-seen s r p, ground arith)
        | inr p ↦ (
          record s { unseen = true; pending = true; counter = s.counter + 1 },
          Reach-woken s r p,
          ground arith,
        )
      ],
      ground arith,
      (
        record u { phase = returned; pending = false; counter = 0 },
        Reach-drained u v found,
        ground arith,
      ),
    )
