-- ===== src/Linux/Wakeup.antt =====
-- wakeWaiter(), drainWakeFd() and the poll of EventDispatcherLinux as interleaved steps of the loop
-- and of any number of threads that announce work (src/EventDispatcherLinux.cpp).
pub mod Counter
use qobject_mimic.Base.{ℕ, ◌+◌, ◌<◌, Bool, true, false, ◌≡◌, ◌⊎◌, arith}

-- Where the loop stands: back from a wait, about to look at the queue and the flags under the lock;
-- anywhere from there to its next wait; blocked in poll(); past a poll() that found the descriptor
-- readable; and between the read and the store of drainWakeFd().
pub data Phase : Type 0 where
  returned looked polling readable drained : Phase

-- `unseen` is whether work was announced that the loop has not looked at since. `starting` threads
-- have announced work and not yet reached the exchange of wakeWaiter(); `writing` threads have set
-- mWakePending and not yet written to the descriptor, whose counter is `counter`.
pub record Wake : Type 0 where
  pub phase : Phase
  pub pending : Bool
  pub counter : ℕ
  pub unseen : Bool
  pub starting : ℕ
  pub writing : ℕ

abbrev pub idle : Wake
idle = record {
  phase = looked;
  pending = false;
  counter = 0;
  unseen = false;
  starting = 0;
  writing = 0;
}

-- One step of one thread. A step that tests names the value in an equation.
pub data Step (s : Wake) : Wake → Type 0 where
  announce : Step s (record s { unseen = true; starting = s.starting + 1 })
  exchange_set :
      (n : ℕ)
      → s.starting ≡ n + 1
      → s.pending ≡ false
      → Step s (record s { starting = n; pending = true; writing = s.writing + 1 })
  exchange_seen :
      (n : ℕ) → s.starting ≡ n + 1 → s.pending ≡ true → Step s (record s { starting = n })
  write : (n : ℕ) → s.writing ≡ n + 1 → Step s (record s { writing = n; counter = s.counter + 1 })
  look : s.phase ≡ returned → Step s (record s { phase = looked; unseen = false })
  look_again : s.phase ≡ looked → Step s (record s { unseen = false })
  block : s.phase ≡ looked → Step s (record s { phase = polling })
  time_out : s.phase ≡ polling → Step s (record s { phase = returned })
  wake : s.phase ≡ polling → 0 < s.counter → Step s (record s { phase = readable })
  read : s.phase ≡ readable → Step s (record s { phase = drained; counter = 0 })
  clear : s.phase ≡ drained → Step s (record s { phase = returned; pending = false })

pub data Reach : Wake → Type 0 where
  here : Reach idle
  next : {s t : Wake} → Reach s → Step s t → Reach t

-- A pending flag is backed by a readable descriptor, a write to come, or a drain about to clear it;
-- and work announced since the loop last looked has a wakeup under way until the loop wakes.
pub record Inv (s : Wake) : Type 0 where
  pub backed : s.pending ≡ true → (0 < s.counter) ⊎ ((0 < s.writing) ⊎ (s.phase ≡ drained))
  pub announced :
      (s.phase ≡ looked) ⊎ (s.phase ≡ polling)
      → s.unseen ≡ true
      → (0 < s.starting) ⊎ (s.pending ≡ true)

Step-Inv : {s t : Wake} → Step s t → Inv s → Inv t
Step-Inv announce v = ground arith
Step-Inv (exchange_set n e p) v = ground arith
Step-Inv (exchange_seen n e p) v = ground arith
Step-Inv (write n e) v = ground arith
Step-Inv (look e) v = ground arith
Step-Inv (look_again e) v = ground arith
Step-Inv (block e) v = ground arith
Step-Inv (time_out e) v = ground arith
Step-Inv (wake e c) v = ground arith
Step-Inv (read e) v = ground arith
Step-Inv (clear e) v = ground arith

pub Reach-Inv : {s : Wake} → Reach s → Inv s
Reach-Inv here = ground arith
Reach-Inv (next r st) = Step-Inv st (Reach-Inv r)

-- No wakeup is lost: in every interleaving, if work was announced that the loop has not seen and
-- the loop blocks in poll(), then the descriptor is readable, or a thread is still inside
-- wakeWaiter(), before its exchange or before its write.
pub no_lost_wakeup :
    (s : Wake)
    → Reach s
    → s.phase ≡ polling
    → s.unseen ≡ true
    → (0 < s.counter) ⊎ ((0 < s.starting) ⊎ (0 < s.writing))
no_lost_wakeup s r blocked work = ground (arith, Reach-Inv r)
