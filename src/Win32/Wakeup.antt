-- ===== src/Win32/Wakeup.antt =====
-- wakeWaiter(), waitForEvents() and processPlatformEvents() of EventDispatcherWin32 as interleaved
-- steps of the loop and of any number of threads that announce work
-- (src/EventDispatcherWin32.cpp, src/EventDispatcherDefault.cpp).
pub mod Messages
use qobject_mimic.Base.{ℕ, ◌+◌, ◌<◌, Bool, true, false, ◌≡◌, ◌≢◌, ◌⊎◌, refl, arith}

-- Where the loop stands in a pass: before its next look at the queue and the flags under the lock;
-- past it; blocked in MsgWaitForMultipleObjectsEx(); in the loop of processPlatformEvents(); past a
-- PeekMessage() there that took a wakeup message out; and in the slots and window procedures that the
-- pass calls.
pub data PumpPhase : Type 0 where
  returned looked waiting pumping taken calling : PumpPhase

-- `messages` counts the wakeup messages in the thread's queue. `unseen` is whether work was announced
-- that the loop has not looked at since. `starting` threads have announced work and not yet reached
-- the exchange of wakeWaiter(); `posting` threads have set mWakePending and not yet called
-- PostMessage().
pub record Pump : Type 0 where
  pub phase : PumpPhase
  pub pending : Bool
  pub messages : ℕ
  pub unseen : Bool
  pub starting : ℕ
  pub posting : ℕ

abbrev pub quiet : Pump
quiet = record {
  phase = returned;
  pending = false;
  messages = 0;
  unseen = false;
  starting = 0;
  posting = 0;
}

-- One step of one thread. `nested` is whether code that the loop calls runs a message loop of its
-- own, which dispatches the wakeup message to DefWindowProc(), and `failing` whether PostMessage()
-- can fail. A wait can end for another message or its timeout, as in `time_out`.
pub data PumpStep (nested failing : Bool) (s : Pump) : Pump → Type 0 where
  announce : PumpStep nested failing s (record s { unseen = true; starting = s.starting + 1 })
  exchange_set :
      (n : ℕ)
      → s.starting ≡ n + 1
      → s.pending ≡ false
      → PumpStep nested failing s
          (record s { starting = n; pending = true; posting = s.posting + 1 })
  exchange_seen :
      (n : ℕ)
      → s.starting ≡ n + 1
      → s.pending ≡ true
      → PumpStep nested failing s (record s { starting = n })
  post :
      (n : ℕ)
      → s.posting ≡ n + 1
      → PumpStep nested failing s (record s { posting = n; messages = s.messages + 1 })
  post_fails :
      (n : ℕ)
      → failing ≡ true
      → s.posting ≡ n + 1
      → PumpStep nested failing s (record s { posting = n; pending = false })
  look :
      s.phase ≡ returned → PumpStep nested failing s (record s { phase = looked; unseen = false })
  block : s.phase ≡ looked → PumpStep nested failing s (record s { phase = waiting })
  time_out : s.phase ≡ waiting → PumpStep nested failing s (record s { phase = returned })
  wake :
      s.phase ≡ waiting → 0 < s.messages → PumpStep nested failing s (record s { phase = returned })
  pump : s.phase ≡ looked → PumpStep nested failing s (record s { phase = pumping })
  peek :
      (n : ℕ)
      → s.phase ≡ pumping
      → s.messages ≡ n + 1
      → PumpStep nested failing s (record s { phase = taken; messages = n })
  clear :
      s.phase ≡ taken → PumpStep nested failing s (record s { phase = pumping; pending = false })
  call_out : s.phase ≡ pumping → PumpStep nested failing s (record s { phase = calling })
  pump_on : s.phase ≡ calling → PumpStep nested failing s (record s { phase = pumping })
  pass_over : s.phase ≡ calling → PumpStep nested failing s (record s { phase = returned })
  swallow :
      (n : ℕ)
      → nested ≡ true
      → s.phase ≡ calling
      → s.messages ≡ n + 1
      → PumpStep nested failing s (record s { messages = n })

pub data PumpReach (nested failing : Bool) : Pump → Pump → Type 0 where
  here : {s : Pump} → PumpReach nested failing s s
  next :
      {r s t : Pump}
      → PumpReach nested failing r s
      → PumpStep nested failing s t
      → PumpReach nested failing r t

-- What keeps the flag from being stuck: it is backed by a message, a post to come, or a store about
-- to clear it.
abbrev pub IsBacked : Pump → Type 0
IsBacked s = s.pending ≡ true → (0 < s.messages) ⊎ ((0 < s.posting) ⊎ (s.phase ≡ taken))

PumpStep-IsBacked :
    {failing : Bool} {s t : Pump} → PumpStep false failing s t → IsBacked s → IsBacked t
PumpStep-IsBacked announce v = ground arith
PumpStep-IsBacked (exchange_set n e p) v = ground arith
PumpStep-IsBacked (exchange_seen n e p) v = ground arith
PumpStep-IsBacked (post n e) v = ground arith
PumpStep-IsBacked (post_fails n f e) v = ground arith
PumpStep-IsBacked (look e) v = ground arith
PumpStep-IsBacked (block e) v = ground arith
PumpStep-IsBacked (time_out e) v = ground arith
PumpStep-IsBacked (wake e c) v = ground arith
PumpStep-IsBacked (pump e) v = ground arith
PumpStep-IsBacked (peek n e m) v = ground arith
PumpStep-IsBacked (clear e) v = ground arith
PumpStep-IsBacked (call_out e) v = ground arith
PumpStep-IsBacked (pump_on e) v = ground arith
PumpStep-IsBacked (pass_over e) v = ground arith
PumpStep-IsBacked (swallow n f e m) v = ground arith

PumpReach-IsBacked :
    {failing : Bool} {s t : Pump} → PumpReach false failing s t → IsBacked s → IsBacked t
PumpReach-IsBacked here v = v
PumpReach-IsBacked (next r st) v = PumpStep-IsBacked st (PumpReach-IsBacked r v)

-- Where no post fails, work announced since the loop last looked has a wakeup under way.
abbrev pub IsAnnounced : Pump → Type 0
IsAnnounced s =
    (s.phase ≡ looked) ⊎ (s.phase ≡ waiting)
    → s.unseen ≡ true
    → (0 < s.starting) ⊎ (s.pending ≡ true)

PumpStep-IsAnnounced : {s t : Pump} → PumpStep false false s t → IsAnnounced s → IsAnnounced t
PumpStep-IsAnnounced announce v = ground arith
PumpStep-IsAnnounced (exchange_set n e p) v = ground arith
PumpStep-IsAnnounced (exchange_seen n e p) v = ground arith
PumpStep-IsAnnounced (post n e) v = ground arith
PumpStep-IsAnnounced (post_fails n f e) v = ground arith
PumpStep-IsAnnounced (look e) v = ground arith
PumpStep-IsAnnounced (block e) v = ground arith
PumpStep-IsAnnounced (time_out e) v = ground arith
PumpStep-IsAnnounced (wake e c) v = ground arith
PumpStep-IsAnnounced (pump e) v = ground arith
PumpStep-IsAnnounced (peek n e m) v = ground arith
PumpStep-IsAnnounced (clear e) v = ground arith
PumpStep-IsAnnounced (call_out e) v = ground arith
PumpStep-IsAnnounced (pump_on e) v = ground arith
PumpStep-IsAnnounced (pass_over e) v = ground arith
PumpStep-IsAnnounced (swallow n f e m) v = ground arith

PumpReach-IsAnnounced : {s t : Pump} → PumpReach false false s t → IsAnnounced s → IsAnnounced t
PumpReach-IsAnnounced here v = v
PumpReach-IsAnnounced (next r st) v = PumpStep-IsAnnounced st (PumpReach-IsAnnounced r v)

-- If no code that the loop calls runs a message loop of its own: in every interleaving, even where
-- PostMessage() fails, a set mWakePending has a wakeup message in the queue, a post to come, or the
-- loop about to clear it, so that it never shuts the way for later wakeups; and where PostMessage()
-- does not fail, if work was announced that the loop has not seen and the loop is blocked, then a
-- wakeup message is in the queue, or a thread is still inside wakeWaiter().
pub no_lost_message :
    (failing : Bool) (s t : Pump)
    → PumpReach false failing quiet s
    → PumpReach false false quiet t
    → t.phase ≡ waiting
    → t.unseen ≡ true
    → IsBacked s × ((0 < t.messages) ⊎ ((0 < t.starting) ⊎ (0 < t.posting)))
no_lost_message failing s t r q blocked work =
    let back : IsBacked s = PumpReach-IsBacked r (ground arith) in
    let back_t : IsBacked t = PumpReach-IsBacked q (ground arith) in
    let told : IsAnnounced t = PumpReach-IsAnnounced q (ground arith) in (back, ground arith)

-- The flag is set, and nothing is left that clears it.
abbrev pub IsStuck : Pump → Type 0
IsStuck s = (s.pending ≡ true) × (s.messages ≡ 0) × (s.posting ≡ 0) × (s.phase ≢ taken)

PumpStep-IsStuck :
    {nested failing : Bool} {s t : Pump} → PumpStep nested failing s t → IsStuck s → IsStuck t
PumpStep-IsStuck announce v = ground arith
PumpStep-IsStuck (exchange_set n e p) v = ground arith
PumpStep-IsStuck (exchange_seen n e p) v = ground arith
PumpStep-IsStuck (post n e) v = ground arith
PumpStep-IsStuck (post_fails n f e) v = ground arith
PumpStep-IsStuck (look e) v = ground arith
PumpStep-IsStuck (block e) v = ground arith
PumpStep-IsStuck (time_out e) v = ground arith
PumpStep-IsStuck (wake e c) v = ground arith
PumpStep-IsStuck (pump e) v = ground arith
PumpStep-IsStuck (peek n e m) v = ground arith
PumpStep-IsStuck (clear e) v = ground arith
PumpStep-IsStuck (call_out e) v = ground arith
PumpStep-IsStuck (pump_on e) v = ground arith
PumpStep-IsStuck (pass_over e) v = ground arith
PumpStep-IsStuck (swallow n f e m) v = ground arith

PumpReach-IsStuck :
    {nested failing : Bool} {s t : Pump} → PumpReach nested failing s t → IsStuck s → IsStuck t
PumpReach-IsStuck here v = v
PumpReach-IsStuck (next r st) v = PumpStep-IsStuck st (PumpReach-IsStuck r v)

-- If the wakeup message of a set mWakePending is taken by a message loop that a slot or a window
-- procedure runs, with no other post under way, then from there on, whatever announces work, no
-- wakeup message is ever posted again and mWakePending stays set.
pub swallowed_wakeup :
    (failing : Bool) (s t : Pump)
    → s.pending ≡ true
    → s.phase ≡ calling
    → s.messages ≡ 1
    → s.posting ≡ 0
    → PumpReach true failing (record s { messages = 0 }) t
    → PumpStep true failing s (record s { messages = 0 })
      × (t.messages ≡ 0)
      × (t.pending ≡ true)
      × (t.posting ≡ 0)
swallowed_wakeup failing s t set out one no_post r =
    let stuck : IsStuck t = PumpReach-IsStuck r (ground arith) in
    (swallow 0 refl out one, stuck.1, stuck.0, stuck.2)
