-- ===== src/Thread/Windows/Handles.antt =====
-- wait() of src/ThreadWin.cpp and the handle that start() puts in mHandle, as interleaved steps of
-- any number of threads.
pub mod Leaks
use qobject_mimic.Base.{
  ℕ, ◌+◌, ◌-◌, List, [], ◌∷◌, ◌++◌, Bool, true, false, ◌&&◌, if◌then◌else◌, nullptr, update, ◌==◌,
  length, contains, All, ◌≡◌, ◌≢◌, ◌⊎◌, refl, arith, subst, ◌∙◌, ap, sym, inl, inr, Bool-cases,
}

-- `handle` is mHandle and `waiters` mWaiters; `inside` lists the handles on which threads are
-- inside WaitForSingleObject(). `is_open` and `ended` say of each handle whether it is open, and
-- whether its thread has ended.
pub record HandleState : Type 0 where
  pub handle : ℕ
  pub waiters : ℕ
  pub inside : List ℕ
  pub is_open : ℕ → Bool
  pub ended : ℕ → Bool

abbrev pub unstarted : HandleState
unstarted = record {
  handle = nullptr;
  waiters = 0;
  inside = [];
  is_open = λ h. false;
  ended = λ h. false;
}

-- The second locked block of wait(), on the handle `h`, leaving the waits `rest`.
unfoldable pub leave_wait : ℕ → Bool → List ℕ → HandleState → HandleState
leave_wait h completed rest s =
    let n = s.waiters - 1 in
    let left = record s { waiters = n; inside = rest } in
    if completed && n == 0
    then record left {
      is_open = update s.is_open h false;
      handle = if s.handle == h then nullptr else s.handle;
    }
    else left

-- `starts` is the assignment of mHandle in start(), after its own wait(); the system gives a handle
-- that is not open.
pub data HandleStep (s : HandleState) : HandleState → Type 0 where
  enters :
      s.handle ≢ nullptr
      → HandleStep s (record s { waiters = s.waiters + 1; inside = s.handle ∷ s.inside })
  leaves :
      (h : ℕ) (completed : Bool) (front back : List ℕ)
      → s.inside ≡ front ++ h ∷ back
      → (completed ≡ false) ⊎ (s.ended h ≡ true)
      → HandleStep s (leave_wait h completed (front ++ back) s)
  ends : (h : ℕ) → HandleStep s (record s { ended = update s.ended h true })
  starts :
      (new : ℕ)
      → new ≢ nullptr
      → s.is_open new ≡ false
      → (s.handle ≡ nullptr) ⊎ (s.ended s.handle ≡ true)
      → HandleStep s (record s {
        handle = new;
        is_open = update s.is_open new true;
        ended = update s.ended new false;
      })

pub data HandleReach : HandleState → HandleState → Type 0 where
  here : {s : HandleState} → HandleReach s s
  next : {r s t : HandleState} → HandleReach r s → HandleStep s t → HandleReach r t

-- The handle in mHandle is open, as is every handle that a thread waits on, and mWaiters counts the
-- waits.
pub record IsSafe (s : HandleState) : Type 0 where
  pub owned : (s.handle ≡ nullptr) ⊎ (s.is_open s.handle ≡ true)
  pub waited : All (λ h. s.is_open h ≡ true) s.inside
  pub counted : s.waiters ≡ length s.inside

All-middle {ℓ κ} :
    {A : Type ℓ} (P : A → Type κ) (front back : List A) (a : A)
    → All P (front ++ a ∷ back)
    → All P (front ++ back) × P a
All-middle P [] back a h = (h.1, h.0)
All-middle P (x ∷ front) back a h =
    let rest = All-middle P front back a h.1 in ((h.0, rest.0), rest.1)

length-middle {ℓ} :
    {A : Type ℓ} (front back : List A) (a : A)
    → length (front ++ a ∷ back) ≡ length (front ++ back) + 1
length-middle [] back a = ground arith
length-middle (x ∷ front) back a = ground (arith, length-middle front back a)

All-opened :
    (is_open : ℕ → Bool) (new : ℕ) (hs : List ℕ)
    → All (λ h. is_open h ≡ true) hs
    → All (λ h. update is_open new true h ≡ true) hs
All-opened is_open new [] v = tt
All-opened is_open new (h ∷ hs) v = (ground arith, All-opened is_open new hs v.1)

All-last : (is_open : ℕ → Bool) (hs : List ℕ) → length hs ≡ 0 → All (λ h. is_open h ≡ true) hs
All-last is_open [] e = tt
All-last is_open (h ∷ hs) e = ground arith

-- The two outcomes of leaving a wait.
abbrev pub left : List ℕ → HandleState → HandleState
left rest s = record s { waiters = s.waiters - 1; inside = rest }

abbrev pub closed : ℕ → List ℕ → HandleState → HandleState
closed h rest s = record (left rest s) {
  is_open = update s.is_open h false;
  handle = if s.handle == h then nullptr else s.handle;
}

pub leave_wait_lem :
    (h : ℕ) (completed : Bool) (rest : List ℕ) (s : HandleState)
    → (leave_wait h completed rest s ≡ left rest s)
      ⊎ ((leave_wait h completed rest s ≡ closed h rest s) × (s.waiters - 1 ≡ 0))
unfolding leave_wait
leave_wait_lem h completed rest s = elim (Bool-cases (completed && s.waiters - 1 == 0)) [
  | inl closes ↦ inr (ap (λ b. if b then closed h rest s else left rest s) closes, ground arith)
  | inr stays ↦ inl (ap (λ b. if b then closed h rest s else left rest s) stays)
]

leave_wait-IsSafe :
    (h : ℕ) (completed : Bool) (rest : List ℕ) (s : HandleState)
    → (s.handle ≡ nullptr) ⊎ (s.is_open s.handle ≡ true)
    → All (λ i. s.is_open i ≡ true) rest
    → s.waiters ≡ length rest + 1
    → IsSafe (leave_wait h completed rest s)
leave_wait-IsSafe h completed rest s owned opened counted =
    elim (leave_wait_lem h completed rest s) [
      | inl stays ↦
          subst IsSafe (sym stays)
            (record { owned = owned; waited = opened; counted = ground arith })
      | inr closes ↦ subst IsSafe (sym closes.0) (record {
        owned = ground arith;
        waited = All-last (update s.is_open h false) rest (ground arith);
        counted = ground arith;
      })
    ]

HandleStep-IsSafe : {s t : HandleState} → HandleStep s t → IsSafe s → IsSafe t
HandleStep-IsSafe {s = s} (enters e) v = record {
  owned = v.owned;
  waited = (ground arith, v.waited);
  counted = ground arith;
}
HandleStep-IsSafe {s = s} (leaves h completed front back e c) v =
    let split =
      All-middle (λ i. s.is_open i ≡ true) front back h
        (subst (All (λ i. s.is_open i ≡ true)) e v.waited) in
    leave_wait-IsSafe h completed (front ++ back) s v.owned split.0
      (v.counted ∙ ap length e ∙ length-middle front back h)
HandleStep-IsSafe (ends h) v = record { owned = v.owned; waited = v.waited; counted = v.counted }
HandleStep-IsSafe {s = s} (starts new set closed free) v = record {
  owned = ground arith;
  waited = All-opened s.is_open new s.inside v.waited;
  counted = v.counted;
}

pub HandleReach-IsSafe : {s t : HandleState} → HandleReach s t → IsSafe s → IsSafe t
HandleReach-IsSafe here v = v
HandleReach-IsSafe (next r st) v = HandleStep-IsSafe st (HandleReach-IsSafe r v)

pub unstarted-IsSafe : IsSafe unstarted
unstarted-IsSafe = record { owned = inl refl; waited = tt; counted = refl }

-- In every interleaving of starts, waits that complete and waits that time out, no handle is closed
-- while a thread waits on it, mHandle is null or open, and mWaiters is the number of threads inside
-- a wait.
pub no_use_after_close :
    (s : HandleState)
    → HandleReach unstarted s
    → ((s.handle ≡ nullptr) ⊎ (s.is_open s.handle ≡ true))
      × All (λ h. s.is_open h ≡ true) s.inside
      × (s.waiters ≡ length s.inside)
no_use_after_close s r =
    let safe : IsSafe s = HandleReach-IsSafe r unstarted-IsSafe in
    (safe.owned, safe.waited, safe.counted)
