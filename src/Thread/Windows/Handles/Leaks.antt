-- ===== src/Thread/Windows/Handles/Leaks.antt =====
-- Handles that wait() of src/ThreadWin.cpp does not close.
use qobject_mimic.Base.{
  ℕ, List, [], ◌∷◌, ◌++◌, Bool, true, false, nullptr, length, contains, All, ◌≡◌, ◌≢◌, arith, subst,
  ◌∙◌, ap, sym, inl, inr,
}
use qobject_mimic.Thread.Windows.Handles.{
  HandleState, HandleStep, HandleReach, IsSafe, unstarted, leave_wait, left, closed, leave_wait_lem,
  HandleReach-IsSafe, unstarted-IsSafe, enters, leaves, ends, starts, here, next,
}

-- An open handle that nothing refers to any more.
abbrev pub IsForgotten : ℕ → HandleState → Type 0
IsForgotten h s = (s.is_open h ≡ true) × (s.handle ≢ h) × (contains h s.inside ≡ false)

contains-middle :
    (h i : ℕ) (front back : List ℕ)
    → contains h (front ++ i ∷ back) ≡ false
    → (contains h (front ++ back) ≡ false) × (i ≢ h)
contains-middle h i [] back e = ground arith
contains-middle h i (x ∷ front) back e = ground (arith, contains-middle h i front back)

leave_wait-IsForgotten :
    (h i : ℕ) (completed : Bool) (rest : List ℕ) (s : HandleState)
    → h ≢ nullptr
    → s.is_open h ≡ true
    → s.handle ≢ h
    → contains h rest ≡ false
    → i ≢ h
    → IsForgotten h (leave_wait i completed rest s)
leave_wait-IsForgotten h i completed rest s set opened apart out other =
    elim (leave_wait_lem i completed rest s) [
      | inl stays ↦ subst (IsForgotten h) (sym stays) (opened, apart, out)
      | inr closes ↦ subst (IsForgotten h) (sym closes.0) (ground arith, ground arith, out)
    ]

HandleStep-IsForgotten :
    {s t : HandleState} (h : ℕ) → h ≢ nullptr → HandleStep s t → IsForgotten h s → IsForgotten h t
HandleStep-IsForgotten {s = s} h set (enters e) v = ground arith
HandleStep-IsForgotten {s = s} h set (leaves i completed front back e c) v =
    let split = contains-middle h i front back (ap (contains h) (sym e) ∙ v.2) in
    leave_wait-IsForgotten h i completed (front ++ back) s set v.0 v.1 split.0 split.1
HandleStep-IsForgotten h set (ends i) v = v
HandleStep-IsForgotten {s = s} h set (starts new fresh closed free) v = ground arith

HandleReach-IsForgotten :
    {s t : HandleState} (h : ℕ) → h ≢ nullptr → HandleReach s t → IsForgotten h s → IsForgotten h t
HandleReach-IsForgotten h set here v = v
HandleReach-IsForgotten h set (next r st) v =
    HandleStep-IsForgotten h set st (HandleReach-IsForgotten h set r v)

two_waiters-leave :
    (h i : ℕ) (s : HandleState) → s.waiters ≡ 2 → leave_wait h true (i ∷ []) s ≡ left (i ∷ []) s
unfolding leave_wait
two_waiters-leave h i s two = ground arith

-- If a wait on the handle of an earlier run completes while one other thread is inside a wait, on the
-- handle of the run since, then the earlier handle is not closed, and never is afterwards.
pub overlap_leaks :
    (h i : ℕ) (s t : HandleState)
    → HandleReach unstarted s
    → h ≢ nullptr
    → s.handle ≢ h
    → i ≢ h
    → s.inside ≡ i ∷ h ∷ []
    → HandleReach (leave_wait h true (i ∷ []) s) t
    → t.is_open h ≡ true
overlap_leaks h i s t r set apart other e later =
    let safe : IsSafe s = HandleReach-IsSafe r unstarted-IsSafe in
    let opened = subst (All (λ k. s.is_open k ≡ true)) e safe.waited in
    let stays = two_waiters-leave h i s (safe.counted ∙ ap length e) in
    let forgotten = subst (IsForgotten h) (sym stays) (opened.1.0, apart, ground arith) in
    (HandleReach-IsForgotten h set later forgotten).0
