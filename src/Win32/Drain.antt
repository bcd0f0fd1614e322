-- ===== src/Win32/Drain.antt =====
-- What processPlatformEvents() of src/EventDispatcherWin32.cpp takes from the message queue.
use qobject_mimic.Base.{
  ℕ, ◌+◌, List, [], ◌∷◌, ◌++◌, Bool, true, false, ◌&&◌, not, if◌then◌else◌, ◌==◌, any, remove_if,
  ◌≡◌,
}
use qobject_mimic.Win32.{Win32, Message, is_own}

module _ (wm_user wm_quit : ℕ) where
  abbrev pub is_quit : ℕ → Message → Bool
  is_quit window m = not (is_own wm_user wm_quit window m) && m.message == wm_quit

  -- The messages before the first WM_QUIT, and those after it.
  abbrev pub before_quit : ℕ → List Message → List Message
  before_quit window [] = []
  before_quit window (m ∷ ms) =
      let rest = before_quit window ms in if is_quit window m then [] else m ∷ rest

  abbrev pub after_quit : ℕ → List Message → List Message
  after_quit window [] = []
  after_quit window (m ∷ ms) =
      let rest = after_quit window ms in if is_quit window m then ms else rest

-- The window procedures leave the dispatcher's window, the queue, and both flags alone.
abbrev pub IsQuiet : (Message → Win32 → Win32) → Type 0
IsQuiet dispatch =
    (m : Message) (d : Win32)
    → ((dispatch m d).window ≡ d.window)
      × ((dispatch m d).wake_pending ≡ d.wake_pending)
      × ((dispatch m d).messages ≡ d.messages)
      × ((dispatch m d).handled ≡ d.handled)
      × ((dispatch m d).base.interrupted ≡ d.base.interrupted)

-- What the loop makes of the queue `ms`, from a state of that window, that flag, those messages
-- handled and that interrupt flag.
abbrev pub IsDrained : ℕ → ℕ → Bool → ℕ → Bool → List Message → Bool → List Message → Win32 → Type 0
IsDrained wm_user wm_quit posted window pending hs stopped ms d' =
    let own = is_own wm_user wm_quit window in
    let seen = before_quit wm_user wm_quit window ms in
    let quits = any (is_quit wm_user wm_quit window) ms in
    let still = if any own seen then false else pending in
    (d'.handled ≡ hs ++ remove_if own seen)
    × (d'.base.interrupted ≡ (if quits then true else stopped))
    × (d'.wake_pending ≡ (if quits then (if still then true else posted) else still))
    × (d'.messages
        ≡ after_quit wm_user wm_quit window ms
          ++ (if quits && (not still && posted)
              then record { window = window; message = wm_user + 1 } ∷ []
              else []))
