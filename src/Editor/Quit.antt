-- ===== src/Editor/Quit.antt =====
-- When the editor is left.
use gecko_os.Prelude.{
  ◌≡◌, ◌≢◌, ◌%◌, refl, Bool, true, false, ◌&&◌, Bool-cases, inl, inr, ◌⊎◌, Option, none, some,
  arith, ◌==◌, if◌then◌else◌,
}
use gecko_os.Editor.{Editor}
use gecko_os.Editor.Files.{Drive}
use gecko_os.Editor.Events.{
  Mode, editing, confirming, quit, Session, Key, arrow_key, is_break, plain_key, moved_or_plain,
  editing_key, confirming_key, in_mode, session_key,
}
use gecko_os.Editor.Session.{either}

editing_not_quit : editing ≢ quit
editing_not_quit h = cc

-- What a key that ends the session must be: `q` while the editor takes ctrl to be held.
abbrev pub IsCtrlQ : Key → Session → Type 0
IsCtrlQ k s = (k.sc ≡ 0x10) × (s.ctrl_held ≡ true)

-- Leaving at once needs a text with no unsaved change.
unsaved : (dirty : Bool) → (if dirty then confirming else quit) ≡ quit → dirty ≡ false
unsaved true h = cc
unsaved false h = refl

module _ (fs : Option Drive) (k : Key) (s : Session) where
  abbrev Saved : Session → Type 0
  Saved s' = s'.mode ≡ quit → IsCtrlQ k s × (s.editor.dirty ≡ false)

  plain_key-Saved : s.mode ≢ quit → Saved (plain_key fs k s)
  unfolding plain_key
  plain_key-Saved running =
      either Saved (s.ctrl_held && k.sc == 0x1F) _ _ (λ h. absurd (running h))
        (elim (Bool-cases (s.ctrl_held && k.sc == 0x10)) [
          | inl asked ↦ rw asked (λ h. ((ground arith, ground arith), unsaved s.editor.dirty h))
          | inr other ↦ rw other (λ h. absurd (running h))
        ])

  moved_or_plain-Saved :
      (move : Option (Editor → Editor)) → s.mode ≢ quit → Saved (moved_or_plain move fs k s)
  unfolding moved_or_plain
  moved_or_plain-Saved none running = plain_key-Saved running
  moved_or_plain-Saved (some move) running = λ h. absurd (running h)

  editing_key-Saved : s.mode ≢ quit → Saved (editing_key fs k s)
  unfolding editing_key
  editing_key-Saved running =
      either Saved (k.sc % 128 == 0x1D) _ _ (λ h. absurd (running h))
        (either Saved (is_break k.sc) _ _ (λ h. absurd (running h))
          (moved_or_plain-Saved (arrow_key k.sc) running))

  confirming_key-quits : s.mode ≢ quit → (confirming_key k s).mode ≡ quit → IsCtrlQ k s
  unfolding confirming_key
  confirming_key-quits running =
      either (λ (s' : Session). s'.mode ≡ quit → IsCtrlQ k s) (is_break k.sc) _ _
        (λ h. absurd (running h))
        (elim (Bool-cases (k.sc == 0x10 && s.ctrl_held)) [
          | inl again ↦ rw again (λ h. (ground arith, ground arith))
          | inr other ↦ rw other (λ h. absurd (editing_not_quit h))
        ])

-- A key that ends a session that was going on is the scancode of q, read while the editor's own flag
-- says that ctrl is held, and there is no unsaved change or the session was confirming. The flag says
-- no more than that: in the confirming loop the release of ctrl does not clear it.
pub session_key-quits :
    (fs : Option Drive) (k : Key) (s : Session)
    → s.mode ≢ quit
    → (session_key fs k s).mode ≡ quit
    → IsCtrlQ k s × ((s.editor.dirty ≡ false) ⊎ (s.mode ≡ confirming))
unfolding in_mode
session_key-quits fs k s running h = by_mode s.mode refl h
  where
    by_mode :
        (m : Mode)
        → s.mode ≡ m
        → (in_mode m fs k s).mode ≡ quit
        → IsCtrlQ k s × ((s.editor.dirty ≡ false) ⊎ (s.mode ≡ confirming))
    by_mode editing e h =
        let (ctrl_q, saved) = editing_key-Saved fs k s running h in (ctrl_q, inl saved)
    by_mode confirming e h = (confirming_key-quits fs k s running h, inr e)
    by_mode quit e h = absurd (running e)
