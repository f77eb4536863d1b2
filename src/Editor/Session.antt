-- ===== src/Editor/Session.antt =====
-- What holds after every key.
use gecko_os.Prelude.{
  ℕ, ◌%◌, take, Bool, true, false, ◌&&◌, Bool-cases, inl, inr, Option, none, some, List, [], ◌∷◌,
  leb, ltb, ◌==◌, if◌then◌else◌,
}
use gecko_os.Keyboard.{key_up, key_down, key_left, key_right, scancode_to_ascii}
use gecko_os.Editor.{Editor, newline}
use gecko_os.Editor.Files.{Drive, ed_save}
use gecko_os.Editor.Events.{
  Mode, editing, confirming, quit, Session, Key, type_ascii, arrow_key, edit_key, is_break,
  plain_key, moved_or_plain, editing_key, confirming_key, in_mode, session_key, run_keys,
}
use gecko_os.Editor.Bounds.{
  IsEditor, IsShown, ed_insert-IsEditor, ed_backspace-IsEditor, ed_move_left-IsEditor,
  ed_move_right-IsEditor, ed_move_up-IsEditor, ed_move_down-IsEditor,
}
use gecko_os.Editor.Start.{IsOpen, redrawn}

abbrev Good : Editor → Type 0
Good e = IsEditor e × IsShown e

pub either : {A : Type 0} (Q : A → Type 0) (b : Bool) (x y : A) → Q x → Q y → Q (if b then x else y)
either Q true x y hx hy = hx
either Q false x y hx hy = hy

type_ascii-Good : (ascii : Option ℕ) (e : Editor) → Good e → Good (type_ascii ascii e)
unfolding type_ascii
type_ascii-Good none e ok = ok
type_ascii-Good (some ascii) e ok =
    either Good (leb 0x20 ascii && ltb ascii 0x80) _ _ (redrawn _ (ed_insert-IsEditor ascii e ok.0))
      ok

edit_key-Good : (k : Key) (e : Editor) → Good e → Good (edit_key k e)
unfolding edit_key
edit_key-Good k e ok = either Good (k.sc == 0x0E) _ _ (redrawn _ (ed_backspace-IsEditor e ok.0)) (
    either Good (k.sc == 0x1C) _ _ (redrawn _ (ed_insert-IsEditor newline e ok.0))
      (type_ascii-Good (scancode_to_ascii k.sc k.keyboard) e ok))

ed_save-IsEditor : (fs : Option Drive) (e : Editor) → IsEditor e → IsEditor (ed_save fs e)
unfolding ed_save
ed_save-IsEditor none e ok = ok
ed_save-IsEditor (some fs) e ok = elim (Bool-cases (fs.write e.filename (take e.len e.buf))) [
  | inl written ↦
      rw written (record { size = ok.size; room = ok.room; inside = ok.inside; ended = ok.ended })
  | inr unwritten ↦ rw unwritten ok
]

plain_key-IsOpen :
    (fs : Option Drive) (k : Key) (s : Session) → IsOpen s → IsOpen (plain_key fs k s)
unfolding plain_key
plain_key-IsOpen fs k s ok =
    either IsOpen (s.ctrl_held && k.sc == 0x1F) _ _ (redrawn _ (ed_save-IsEditor fs s.editor ok.0))
      (either IsOpen (s.ctrl_held && k.sc == 0x10) _ _ ok (edit_key-Good k s.editor ok))

-- An arrow key moves the cursor within the text.
abbrev Moves : Option (Editor → Editor) → Type 0
Moves none = Unit {0}
Moves (some move) = (e : Editor) → IsEditor e → IsEditor (move e)

arrow_key-Moves : (sc : ℕ) → Moves (arrow_key sc)
unfolding arrow_key
arrow_key-Moves sc = either Moves (sc == key_up) _ _ ed_move_up-IsEditor (
    either Moves (sc == key_down) _ _ ed_move_down-IsEditor (
      either Moves (sc == key_left) _ _ ed_move_left-IsEditor
        (either Moves (sc == key_right) _ none ed_move_right-IsEditor tt)))

moved_or_plain-IsOpen :
    (move : Option (Editor → Editor)) (fs : Option Drive) (k : Key) (s : Session)
    → Moves move
    → IsOpen s
    → IsOpen (moved_or_plain move fs k s)
unfolding moved_or_plain
moved_or_plain-IsOpen none fs k s moves ok = plain_key-IsOpen fs k s ok
moved_or_plain-IsOpen (some move) fs k s moves ok = redrawn _ (moves s.editor ok.0)

editing_key-IsOpen :
    (fs : Option Drive) (k : Key) (s : Session) → IsOpen s → IsOpen (editing_key fs k s)
unfolding editing_key
editing_key-IsOpen fs k s ok = either IsOpen (k.sc % 128 == 0x1D) _ _ ok (
    either IsOpen (is_break k.sc) _ _ ok
      (moved_or_plain-IsOpen (arrow_key k.sc) fs k s (arrow_key-Moves k.sc) ok))

confirming_key-IsOpen : (k : Key) (s : Session) → IsOpen s → IsOpen (confirming_key k s)
unfolding confirming_key
confirming_key-IsOpen k s ok =
    either IsOpen (is_break k.sc) _ _ ok
      (either IsOpen (k.sc == 0x10 && s.ctrl_held) _ _ ok (redrawn _ ok.0))

in_mode-IsOpen :
    (m : Mode) (fs : Option Drive) (k : Key) (s : Session) → IsOpen s → IsOpen (in_mode m fs k s)
unfolding in_mode
in_mode-IsOpen editing fs k s ok = editing_key-IsOpen fs k s ok
in_mode-IsOpen confirming fs k s ok = confirming_key-IsOpen k s ok
in_mode-IsOpen quit fs k s ok = ok

-- From a session whose text fits the buffer with a zero behind it, whose cursor stands in the text and whose
-- screen shows the cursor's line, every sequence of keys leads to such a session.
pub run_keys-IsOpen :
    (fs : Option Drive) (keys : List Key) (s : Session) → IsOpen s → IsOpen (run_keys fs keys s)
unfolding run_keys
run_keys-IsOpen fs [] s ok = ok
run_keys-IsOpen fs (k ∷ keys) s ok =
    run_keys-IsOpen fs keys (session_key fs k s) (in_mode-IsOpen s.mode fs k s ok)
