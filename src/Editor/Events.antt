-- ===== src/Editor/Events.antt =====
-- `editor_run`: what each scancode does, and the run over the scancodes that come.
use gecko_os.Prelude.{
  ℕ, ◌/◌, ◌%◌, Bool, false, not, ◌&&◌, Option, none, some, List, [], ◌∷◌, leb, ltb, ◌==◌,
  if◌then◌else◌,
}
use gecko_os.Keyboard.{Keyboard, key_up, key_down, key_left, key_right, scancode_to_ascii}
use gecko_os.Editor.{Editor, newline}
use gecko_os.Editor.Edit.{ed_insert, ed_backspace, ed_move_left, ed_move_right}
use gecko_os.Editor.Lines.{ed_move_up, ed_move_down, ed_redraw}
use gecko_os.Editor.Files.{Drive, ed_load, ed_save, ed_strcpy}

-- In the loop, in the inner loop that waits for a second ^Q, or behind the loop.
pub data Mode : Type 0 where
  editing confirming quit : Mode

pub record Session : Type 0 where
  pub mode : Mode
  pub ctrl_held : Bool
  pub editor : Editor

-- A scancode that `ps2_kb_wfi` returns, with the state of the keyboard then.
pub record Key : Type 0 where
  pub sc : ℕ
  pub keyboard : Keyboard

-- What the loop does behind its tests for ctrl and releases.
unfoldable pub type_ascii : Option ℕ → Editor → Editor
type_ascii none e = e
type_ascii (some ascii) e =
    if leb 0x20 ascii && ltb ascii 0x80 then ed_redraw (ed_insert ascii e) else e

-- The arrow keys.
unfoldable pub arrow_key : (sc : ℕ) → Option (Editor → Editor)
arrow_key sc =
    if sc == key_up
    then some ed_move_up
    else if sc == key_down
    then some ed_move_down
    else if sc == key_left
    then some ed_move_left
    else if sc == key_right
    then some ed_move_right
    else none

-- The keys behind ^S and ^Q.
unfoldable pub edit_key : Key → Editor → Editor
edit_key k e =
    if k.sc == 0x0E
    then ed_redraw (ed_backspace e)
    else if k.sc == 0x1C
    then ed_redraw (ed_insert newline e)
    else type_ascii (scancode_to_ascii k.sc k.keyboard) e

abbrev pub is_break : ℕ → Bool
is_break sc = sc / 128 % 2 == 1

-- The keys behind the arrow keys.
unfoldable pub plain_key : Option Drive → Key → Session → Session
plain_key fs k s =
    if s.ctrl_held && k.sc == 0x1F
    then record s { editor = ed_redraw (ed_save fs s.editor) }
    else if s.ctrl_held && k.sc == 0x10
    then record s { mode = if s.editor.dirty then confirming else quit }
    else record s { editor = edit_key k s.editor }

unfoldable pub moved_or_plain : Option (Editor → Editor) → Option Drive → Key → Session → Session
moved_or_plain none fs k s = plain_key fs k s
moved_or_plain (some move) fs k s = record s { editor = ed_redraw (move s.editor) }

-- A turn of the loop.
unfoldable pub editing_key : Option Drive → Key → Session → Session
editing_key fs k s =
    if k.sc % 128 == 0x1D
    then record s { ctrl_held = not (is_break k.sc) }
    else if is_break k.sc
    then s
    else moved_or_plain (arrow_key k.sc) fs k s

-- A turn of the inner loop: a release is passed over, and the next key decides.
unfoldable pub confirming_key : Key → Session → Session
confirming_key k s =
    if is_break k.sc
    then s
    else if k.sc == 0x10 && s.ctrl_held
    then record s { mode = quit }
    else record s { mode = editing; editor = ed_redraw s.editor }

unfoldable pub in_mode : Mode → Option Drive → Key → Session → Session
in_mode editing fs k s = editing_key fs k s
in_mode confirming fs k s = confirming_key k s
in_mode quit fs k s = s

abbrev pub session_key : Option Drive → Key → Session → Session
session_key fs k s = in_mode s.mode fs k s

unfoldable pub run_keys : Option Drive → List Key → Session → Session
run_keys fs [] s = s
run_keys fs (k ∷ ks) s = run_keys fs ks (session_key fs k s)

abbrev pub loaded : Option Editor → Option Session
loaded none = none
loaded (some e) = some (record { mode = editing; ctrl_held = false; editor = ed_redraw e })

-- The session before the first key, over the buffer that `e` left.
unfoldable pub begin_editor : Option Drive → (filename : List ℕ) → Editor → Option Session
begin_editor fs filename e = loaded (
    ed_load fs
      (record e { filename = ed_strcpy 32 filename; cur = 0; view_row = 0; dirty = false }))
