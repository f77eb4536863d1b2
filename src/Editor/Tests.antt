-- ===== src/Editor/Tests.antt =====
-- The editor at concrete texts and keys.
use gecko_os.Prelude.{
  ℕ, ◌≡◌, ◌≢◌, ◌⊎◌, ◌↔◌, refl, true, false, none, some, List, [], ◌∷◌, map, arith, take, drop,
  replicate, length-replicate, get_or-replicate,
}
use gecko_os.Keyboard.{Keyboard}
use gecko_os.Editor.{Editor}
use gecko_os.Editor.Lines.{ed_redraw, ed_count_lines, count_newlines, ed_offset_to_line}
use gecko_os.Editor.Files.{Entry, Drive, find_entry, same_name, to_upper, ed_load}
use gecko_os.Editor.Events.{
  editing, confirming, quit, Session, Key, arrow_key, plain_key, moved_or_plain, editing_key,
  in_mode, session_key, run_keys, begin_editor,
}
use gecko_os.Editor.Bounds.{IsEditor}
use gecko_os.Editor.Load.{text}
use gecko_os.Editor.Start.{IsOpen, redrawn, ed_load-text, begin_editor-IsOpen}
use gecko_os.Editor.Session.{run_keys-IsOpen}
use gecko_os.Editor.Quit.{IsCtrlQ, session_key-quits}
use gecko_os.Editor.Columns.{IsNext, downward, vertical, LandsOn, vertical-LandsOn}
use gecko_os.Editor.Names.{same_name_iff}
use gecko_os.Editor.Zipper.{Command, insert, backspace, left, right, view}
use gecko_os.Editor.Refines.{edit_all, zip_all, edit_all-view}

abbrev blank : Editor
blank = record {
  buf = replicate 4096 0;
  len = 0;
  cur = 0;
  view_row = 0;
  filename = b'A' ∷ [];
  dirty = false;
}

blank-IsEditor : IsEditor blank
blank-IsEditor = record {
  size = length-replicate {A = ℕ} 4096 0;
  room = omega arith;
  inside = omega arith;
  ended = get_or-replicate 4096 0 0 0 (omega arith);
}

abbrev typing : List Command
typing = insert b'a' ∷ insert b'b' ∷ left ∷ insert b'c' ∷ backspace ∷ right ∷ []

edit_all-view_example : view (edit_all typing blank) ≡ zip_all typing (view blank)
edit_all-view_example = edit_all-view typing blank blank-IsEditor

abbrev keyboard : Keyboard
keyboard = record {
  key_state = record {
    shift_l = false;
    shift_r = false;
    alt_l = false;
    alt_r = false;
    ctrl_l = false;
    ctrl_r = false;
    caps_lock = false;
  };
  sc_ascii = λ sc. b'a';
  sc_ascii_upper = λ sc. b'A';
  kb_ready = true;
  last_scancode = 0;
}

abbrev key : ℕ → Key
key sc = record { sc = sc; keyboard = keyboard }

abbrev session : Session
session = record { mode = editing; ctrl_held = false; editor = ed_redraw blank }

abbrev some_keys : List Key
some_keys = key 0x1E ∷ key 0x1C ∷ key 0x60 ∷ key 0x0E ∷ key 0x1D ∷ key 0x1F ∷ key 0x10 ∷ []

run_keys-IsOpen_example : IsOpen (run_keys none some_keys session)
run_keys-IsOpen_example = run_keys-IsOpen none some_keys session (redrawn blank blank-IsEditor)

abbrev held : Session
held = record { mode = editing; ctrl_held = true; editor = blank }

runs : editing ≢ quit
runs h = cc

quits : (session_key none (key 0x10) held).mode ≡ quit
unfolding in_mode editing_key arrow_key moved_or_plain plain_key
quits = refl

session_key-quits_example : IsCtrlQ (key 0x10) held × ((false ≡ false) ⊎ (editing ≡ confirming))
session_key-quits_example = session_key-quits none (key 0x10) held runs quits

begin_editor-IsOpen_example :
    (s : Session) × (begin_editor none (b'A' ∷ []) blank ≡ some s) × IsOpen s
begin_editor-IsOpen_example =
    begin_editor-IsOpen none (b'A' ∷ []) blank (length-replicate {A = ℕ} 4096 0)

abbrev contents : List ℕ
contents = b'h' ∷ b'i' ∷ []

abbrev entry : Entry
entry = record {
  is_file = true;
  name = b'a' ∷ [];
  read = λ offset. take 128 (drop offset contents);
}

abbrev drive : Drive
drive = record { entries = entry ∷ []; write = λ name bytes. true }

finds : find_entry blank.filename drive.entries ≡ some entry
unfolding find_entry same_name
finds = refl

ed_load-text_example :
    (e : Editor) × (ed_load (some drive) blank ≡ some e) × (text e ≡ take 4095 contents)
ed_load-text_example =
    ed_load-text drive entry contents blank (length-replicate {A = ℕ} 4096 0) finds (λ offset. refl)

same_name_iff_test :
    (same_name (b'a' ∷ []) (b'A' ∷ []) ≡ true)
    ↔ (map to_upper (b'a' ∷ []) ≡ map to_upper (b'A' ∷ []))
same_name_iff_test = same_name_iff (b'a' ∷ []) (b'A' ∷ [])

-- ab and c, the cursor behind ab
abbrev two_lines : Editor
two_lines = record {
  buf = b'a' ∷ b'b' ∷ 10 ∷ b'c' ∷ 0 ∷ [];
  len = 4;
  cur = 2;
  view_row = 0;
  filename = b'A' ∷ [];
  dirty = false;
}

two_lines-IsNext : IsNext downward two_lines 1
unfolding ed_offset_to_line ed_count_lines count_newlines
two_lines-IsNext = (refl, omega arith)

vertical-LandsOn_example : LandsOn 1 two_lines (vertical downward two_lines)
vertical-LandsOn_example = vertical-LandsOn downward two_lines 1 two_lines-IsNext
