-- ===== src/Editor/Start.antt =====
-- `ed_load` and the start of a session.
use gecko_os.Prelude.{
  ℕ, ◌+◌, ◌-◌, ◌≤◌, ◌≡◌, refl, ap, ◌∙◌, false, Option, none, some, Option-cases, inl, inr, List,
  ◌++◌, arith, length, set, take, length-set, get_or-set_self, get_or-set_ne,
}
use gecko_os.Editor.{Editor}
use gecko_os.Editor.Lines.{ed_redraw}
use gecko_os.Editor.Files.{
  Entry, Drive, ed_strcpy, load_entry, behind_loop, find_entry, ed_load, terminated,
}
use gecko_os.Editor.Events.{Session, editing, begin_editor, loaded}
use gecko_os.Editor.Gap.{slice-eq}
use gecko_os.Editor.Bounds.{IsEditor, IsShown, ed_redraw-IsEditor, ed_redraw-IsShown}
use gecko_os.Editor.Load.{text, Reads, Fits, load_from-ends, load_from-Added}

-- The editor with a zero behind its text.
terminated-IsEditor : (e : Editor) → Fits e → e.cur ≤ e.len → IsEditor (terminated e)
terminated-IsEditor e fits inside = record {
  size = length-set e.buf e.len 0 ∙ fits.0;
  room = omega (arith, fits.1);
  inside = inside;
  ended = get_or-set_self e.buf e.len 0 0 (omega (arith, fits.0, fits.1));
}

terminated-text : (e : Editor) → text (terminated e) ≡ text e
terminated-text e =
    slice-eq 0 0 e.len (set e.buf e.len 0) e.buf
      λ j h. get_or-set_ne e.buf e.len (0 + j) 0 0 (omega arith)

abbrev emptied : Editor → Editor
emptied e = terminated (record e { len = 0 })

emptied-Fits : (e : Editor) → length e.buf ≡ 4096 → Fits (emptied e)
emptied-Fits e size = (length-set e.buf 0 0 ∙ size, omega arith)

module _ (entry : Entry) (e : Editor) (fits : Fits e) (start : e.cur ≡ 0) where
  load_entry-ends : (e' : Editor) × (load_entry (some entry) e ≡ some e') × IsEditor e'
  unfolding load_entry
  load_entry-ends =
      let (e', ends, fits', kept) = load_from-ends 4096 entry.read 0 e fits (omega arith) in
      (
        terminated e',
        ap behind_loop ends,
        terminated-IsEditor e' fits' (omega (arith, kept, start)),
      )

load_entry-text :
    (entry : Entry) (contents : List ℕ) (e : Editor)
    → Fits e
    → e.len ≡ 0
    → Reads contents entry.read
    → (e' : Editor) × (load_entry (some entry) e ≡ some e') × (text e' ≡ take 4095 contents)
unfolding load_entry
load_entry-text entry contents e fits none_yet reads =
    let (e', ends, added) = load_from-Added 4096 entry.read contents reads 0 e fits (omega arith) in
    (terminated e', ap behind_loop ends, terminated-text e' ∙ shown e none_yet e' added.text)
  where
    shown :
        (e : Editor)
        → e.len ≡ 0
        → (e' : Editor) → text e' ≡ text e ++ take (4095 - e.len) contents
        → text e' ≡ take 4095 contents
    shown e none_yet e' h = h ∙ (rw none_yet refl)

-- Loading from the entries given ends in an editor whose text fits, whatever the file reads.
-- With no drive or no such file it is empty.
ed_load-ends :
    (fs : Option Drive) (e : Editor)
    → length e.buf ≡ 4096
    → e.cur ≡ 0
    → (e' : Editor) × (ed_load fs e ≡ some e') × IsEditor e'
unfolding ed_load load_entry
ed_load-ends none e size start =
    (emptied e, refl, terminated-IsEditor (record e { len = 0 }) (size, omega arith) (omega arith))
ed_load-ends (some fs) e size start = elim (Option-cases (find_entry e.filename fs.entries)) [
  | inl missing ↦ rw missing (
    emptied e,
    refl,
    terminated-IsEditor (record e { len = 0 }) (size, omega arith) (omega arith),
  )
  | inr (entry, found) ↦ rw found (load_entry-ends entry (emptied e) (emptied-Fits e size) start)
]

-- When `filename` is a file of the drive, whose `read` gives at most 128 bytes of `contents` from each offset,
-- loading it ends with the first 4095 bytes of `contents` as the text.
pub ed_load-text :
    (fs : Drive) (entry : Entry) (contents : List ℕ) (e : Editor)
    → length e.buf ≡ 4096
    → find_entry e.filename fs.entries ≡ some entry
    → Reads contents entry.read
    → (e' : Editor) × (ed_load (some fs) e ≡ some e') × (text e' ≡ take 4095 contents)
unfolding ed_load
ed_load-text fs entry contents e size found reads =
    rw found (load_entry-text entry contents (emptied e) (emptied-Fits e size) refl reads)

-- The editor is well formed, and shows the line of the cursor.
abbrev pub IsOpen : Session → Type 0
IsOpen s = IsEditor s.editor × IsShown s.editor

pub redrawn : (e : Editor) → IsEditor e → IsEditor (ed_redraw e) × IsShown (ed_redraw e)
redrawn e ok = (ed_redraw-IsEditor e ok, ed_redraw-IsShown e)

-- Over a buffer of 4096 bytes, and for the entries that `get_entries` of the drive has returned (with a drive or
-- without one): the loop that loads the file ends, whatever its `read` returns, with the text and a zero behind it in
-- the buffer, the cursor in the text, and its line on the screen.
pub begin_editor-IsOpen :
    (fs : Option Drive) (filename : List ℕ) (e : Editor)
    → length e.buf ≡ 4096
    → (s : Session) × (begin_editor fs filename e ≡ some s) × IsOpen s
unfolding begin_editor
begin_editor-IsOpen fs filename e size =
    let clean : Editor = record e {
      filename = ed_strcpy 32 filename;
      cur = 0;
      view_row = 0;
      dirty = false;
    } in
    let (e', ends, ok) = ed_load-ends fs clean size refl in
    (
      record { mode = editing; ctrl_held = false; editor = ed_redraw e' },
      ap loaded ends,
      redrawn e' ok,
    )
