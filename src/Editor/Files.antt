-- ===== src/Editor/Files.antt =====
-- Loading and saving. A drive is a parameter: its files, and whether a write returns 0.
use gecko_os.Prelude.{
  ℕ, zero, suc, ◌+◌, ◌-◌, Bool, true, false, ◌&&◌, Option, none, some, List, [], ◌∷◌, length, take,
  set, leb, ltb, ◌==◌, if◌then◌else◌,
}
use gecko_os.Editor.{Editor, editor_max_filesize}

-- `read offset` is what a call for 128 bytes at `offset` stores.
pub record Entry : Type 0 where
  pub is_file : Bool
  pub name : List ℕ
  pub read : (offset : ℕ) → List ℕ

pub record Drive : Type 0 where
  pub entries : List Entry
  pub write : (name text : List ℕ) → Bool

unfoldable pub ed_strcpy : (maxlen : ℕ) → List ℕ → List ℕ
ed_strcpy zero src = []
ed_strcpy (suc zero) src = []
ed_strcpy (suc (suc n)) [] = []
ed_strcpy (suc (suc n)) (c ∷ src) = c ∷ ed_strcpy (suc n) src

abbrev pub to_upper : ℕ → ℕ
to_upper c = if leb 97 c && leb c 122 then c - 32 else c

-- The loop that compares two names up to their ends.
unfoldable pub same_name : (a b : List ℕ) → Bool
same_name [] [] = true
same_name [] (y ∷ b) = false
same_name (x ∷ a) [] = false
same_name (x ∷ a) (y ∷ b) =
    let rest = same_name a b in if to_upper x == to_upper y then rest else false

-- The first file of that name.
unfoldable pub find_entry : (filename : List ℕ) → List Entry → Option Entry
find_entry filename [] = none
find_entry filename (entry ∷ entries) =
    let rest = find_entry filename entries in
    if entry.is_file && same_name entry.name filename then some entry else rest

-- The loop that stores the bytes of `tmp`.
unfoldable pub append_bytes : List ℕ → Editor → Editor
append_bytes [] e = e
append_bytes (b ∷ tmp) e =
    if ltb e.len (editor_max_filesize - 1)
    then append_bytes tmp (record e { buf = set e.buf e.len b; len = suc e.len })
    else e

-- The loop over the blocks of 128 bytes. `none` is the end of the fuel.
unfoldable pub load_from : (fuel : ℕ) → (read : ℕ → List ℕ) → (offset : ℕ) → Editor → Option Editor
load_from zero read offset e = none
load_from (suc fuel) read offset e =
    let tmp = read offset in
    let rest = load_from fuel read (offset + length tmp) (append_bytes tmp e) in
    if ltb e.len (editor_max_filesize - 1) then if length tmp == 0 then some e else rest else some e

abbrev pub terminated : Editor → Editor
terminated e = record e { buf = set e.buf e.len 0 }

abbrev pub behind_loop : Option Editor → Option Editor
behind_loop none = none
behind_loop (some e) = some (terminated e)

-- The file's text, or none of it. As many rounds as the buffer has bytes are enough.
unfoldable pub load_entry : Option Entry → Editor → Option Editor
load_entry none e = some e
load_entry (some entry) e = behind_loop (load_from editor_max_filesize entry.read 0 e)

unfoldable pub ed_load : Option Drive → Editor → Option Editor
ed_load none e = some (terminated (record e { len = 0 }))
ed_load (some fs) e =
    load_entry (find_entry e.filename fs.entries) (terminated (record e { len = 0 }))

unfoldable pub ed_save : Option Drive → Editor → Editor
ed_save none e = e
ed_save (some fs) e =
    if fs.write e.filename (take e.len e.buf) then record e { dirty = false } else e
