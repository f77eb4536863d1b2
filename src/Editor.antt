-- ===== src/Editor.antt =====
-- kernel/editor/editor.c: the text editor. Drawing is left out, but for the row at which the view starts.
pub mod Edit
pub mod Lines
pub mod Files
pub mod Events
mod Gap
mod Bounds
mod Zipper
mod Refines
mod Newlines
mod Columns
mod Names
mod Load
mod Start
mod Session
mod Quit
mod Tests
use gecko_os.Prelude.{ℕ, Bool, List, get_or}

abbrev pub editor_max_filesize : ℕ
editor_max_filesize = 4096

-- `ED_ROWS`: the last of 25 rows is the status bar.
abbrev pub ed_rows : ℕ
ed_rows = 24

-- `'\n'`
abbrev pub newline : ℕ
newline = 10

-- `buf` is the whole array, of which `len` bytes are the text.
pub record Editor : Type 0 where
  pub buf : List ℕ
  pub len : ℕ
  pub cur : ℕ
  pub view_row : ℕ
  pub filename : List ℕ
  pub dirty : Bool

-- `ed_buf[i]`
abbrev pub at : List ℕ → ℕ → ℕ
at buf i = get_or buf i 0
