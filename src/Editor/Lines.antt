-- ===== src/Editor/Lines.antt =====
-- Lines and columns, moving by a line, and the part of `ed_redraw` that changes the state.
use gecko_os.Prelude.{ℕ, zero, suc, ◌+◌, ◌-◌, List, leb, ltb, ◌==◌, if◌then◌else◌, min}
use gecko_os.Editor.{Editor, ed_rows, newline, at}

-- The loop of `ed_line_start`, with `left` bytes from `pos` on.
unfoldable pub seek_line : (left : ℕ) → (line n pos : ℕ) → List ℕ → ℕ
seek_line zero line n pos buf = pos
seek_line (suc left) line n pos buf =
    let found = seek_line left (if at buf pos == newline then suc line else line) n (suc pos) buf in
    if ltb line n then found else pos

unfoldable pub ed_line_start : (n : ℕ) → Editor → ℕ
ed_line_start n e = seek_line e.len 0 n 0 e.buf

-- The newlines among `left` bytes from `i` on, added to `lines`.
unfoldable pub count_newlines : (left : ℕ) → (lines i : ℕ) → List ℕ → ℕ
count_newlines zero lines i buf = lines
count_newlines (suc left) lines i buf =
    count_newlines left (if at buf i == newline then suc lines else lines) (suc i) buf

unfoldable pub ed_count_lines : Editor → ℕ
ed_count_lines e = count_newlines e.len 1 0 e.buf

unfoldable pub ed_offset_to_line : (offset : ℕ) → Editor → ℕ
ed_offset_to_line offset e = count_newlines (min offset e.len) 0 0 e.buf

-- The loop of `ed_offset_to_col`, from the byte before `offset` down.
unfoldable pub ed_offset_to_col : (offset : ℕ) → Editor → ℕ
ed_offset_to_col zero e = 0
ed_offset_to_col (suc i) e =
    let col = ed_offset_to_col i e in if at e.buf i == newline then 0 else suc col

-- The loop of `ed_line_len`, with `left` bytes from `pos` on.
unfoldable pub line_rest : (left : ℕ) → (pos : ℕ) → List ℕ → ℕ
line_rest zero pos buf = 0
line_rest (suc left) pos buf =
    let rest = line_rest left (suc pos) buf in if at buf pos == newline then 0 else suc rest

unfoldable pub ed_line_len : (n : ℕ) → Editor → ℕ
ed_line_len n e = let start = ed_line_start n e in line_rest (e.len - start) start e.buf

-- The place in the line `n` at the cursor's column, or at the line's end.
abbrev pub in_line : (n : ℕ) → Editor → Editor
in_line n e =
    let col = ed_offset_to_col e.cur e in
    let len = ed_line_len n e in
    record e { cur = ed_line_start n e + (if ltb len col then len else col) }

unfoldable pub ed_move_up : Editor → Editor
ed_move_up e = let line = ed_offset_to_line e.cur e in if line == 0 then e else in_line (line - 1) e

unfoldable pub ed_move_down : Editor → Editor
ed_move_down e =
    let line = ed_offset_to_line e.cur e in
    if leb (ed_count_lines e - 1) line then e else in_line (suc line) e

-- `ed_view_row` follows the cursor.
unfoldable pub ed_redraw : Editor → Editor
ed_redraw e =
    let line = ed_offset_to_line e.cur e in
    let top = if ltb line e.view_row then line else e.view_row in
    record e { view_row = if leb (top + ed_rows) line then suc line - ed_rows else top }
