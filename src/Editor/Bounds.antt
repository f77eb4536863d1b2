-- ===== src/Editor/Bounds.antt =====
-- The text fits the buffer, and the cursor stands in it.
use gecko_os.Prelude.{
  ℕ, zero, suc, ◌+◌, ◌-◌, ◌≤◌, ◌<◌, ◌≡◌, ◌∙◌, Bool-cases, inl, inr, List, arith, length, set, leb,
  ltb, ◌==◌, if◌then◌else◌, length-set, get_or-set_self, leb_false→lt,
}
use gecko_os.Editor.{Editor, at, newline, ed_rows, editor_max_filesize}
use gecko_os.Editor.Edit.{open_gap, close_gap, ed_insert, ed_backspace, ed_move_left, ed_move_right}
use gecko_os.Editor.Lines.{
  seek_line, ed_line_start, ed_count_lines, ed_offset_to_line, ed_offset_to_col, line_rest,
  ed_line_len, in_line, ed_move_up, ed_move_down, ed_redraw,
}
use gecko_os.Editor.Gap.{length-open_gap, length-close_gap}

-- The text ends with a zero behind it, within the 4096 bytes of the buffer.
pub record IsEditor (e : Editor) : Type 0 where
  pub size : length e.buf ≡ 4096
  pub room : e.len < 4096
  pub inside : e.cur ≤ e.len
  pub ended : at e.buf e.len ≡ 0

pub ed_insert-IsEditor : (c : ℕ) (e : Editor) → IsEditor e → IsEditor (ed_insert c e)
unfolding ed_insert
ed_insert-IsEditor c e ok = elim (Bool-cases (leb (editor_max_filesize - 1) e.len)) [
  | inl full ↦ rw full ok
  | inr free ↦
      let opened = open_gap e.cur (e.len - e.cur) e.buf in
      let size = length-open_gap e.cur (e.len - e.cur) e.buf in
      let put = length-set opened e.cur c in
      rw free (record {
        size = length-set (set opened e.cur c) (suc e.len) 0 ∙ put ∙ size ∙ ok.size;
        room = omega (arith, leb_false→lt 4095 e.len free);
        inside = omega (arith, ok.inside);
        ended =
            get_or-set_self (set opened e.cur c) (suc e.len) 0 0
              (omega (arith, put, size, ok.size, leb_false→lt 4095 e.len free));
      })
]

pub ed_backspace-IsEditor : (e : Editor) → IsEditor e → IsEditor (ed_backspace e)
unfolding ed_backspace
ed_backspace-IsEditor e ok = elim (Bool-cases (e.cur == 0)) [
  | inl first ↦ rw first ok
  | inr behind ↦
      let cur = e.cur - 1 in
      let closed = close_gap cur (e.len - 1 - cur) e.buf in
      let size = length-close_gap cur (e.len - 1 - cur) e.buf in
      rw behind (record {
        size = length-set closed (e.len - 1) 0 ∙ size ∙ ok.size;
        room = omega (arith, ok.room);
        inside = omega (arith, ok.inside);
        ended = get_or-set_self closed (e.len - 1) 0 0 (omega (arith, size, ok.size, ok.room));
      })
]

-- The cursor moves within the text.
moved-IsEditor :
    (cur : ℕ) (e : Editor) → IsEditor e → cur ≤ e.len → IsEditor (record e { cur = cur })
moved-IsEditor cur e ok h = record { size = ok.size; room = ok.room; inside = h; ended = ok.ended }

pub ed_move_left-IsEditor : (e : Editor) → IsEditor e → IsEditor (ed_move_left e)
unfolding ed_move_left
ed_move_left-IsEditor e ok = elim (Bool-cases (ltb 0 e.cur)) [
  | inl behind ↦ rw behind (moved-IsEditor (e.cur - 1) e ok (omega (arith, ok.inside)))
  | inr first ↦ rw first ok
]

pub ed_move_right-IsEditor : (e : Editor) → IsEditor e → IsEditor (ed_move_right e)
unfolding ed_move_right
ed_move_right-IsEditor e ok = elim (Bool-cases (ltb e.cur e.len)) [
  | inl within ↦ rw within (moved-IsEditor (suc e.cur) e ok (ground arith))
  | inr last ↦ rw last ok
]

pub seek_line-le : (left line n pos : ℕ) (buf : List ℕ) → seek_line left line n pos buf ≤ pos + left
unfolding seek_line
seek_line-le zero line n pos buf = omega arith
seek_line-le (suc left) line n pos buf =
    let found =
      seek_line-le left (if at buf pos == newline then suc line else line) n (suc pos) buf in
    elim (Bool-cases (ltb line n)) [
      | inl more ↦ rw more (omega (arith, found))
      | inr there ↦ rw there (omega arith)
    ]

pub line_rest-le : (left pos : ℕ) (buf : List ℕ) → line_rest left pos buf ≤ left
unfolding line_rest
line_rest-le zero pos buf = omega arith
line_rest-le (suc left) pos buf =
    let rest = line_rest-le left (suc pos) buf in
    elim (Bool-cases (at buf pos == newline)) [
      | inl over ↦ rw over (omega arith)
      | inr inner ↦ rw inner (omega (arith, rest))
    ]

pub in_line-IsEditor : (n : ℕ) (e : Editor) → IsEditor e → IsEditor (in_line n e)
unfolding ed_line_len ed_line_start
in_line-IsEditor n e ok =
    let start = seek_line e.len 0 n 0 e.buf in
    let bound = seek_line-le e.len 0 n 0 e.buf in
    let fits = line_rest-le (e.len - start) start e.buf in
    let len = line_rest (e.len - start) start e.buf in
    let col = ed_offset_to_col e.cur e in
    elim (Bool-cases (ltb len col)) [
      | inl long ↦ rw long (moved-IsEditor (start + len) e ok (omega (arith, bound, fits)))
      | inr short ↦ rw short (moved-IsEditor (start + col) e ok (ground (arith, bound, fits)))
    ]

pub ed_move_up-IsEditor : (e : Editor) → IsEditor e → IsEditor (ed_move_up e)
unfolding ed_move_up
ed_move_up-IsEditor e ok = elim (Bool-cases (ed_offset_to_line e.cur e == 0)) [
  | inl first ↦ rw first ok
  | inr below ↦ rw below (in_line-IsEditor (ed_offset_to_line e.cur e - 1) e ok)
]

pub ed_move_down-IsEditor : (e : Editor) → IsEditor e → IsEditor (ed_move_down e)
unfolding ed_move_down
ed_move_down-IsEditor e ok =
    elim (Bool-cases (leb (ed_count_lines e - 1) (ed_offset_to_line e.cur e))) [
      | inl last ↦ rw last ok
      | inr above ↦ rw above (in_line-IsEditor (suc (ed_offset_to_line e.cur e)) e ok)
    ]

-- The cursor's line is one of the 24 lines shown.
abbrev pub IsShown : Editor → Type 0
IsShown e =
    (e.view_row ≤ ed_offset_to_line e.cur e) × (ed_offset_to_line e.cur e < e.view_row + ed_rows)

pub ed_redraw-IsEditor : (e : Editor) → IsEditor e → IsEditor (ed_redraw e)
unfolding ed_redraw
ed_redraw-IsEditor e ok = record {
  size = ok.size;
  room = ok.room;
  inside = ok.inside;
  ended = ok.ended;
}

pub ed_redraw-IsShown : (e : Editor) → IsShown (ed_redraw e)
unfolding ed_redraw ed_offset_to_line
ed_redraw-IsShown e = (ground arith, ground arith)
