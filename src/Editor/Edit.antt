-- ===== src/Editor/Edit.antt =====
-- Inserting, deleting, and moving by one character.
use gecko_os.Prelude.{ℕ, zero, suc, ◌+◌, ◌-◌, true, List, set, leb, ltb, ◌==◌, if◌then◌else◌}
use gecko_os.Editor.{Editor, editor_max_filesize, at}

-- The loop that moves `n` bytes behind `cur` up by one, from the last.
unfoldable pub open_gap : (cur n : ℕ) → List ℕ → List ℕ
open_gap cur zero buf = buf
open_gap cur (suc n) buf = open_gap cur n (set buf (cur + suc n) (at buf (cur + n)))

unfoldable pub ed_insert : (c : ℕ) → Editor → Editor
ed_insert c e = if leb (editor_max_filesize - 1) e.len then e else record e {
  buf = set (set (open_gap e.cur (e.len - e.cur) e.buf) e.cur c) (suc e.len) 0;
  cur = suc e.cur;
  len = suc e.len;
  dirty = true;
}

-- The loop that moves the `n` bytes behind `i` down by one, from the first.
unfoldable pub close_gap : (i n : ℕ) → List ℕ → List ℕ
close_gap i zero buf = buf
close_gap i (suc n) buf = close_gap (suc i) n (set buf i (at buf (suc i)))

unfoldable pub ed_backspace : Editor → Editor
ed_backspace e =
    if e.cur == 0
    then e
    else let cur = e.cur - 1 in
      record e {
        buf = set (close_gap cur (e.len - 1 - cur) e.buf) (e.len - 1) 0;
        cur = cur;
        len = e.len - 1;
        dirty = true;
      }

unfoldable pub ed_move_left : Editor → Editor
ed_move_left e = if ltb 0 e.cur then record e { cur = e.cur - 1 } else e

unfoldable pub ed_move_right : Editor → Editor
ed_move_right e = if ltb e.cur e.len then record e { cur = suc e.cur } else e
