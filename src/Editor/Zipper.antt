-- ===== src/Editor/Zipper.antt =====
-- The editor as two lists: the bytes behind the cursor, the nearest first, and those ahead of it.
use gecko_os.Prelude.{
  ℕ, suc, ◌+◌, ◌-◌, ◌≤◌, ◌<◌, ◌≡◌, refl, ap, ◌∙◌, true, inl, List, [], ◌∷◌, arith, length, set, leb,
  if◌then◌else◌, get_or-set_self, get_or-set_ne,
}
use gecko_os.Editor.{Editor, at}
use gecko_os.Editor.Edit.{open_gap, close_gap, ed_insert, ed_backspace, ed_move_left, ed_move_right}
use gecko_os.Editor.Gap.{
  length-open_gap, open_gap_outside, open_gap_inside, close_gap_outside, close_gap_inside, slice,
  before, slice-eq, before-eq,
}
use gecko_os.Editor.Bounds.{IsEditor}

pub record Zipper : Type 0 where
  pub behind : List ℕ
  pub ahead : List ℕ

pub data Command : Type 0 where
  insert : (c : ℕ) → Command
  backspace left right : Command

-- What each command means for a text of at most 4095 bytes.
unfoldable pub zip : Command → Zipper → Zipper
zip (insert c) z =
    if leb 4095 (length z.behind + length z.ahead)
    then z
    else record { behind = c ∷ z.behind; ahead = z.ahead }
zip backspace z = elim z.behind [ [] ↦ z | b ∷ bs ↦ record { behind = bs; ahead = z.ahead } ]
zip left z = elim z.behind [ [] ↦ z | b ∷ bs ↦ record { behind = bs; ahead = b ∷ z.ahead } ]
zip right z = elim z.ahead [ [] ↦ z | a ∷ bs ↦ record { behind = a ∷ z.behind; ahead = bs } ]

unfoldable pub edit : Command → Editor → Editor
edit (insert c) e = ed_insert c e
edit backspace e = ed_backspace e
edit left e = ed_move_left e
edit right e = ed_move_right e

abbrev pub view : Editor → Zipper
view e = record { behind = before e.cur e.buf; ahead = slice e.cur (e.len - e.cur) e.buf }

abbrev pub zipper : (behind ahead : List ℕ) → Zipper
zipper behind ahead = record { behind = behind; ahead = ahead }

pub zipper-eq : {b c a d : List ℕ} → b ≡ c → a ≡ d → zipper b a ≡ zipper c d
zipper-eq e f = rw (e, f) refl

-- What `ed_insert` stores when there is room, and `ed_backspace` at the cursor `suc k`.
abbrev pub inserted : ℕ → Editor → Editor
inserted c e = record e {
  buf = set (set (open_gap e.cur (e.len - e.cur) e.buf) e.cur c) (suc e.len) 0;
  cur = suc e.cur;
  len = suc e.len;
  dirty = true;
}

abbrev pub deleted : ℕ → Editor → Editor
deleted k e = record e {
  buf = set (close_gap k (e.len - 1 - k) e.buf) (e.len - 1) 0;
  cur = k;
  len = e.len - 1;
  dirty = true;
}

module _ (c : ℕ) (e : Editor) (ok : IsEditor e) (free : e.len < 4095) where
  abbrev opened : List ℕ
  opened = open_gap e.cur (e.len - e.cur) e.buf

  length-opened : length opened ≡ 4096
  length-opened = length-open_gap e.cur (e.len - e.cur) e.buf ∙ ok.size

  inserted_behind : (j : ℕ) → j < e.cur → at (inserted c e).buf j ≡ at e.buf j
  inserted_behind j h =
      get_or-set_ne (set opened e.cur c) (suc e.len) j 0 0 (omega (arith, ok.inside))
      ∙ get_or-set_ne opened e.cur j c 0 (omega arith)
      ∙ open_gap_outside e.cur (e.len - e.cur) e.buf j (inl (omega arith))

  inserted_here : at (inserted c e).buf e.cur ≡ c
  inserted_here =
      get_or-set_ne (set opened e.cur c) (suc e.len) e.cur 0 0 (omega (arith, ok.inside))
      ∙ get_or-set_self opened e.cur c 0 (omega (arith, length-opened, ok.inside))

  inserted_ahead :
      (j : ℕ) → j < e.len - e.cur → at (inserted c e).buf (suc e.cur + j) ≡ at e.buf (e.cur + j)
  inserted_ahead j h =
      let next : suc e.cur + j ≡ e.cur + suc j = omega arith in
      get_or-set_ne (set opened e.cur c) (suc e.len) (suc e.cur + j) 0 0 (omega (arith, ok.inside))
      ∙ get_or-set_ne opened e.cur (suc e.cur + j) c 0 (omega arith)
      ∙ ap (at opened) next
      ∙ open_gap_inside e.cur (e.len - e.cur) e.buf j (omega (arith, ok.inside, ok.size)) h

  pub inserted-view :
      view (inserted c e) ≡ zipper (c ∷ before e.cur e.buf) (slice e.cur (e.len - e.cur) e.buf)
  inserted-view =
      let count : suc e.len - suc e.cur ≡ e.len - e.cur = omega arith in
      zipper-eq (rw (inserted_here, before-eq e.cur (inserted c e).buf e.buf inserted_behind) refl)
        (ap (λ n. slice (suc e.cur) n (inserted c e).buf) count
          ∙ slice-eq (suc e.cur) e.cur (e.len - e.cur) (inserted c e).buf e.buf inserted_ahead)

module _ (k : ℕ) (e : Editor) (ok : IsEditor e) (h : suc k ≤ e.len) where
  abbrev closed : List ℕ
  closed = close_gap k (e.len - 1 - k) e.buf

  deleted_behind : (j : ℕ) → j < k → at (deleted k e).buf j ≡ at e.buf j
  deleted_behind j less =
      get_or-set_ne closed (e.len - 1) j 0 0 (omega arith)
      ∙ close_gap_outside k (e.len - 1 - k) e.buf j (inl less)

  deleted_ahead : (j : ℕ) → j < e.len - suc k → at (deleted k e).buf (k + j) ≡ at e.buf (suc k + j)
  deleted_ahead j less =
      let next : k + suc j ≡ suc k + j = omega arith in
      get_or-set_ne closed (e.len - 1) (k + j) 0 0 (omega arith)
      ∙ close_gap_inside k (e.len - 1 - k) e.buf j (omega (arith, ok.size, ok.room)) (omega arith)
      ∙ ap (at e.buf) next

  pub deleted-view :
      view (deleted k e) ≡ zipper (before k e.buf) (slice (suc k) (e.len - suc k) e.buf)
  deleted-view =
      let count : e.len - 1 - k ≡ e.len - suc k = omega arith in
      zipper-eq (before-eq k (deleted k e).buf e.buf deleted_behind) (
        ap (λ n. slice k n (deleted k e).buf) count
        ∙ slice-eq k (suc k) (e.len - suc k) (deleted k e).buf e.buf deleted_ahead)
