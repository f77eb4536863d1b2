-- ===== src/Editor/Refines.antt =====
-- The commands at the buffer are those at the zipper.
use gecko_os.Prelude.{
  ℕ, zero, suc, ◌+◌, ◌-◌, ◌≤◌, ◌<◌, ◌≡◌, refl, ap, ◌∙◌, true, false, Bool-cases, inl, inr, ◌⊎◌,
  List, [], ◌∷◌, arith, length, leb, ltb, ◌==◌, leb_false→lt,
}
use gecko_os.Editor.{Editor, at}
use gecko_os.Editor.Edit.{ed_insert, ed_backspace, ed_move_left, ed_move_right}
use gecko_os.Editor.Gap.{slice, length-slice, length-before}
use gecko_os.Editor.Bounds.{
  IsEditor, ed_insert-IsEditor, ed_backspace-IsEditor, ed_move_left-IsEditor,
  ed_move_right-IsEditor,
}
use gecko_os.Editor.Zipper.{
  Zipper, Command, insert, backspace, left, right, zip, edit, view, zipper-eq, inserted-view,
  deleted-view,
}

predecessor : (n : ℕ) → (n ≡ 0) ⊎ ((k : ℕ) × (n ≡ suc k))
predecessor zero = inl refl
predecessor (suc k) = inr (k, refl)

suc_nonzero : (k : ℕ) → (suc k == 0) ≡ false
suc_nonzero k = ground arith

suc_positive : (k : ℕ) → ltb 0 (suc k) ≡ true
suc_positive k = ground arith

suc_pred : (k : ℕ) → suc k - 1 ≡ k
suc_pred k = omega arith

view_size : (e : Editor) → e.cur ≤ e.len → length (view e).behind + length (view e).ahead ≡ e.len
view_size e h = omega (arith, length-before e.cur e.buf, length-slice e.cur (e.len - e.cur) e.buf)

insert_step : (c : ℕ) (e : Editor) → IsEditor e → view (ed_insert c e) ≡ zip (insert c) (view e)
unfolding ed_insert zip
insert_step c e ok = elim (Bool-cases (leb 4095 e.len)) [
  | inl full ↦ rw (view_size e ok.inside, full) refl
  | inr free ↦
      rw (view_size e ok.inside, free) (inserted-view c e ok (leb_false→lt 4095 e.len free))
]

backspace_step : (e : Editor) → IsEditor e → view (ed_backspace e) ≡ zip backspace (view e)
unfolding ed_backspace zip
backspace_step e ok = elim (predecessor e.cur) [
  | inl first ↦ rw first refl
  | inr (k, behind) ↦
      rw (behind, suc_nonzero k, suc_pred k) (deleted-view k e ok (omega (arith, ok.inside)))
]

-- The bytes from `k` on are the one at `k` and those behind it.
slice_next :
    (k n : ℕ) (buf : List ℕ)
    → k < n
    → slice k (n - k) buf ≡ at buf k ∷ slice (suc k) (n - suc k) buf
slice_next k n buf h = ap (λ m. slice k m buf) (count k n h)
  where
    count : (k n : ℕ) → k < n → n - k ≡ suc (n - suc k)
    count k n h = omega arith

left_step : (e : Editor) → IsEditor e → view (ed_move_left e) ≡ zip left (view e)
unfolding ed_move_left zip
left_step e ok = elim (predecessor e.cur) [
  | inl first ↦ rw first refl
  | inr (k, behind) ↦
      rw (behind, suc_positive k, suc_pred k)
        (zipper-eq refl (slice_next k e.len e.buf (omega (arith, ok.inside))))
]

right_step : (e : Editor) → IsEditor e → view (ed_move_right e) ≡ zip right (view e)
unfolding ed_move_right zip
right_step e ok = elim (Bool-cases (ltb e.cur e.len)) [
  | inl within ↦ rw (within, slice_next e.cur e.len e.buf (ground arith)) refl
  | inr last ↦ let none_left : e.len - e.cur ≡ 0 = ground arith in rw (last, none_left) refl
]

step : (cmd : Command) (e : Editor) → IsEditor e → view (edit cmd e) ≡ zip cmd (view e)
unfolding edit
step (insert c) e ok = insert_step c e ok
step backspace e ok = backspace_step e ok
step left e ok = left_step e ok
step right e ok = right_step e ok

step-IsEditor : (cmd : Command) (e : Editor) → IsEditor e → IsEditor (edit cmd e)
unfolding edit
step-IsEditor (insert c) e ok = ed_insert-IsEditor c e ok
step-IsEditor backspace e ok = ed_backspace-IsEditor e ok
step-IsEditor left e ok = ed_move_left-IsEditor e ok
step-IsEditor right e ok = ed_move_right-IsEditor e ok

abbrev pub edit_all : List Command → Editor → Editor
edit_all [] e = e
edit_all (cmd ∷ cmds) e = edit_all cmds (edit cmd e)

abbrev pub zip_all : List Command → Zipper → Zipper
zip_all [] z = z
zip_all (cmd ∷ cmds) z = zip_all cmds (zip cmd z)

-- In an editor whose text fits the buffer and whose cursor stands in the text, any sequence of insertions,
-- deletions and moves to the left or right does to the text before and behind the cursor what it does to the
-- two lists of a zipper that takes at most 4095 bytes.
pub edit_all-view :
    (cmds : List Command) (e : Editor) → IsEditor e → view (edit_all cmds e) ≡ zip_all cmds (view e)
edit_all-view [] e ok = refl
edit_all-view (cmd ∷ cmds) e ok =
    edit_all-view cmds (edit cmd e) (step-IsEditor cmd e ok) ∙ ap (zip_all cmds) (step cmd e ok)
