-- ===== src/Editor/Columns.antt =====
-- Where the moves between lines lead.
use gecko_os.Prelude.{
  ℕ, suc, ◌+◌, ◌-◌, ◌≤◌, ◌<◌, ◌≡◌, ◌≢◌, refl, sym, ap, ◌∙◌, subst, Bool-cases, inl, inr, false, ◌⊎◌,
  arith, min, leb, ltb, ◌==◌,
}
use gecko_os.Editor.{Editor, newline, at}
use gecko_os.Editor.Lines.{
  ed_line_start, count_newlines, ed_count_lines, ed_offset_to_line, ed_offset_to_col, ed_line_len,
  in_line, ed_move_up, ed_move_down,
}
use gecko_os.Editor.Bounds.{line_rest-le}
use gecko_os.Prelude.Parts.{zero_add}
use gecko_os.Editor.Newlines.{
  Starts, Sought, count_newlines-ge, count_newlines-add, seek_line_lem, line_rest_lem,
  count_newlines-same, ed_offset_to_col_lem, line_rest_end, count_newlines-suc,
}

-- The cursor `c` bytes into the line `n`.
abbrev placed : (n c : ℕ) → Editor → Editor
placed n c e = record e { cur = ed_line_start n e + c }

module _ (n c : ℕ) (e : Editor) (exists : n < ed_count_lines e) (fits : c ≤ ed_line_len n e) where
  sought : Sought e.len 0 n 0 e.buf
  unfolding ed_count_lines
  sought =
      seek_line_lem e.len 0 n 0 e.buf (omega arith)
        (omega (arith, count_newlines-suc e.len 0 0 e.buf)) (λ first. inl refl)

  start_eq : ed_line_start n e ≡ sought.0
  unfolding ed_line_start
  start_eq = sought.1 ∙ zero_add sought.0

  plain : (j : ℕ) → j < c → at e.buf (sought.0 + j) ≢ newline
  unfolding ed_line_len
  plain j h =
      subst (λ p. at e.buf (p + j) ≢ newline) start_eq
        (line_rest_lem (e.len - ed_line_start n e) (ed_line_start n e) j e.buf
          (omega (arith, fits)))

  inside : sought.0 + c ≤ e.len
  unfolding ed_line_len
  inside = omega (
    arith,
    sought.2,
    start_eq,
    fits,
    line_rest-le (e.len - ed_line_start n e) (ed_line_start n e) e.buf,
  )

  placed-line : ed_offset_to_line (placed n c e).cur (placed n c e) ≡ n
  unfolding ed_offset_to_line
  placed-line =
      let within : min (ed_line_start n e + c) e.len ≡ sought.0 + c =
        omega (arith, start_eq, inside) in
      rw within (
        count_newlines-add sought.0 c 0 0 e.buf
        ∙ ap (λ lines. count_newlines c lines (0 + sought.0) e.buf) sought.3
        ∙ ap (λ i. count_newlines c n i e.buf) (zero_add sought.0)
        ∙ count_newlines-same c n sought.0 e.buf plain)

  placed-col : ed_offset_to_col (placed n c e).cur (placed n c e) ≡ c
  placed-col =
      let starts : Starts sought.0 e.buf =
        subst (λ p. Starts p e.buf) (zero_add sought.0) sought.4 in
      ap (λ p. ed_offset_to_col (p + c) (placed n c e)) start_eq
      ∙ ed_offset_to_col_lem sought.0 c (placed n c e) starts plain

-- The `l` bytes from `p` on are the line `n` of the text: `n` newlines come before it, it starts the text
-- or stands behind a newline, it has none itself, and it ends at one or with the text.
pub record IsLine (n : ℕ) (e : Editor) (p l : ℕ) : Type 0 where
  pub counted : count_newlines p 0 0 e.buf ≡ n
  pub starts : Starts p e.buf
  pub plain : (j : ℕ) → j < l → at e.buf (p + j) ≢ newline
  pub inside : p + l ≤ e.len
  pub ends : (p + l ≡ e.len) ⊎ (at e.buf (p + l) ≡ newline)

-- The cursor of `e'` is in the line `n`, at the column of `e`'s or at the end of that line.
abbrev pub LandsOn : (n : ℕ) (e e' : Editor) → Type 0
LandsOn n e e' =
    (p : ℕ) × (l : ℕ) × IsLine n e p l
    × (e'.cur ≡ p + min (ed_offset_to_col e.cur e) l)
    × (ed_offset_to_line e'.cur e' ≡ n)
    × (ed_offset_to_col e'.cur e' ≡ min (ed_offset_to_col e.cur e) l)

ed_line_start-IsLine :
    (n : ℕ) (e : Editor) (exists : n < ed_count_lines e)
    → IsLine n e (ed_line_start n e) (ed_line_len n e)
unfolding ed_line_len
ed_line_start-IsLine n e exists =
    let l = ed_line_len n e in
    let s = sought n l e exists (omega arith) in
    let at_start = start_eq n l e exists (omega arith) in
    let inner = inside n l e exists (omega arith) in
    record {
      counted = rw at_start s.3;
      starts = subst (λ p. Starts p e.buf) (zero_add s.0 ∙ sym at_start) s.4;
      plain = λ j less. line_rest_lem (e.len - ed_line_start n e) (ed_line_start n e) j e.buf less;
      inside = omega (arith, at_start, inner);
      ends = elim (line_rest_end (e.len - ed_line_start n e) (ed_line_start n e) e.buf) [
        | inl whole ↦ inl (omega (arith, whole, at_start, inner))
        | inr found ↦ inr found
      ];
    }

in_line_lem : (n : ℕ) (e : Editor) → n < ed_count_lines e → LandsOn n e (in_line n e)
in_line_lem n e exists =
    let col = ed_offset_to_col e.cur e in
    let len = ed_line_len n e in
    elim (Bool-cases (ltb len col)) [
      | inl long ↦
          let cut : min col len ≡ len = ground arith in
          rw long (
            ed_line_start n e,
            len,
            ed_line_start-IsLine n e exists,
            ap (λ c. ed_line_start n e + c) (sym cut),
            placed-line n len e exists (omega arith),
            placed-col n len e exists (omega arith) ∙ sym cut,
          )
      | inr short ↦
          let whole : min col len ≡ col = ground arith in
          let fits : col ≤ len = ground arith in
          rw short (
            ed_line_start n e,
            len,
            ed_line_start-IsLine n e exists,
            ap (λ c. ed_line_start n e + c) (sym whole),
            placed-line n col e exists fits,
            placed-col n col e exists fits ∙ sym whole,
          )
    ]

line_exists : (e : Editor) → ed_offset_to_line e.cur e < ed_count_lines e
unfolding ed_offset_to_line ed_count_lines
line_exists e =
    let m = min e.cur e.len in
    let rest = e.len - m in
    let parts : m + rest ≡ e.len = omega arith in
    let counted =
      sym (ap (λ k. count_newlines k 0 0 e.buf) parts) ∙ count_newlines-add m rest 0 0 e.buf in
    omega (
      arith,
      counted,
      count_newlines-ge rest (count_newlines m 0 0 e.buf) (0 + m) e.buf,
      count_newlines-suc e.len 0 0 e.buf,
    )

-- The two moves, and the line they lead to when there is one.
pub data Direction : Type 0 where
  upward downward : Direction

abbrev pub vertical : Direction → Editor → Editor
vertical upward e = ed_move_up e
vertical downward e = ed_move_down e

abbrev pub IsNext : Direction → Editor → ℕ → Type 0
IsNext upward e n = suc n ≡ ed_offset_to_line e.cur e
IsNext downward e n = (n ≡ suc (ed_offset_to_line e.cur e)) × (n < ed_count_lines e)

-- When there is a line before the cursor's, `ed_move_up` leads to it, and when there is one behind it,
-- `ed_move_down` leads to that, each at the column of the cursor or, when the line is shorter, at its end:
-- at the newline behind the line, or at the end of the text.
pub vertical-LandsOn :
    (d : Direction) (e : Editor) (n : ℕ) → IsNext d e n → LandsOn n e (vertical d e)
unfolding ed_move_up ed_move_down
vertical-LandsOn upward e n next =
    let line = ed_offset_to_line e.cur e in
    let test : (line == 0) ≡ false = ground arith in
    let before : line - 1 ≡ n = omega arith in
    rw (test, before) (in_line_lem n e (omega (arith, line_exists e)))
vertical-LandsOn downward e n next =
    let line = ed_offset_to_line e.cur e in
    let test : leb (ed_count_lines e - 1) line ≡ false = ground arith in
    rw (test, sym next.0) (in_line_lem n e next.1)
