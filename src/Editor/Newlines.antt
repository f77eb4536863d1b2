-- ===== src/Editor/Newlines.antt =====
-- The loops over lines, counted in newlines.
use gecko_os.Prelude.{
  ℕ, zero, suc, ◌+◌, ◌-◌, ◌≤◌, ◌<◌, ◌≡◌, ◌≢◌, refl, sym, ap, ◌∙◌, subst, Bool-cases, inl, inr, ◌⊎◌,
  true, false, List, arith, ltb, ◌==◌, if◌then◌else◌, ≢→==false, ltb→lt,
}
use gecko_os.Editor.{Editor, newline, at}
use gecko_os.Editor.Lines.{seek_line, count_newlines, ed_offset_to_col, line_rest}
use gecko_os.Prelude.Parts.{add_zero, add_suc, zero_add}

-- `p` is where a line starts.
abbrev pub Starts : ℕ → List ℕ → Type 0
Starts p buf = (p ≡ 0) ⊎ (at buf (p - 1) ≡ newline)

pub count_newlines-ge : (left lines i : ℕ) (buf : List ℕ) → lines ≤ count_newlines left lines i buf
unfolding count_newlines
count_newlines-ge zero lines i buf = omega arith
count_newlines-ge (suc left) lines i buf =
    ground
      (arith, count_newlines-ge left (if at buf i == newline then suc lines else lines) (suc i) buf)

pub count_newlines-add :
    (a b lines i : ℕ) (buf : List ℕ)
    → count_newlines (a + b) lines i buf
      ≡ count_newlines b (count_newlines a lines i buf) (i + a) buf
unfolding count_newlines
count_newlines-add zero b lines i buf = rw (zero_add b, add_zero i) refl
count_newlines-add (suc a) b lines i buf =
    let step : suc a + b ≡ suc (a + b) = omega arith in
    rw (step, add_suc i a)
      (count_newlines-add a b (if at buf i == newline then suc lines else lines) (suc i) buf)

-- With enough newlines to come, `seek_line` stops `k` bytes on, where the line `n` starts.
abbrev pub Sought : (left line n pos : ℕ) → List ℕ → Type 0
Sought left line n pos buf =
    (k : ℕ) × (seek_line left line n pos buf ≡ pos + k)
    × (k ≤ left)
    × (count_newlines k line pos buf ≡ n)
    × Starts (pos + k) buf

Starts-here : (pos : ℕ) (buf : List ℕ) → Starts pos buf → Starts (pos + 0) buf
Starts-here pos buf start = rw (add_zero pos) start

Starts-next :
    (line n pos : ℕ) (buf : List ℕ)
    → line < n
    → (if at buf pos == newline then suc line else line) ≡ n
    → Starts (suc pos) buf
Starts-next line n pos buf h e = elim (Bool-cases (at buf pos == newline)) [
  | inl yes_it ↦
      let back : suc pos - 1 ≡ pos = omega arith in
      let found : at buf pos ≡ newline = ground arith in inr (ap (at buf) back ∙ found)
  | inr no_it ↦ absurd (ground arith)
]

pub seek_line_lem :
    (left line n pos : ℕ) (buf : List ℕ)
    → line ≤ n
    → n ≤ count_newlines left line pos buf
    → (line ≡ n → Starts pos buf)
    → Sought left line n pos buf
unfolding seek_line count_newlines
seek_line_lem zero line n pos buf low high start =
    (0, sym (add_zero pos), omega arith, omega arith, Starts-here pos buf (start (omega arith)))
seek_line_lem (suc left) line n pos buf low high start =
    let line' = if at buf pos == newline then suc line else line in
    elim (Bool-cases (ltb line n)) [
      | inl more ↦
          let (k, found, fits, count, starts) =
            seek_line_lem left line' n (suc pos) buf (ground arith) high
              (Starts-next line n pos buf (ltb→lt line n more)) in
          let next : suc pos + k ≡ pos + suc k = omega arith in
          rw more (suc k, found ∙ next, omega arith, count, subst (λ p. Starts p buf) next starts)
      | inr there ↦
          let same : line ≡ n = ground arith in
          rw there (0, sym (add_zero pos), omega arith, same, Starts-here pos buf (start same))
    ]

-- The bytes of the rest of a line.
pub line_rest_lem :
    (left pos k : ℕ) (buf : List ℕ) → k < line_rest left pos buf → at buf (pos + k) ≢ newline
unfolding line_rest
line_rest_lem zero pos k buf h e = absurd (omega arith)
line_rest_lem (suc left) pos zero buf h e =
    let here : at buf pos ≡ newline = ap (at buf) (sym (add_zero pos)) ∙ e in absurd (ground arith)
line_rest_lem (suc left) pos (suc k) buf h e =
    line_rest_lem left (suc pos) k buf (ground arith) (ap (at buf) (sym (add_suc pos k)) ∙ e)

-- The rest of a line ends at a newline, or with the bytes.
pub line_rest_end :
    (left pos : ℕ) (buf : List ℕ)
    → (line_rest left pos buf ≡ left) ⊎ (at buf (pos + line_rest left pos buf) ≡ newline)
unfolding line_rest
line_rest_end zero pos buf = inl refl
line_rest_end (suc left) pos buf =
    let rest = line_rest left (suc pos) buf in
    elim (Bool-cases (at buf pos == newline)) [
      | inl stop ↦
          let here : at buf pos ≡ newline = ground arith in
          rw stop (inr (ap (at buf) (add_zero pos) ∙ here))
      | inr on ↦ rw on (elim (line_rest_end left (suc pos) buf) [
        | inl whole ↦ inl (ap suc whole)
        | inr found ↦ inr (ap (at buf) (add_suc pos rest) ∙ found)
      ])
    ]

pub count_newlines-same :
    (k lines i : ℕ) (buf : List ℕ)
    → ((j : ℕ) → j < k → at buf (i + j) ≢ newline)
    → count_newlines k lines i buf ≡ lines
unfolding count_newlines
count_newlines-same zero lines i buf plain = refl
count_newlines-same (suc k) lines i buf plain =
    let here : (at buf i == newline) ≡ false =
      ≢→==false (at buf i) newline (λ e. plain 0 (omega arith) (ap (at buf) (add_zero i) ∙ e)) in
    rw here (
      count_newlines-same k lines (suc i) buf
        λ j h e. plain (suc j) (omega arith) (ap (at buf) (add_suc i j) ∙ e))

pub ed_offset_to_col_lem :
    (p k : ℕ) (e : Editor)
    → Starts p e.buf
    → ((j : ℕ) → j < k → at e.buf (p + j) ≢ newline)
    → ed_offset_to_col (p + k) e ≡ k
unfolding ed_offset_to_col
ed_offset_to_col_lem zero zero e start plain = refl
ed_offset_to_col_lem (suc q) zero e (inl first) plain = absurd (omega arith)
ed_offset_to_col_lem (suc q) zero e (inr behind) plain =
    let here : suc q + 0 ≡ suc q = omega arith in
    let back : suc q - 1 ≡ q = omega arith in
    let test : (at e.buf q == newline) ≡ true =
      ap (λ c. c == newline) (ap (at e.buf) (sym back) ∙ behind) in
    rw (here, test) refl
ed_offset_to_col_lem p (suc k) e start plain =
    let here : p + suc k ≡ suc (p + k) = omega arith in
    let test : (at e.buf (p + k) == newline) ≡ false =
      ≢→==false (at e.buf (p + k)) newline (plain k (omega arith)) in
    rw (here, test) (ap suc (ed_offset_to_col_lem p k e start λ j h. plain j (omega arith)))

pub count_newlines-suc :
    (left lines i : ℕ) (buf : List ℕ)
    → count_newlines left (suc lines) i buf ≡ suc (count_newlines left lines i buf)
unfolding count_newlines
count_newlines-suc zero lines i buf = refl
count_newlines-suc (suc left) lines i buf = elim (Bool-cases (at buf i == newline)) [
  | inl yes_it ↦ rw yes_it (count_newlines-suc left (suc lines) (suc i) buf)
  | inr no_it ↦ rw no_it (count_newlines-suc left lines (suc i) buf)
]
