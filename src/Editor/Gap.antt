-- ===== src/Editor/Gap.antt =====
-- The bytes of the buffer behind the loops that open and close a gap, and slices of it.
use gecko_os.Prelude.{
  ℕ, zero, suc, ◌+◌, ◌≤◌, ◌<◌, ◌≡◌, refl, sym, ap, ◌∙◌, ◌⊎◌, inl, inr, List, [], ◌∷◌, arith, length,
  set, length-set, get_or-set_self, get_or-set_ne,
}
use gecko_os.Editor.{at}
use gecko_os.Editor.Edit.{open_gap, close_gap}

pub length-open_gap : (cur n : ℕ) (buf : List ℕ) → length (open_gap cur n buf) ≡ length buf
unfolding open_gap
length-open_gap cur zero buf = refl
length-open_gap cur (suc n) buf =
    length-open_gap cur n (set buf (cur + suc n) (at buf (cur + n)))
    ∙ length-set buf (cur + suc n) (at buf (cur + n))

pub open_gap_outside :
    (cur n : ℕ) (buf : List ℕ) (j : ℕ)
    → (j ≤ cur) ⊎ (cur + n < j)
    → at (open_gap cur n buf) j ≡ at buf j
unfolding open_gap
open_gap_outside cur zero buf j h = refl
open_gap_outside cur (suc n) buf j h =
    open_gap_outside cur n (set buf (cur + suc n) (at buf (cur + n))) j (omega arith)
    ∙ get_or-set_ne buf (cur + suc n) j (at buf (cur + n)) 0 (omega arith)

pub open_gap_inside :
    (cur n : ℕ) (buf : List ℕ) (j : ℕ)
    → cur + n < length buf
    → j < n
    → at (open_gap cur n buf) (cur + suc j) ≡ at buf (cur + j)
unfolding open_gap
open_gap_inside cur zero buf j room h = absurd (omega arith)
open_gap_inside cur (suc n) buf j room h =
    let v = at buf (cur + n) in
    let buf' = set buf (cur + suc n) v in
    elim (dec_lt j n) [
      | inl inner ↦
          open_gap_inside cur n buf' j (omega (arith, length-set buf (cur + suc n) v)) inner
          ∙ get_or-set_ne buf (cur + suc n) (cur + j) v 0 (omega arith)
      | inr top ↦
          let e : j ≡ n = omega arith in
          open_gap_outside cur n buf' (cur + suc j) (inr (omega arith))
          ∙ (rw e (get_or-set_self buf (cur + suc n) v 0 room))
    ]
  where
    dec_lt : (a b : ℕ) → (a < b) ⊎ (b ≤ a)
    dec_lt a b = ground arith

pub length-close_gap : (i n : ℕ) (buf : List ℕ) → length (close_gap i n buf) ≡ length buf
unfolding close_gap
length-close_gap i zero buf = refl
length-close_gap i (suc n) buf =
    length-close_gap (suc i) n (set buf i (at buf (suc i))) ∙ length-set buf i (at buf (suc i))

pub close_gap_outside :
    (i n : ℕ) (buf : List ℕ) (j : ℕ) → (j < i) ⊎ (i + n ≤ j) → at (close_gap i n buf) j ≡ at buf j
unfolding close_gap
close_gap_outside i zero buf j h = refl
close_gap_outside i (suc n) buf j h =
    close_gap_outside (suc i) n (set buf i (at buf (suc i))) j (omega arith)
    ∙ get_or-set_ne buf i j (at buf (suc i)) 0 (omega arith)

pub close_gap_inside :
    (i n : ℕ) (buf : List ℕ) (j : ℕ)
    → i + n < length buf
    → j < n
    → at (close_gap i n buf) (i + j) ≡ at buf (i + suc j)
unfolding close_gap
close_gap_inside i zero buf j room h = absurd (omega arith)
close_gap_inside i (suc n) buf zero room h =
    let here : i + 0 ≡ i = omega arith in
    let next : i + 1 ≡ suc i = omega arith in
    rw (here, next)
      (close_gap_outside (suc i) n (set buf i (at buf (suc i))) i (inl (omega arith))
        ∙ get_or-set_self buf i (at buf (suc i)) 0 (omega arith))
close_gap_inside i (suc n) buf (suc j) room h =
    let v = at buf (suc i) in
    let here : i + suc j ≡ suc i + j = omega arith in
    let next : i + suc (suc j) ≡ suc i + suc j = omega arith in
    rw (here, next)
      (close_gap_inside (suc i) n (set buf i v) j (omega (arith, length-set buf i v)) (omega arith)
        ∙ get_or-set_ne buf i (suc i + suc j) v 0 (omega arith))

-- `n` bytes from `i` on, and the bytes before `i`, the last one first.
abbrev pub slice : (i n : ℕ) → List ℕ → List ℕ
slice i zero buf = []
slice i (suc n) buf = at buf i ∷ slice (suc i) n buf

abbrev pub before : (i : ℕ) → List ℕ → List ℕ
before zero buf = []
before (suc i) buf = at buf i ∷ before i buf

pub slice-eq :
    (i k n : ℕ) (b c : List ℕ)
    → ((j : ℕ) → j < n → at b (i + j) ≡ at c (k + j))
    → slice i n b ≡ slice k n c
slice-eq i k zero b c h = refl
slice-eq i k (suc n) b c h =
    let step : (m j : ℕ) → suc m + j ≡ m + suc j = λ m j. omega arith in
    let rest =
      slice-eq (suc i) (suc k) n b c λ j less. rw (step i j, step k j) (h (suc j) (omega arith)) in
    let start : (m : ℕ) → m ≡ m + 0 = λ m. omega arith in
    rw (ap (at b) (start i) ∙ h 0 (omega arith) ∙ ap (at c) (sym (start k)), rest) refl

pub before-eq :
    (n : ℕ) (b c : List ℕ) → ((j : ℕ) → j < n → at b j ≡ at c j) → before n b ≡ before n c
before-eq zero b c h = refl
before-eq (suc n) b c h = rw (h n (omega arith), before-eq n b c (λ j less. h j (omega arith))) refl

pub length-slice : (i n : ℕ) (buf : List ℕ) → length (slice i n buf) ≡ n
length-slice i zero buf = refl
length-slice i (suc n) buf = ap suc (length-slice (suc i) n buf)

pub length-before : (n : ℕ) (buf : List ℕ) → length (before n buf) ≡ n
length-before zero buf = refl
length-before (suc n) buf = ap suc (length-before n buf)
