-- ===== src/Editor/Load.antt =====
-- What `ed_load` leaves in the buffer.
use gecko_os.Prelude.{
  ℕ, zero, suc, ◌+◌, ◌-◌, ◌≤◌, ◌<◌, ◌≡◌, refl, sym, ap, ◌∙◌, subst, true, false, Bool-cases, inl,
  inr, some, List, [], ◌∷◌, ◌++◌, arith, length, set, take, drop, ltb, ◌==◌, length-set,
  length-append, get_or-set_self, get_or-set_ne, ltb→lt,
}
use gecko_os.Editor.{Editor, at}
use gecko_os.Editor.Files.{append_bytes, load_from}
use gecko_os.Editor.Gap.{slice, slice-eq, length-slice}
use gecko_os.Prelude.Parts.{
  zero_add, add_zero, add_suc, append-nil, append_assoc, take-nil, drop-drop, take_parts,
}

-- The bytes that the editor shows.
abbrev pub text : Editor → List ℕ
text e = slice 0 e.len e.buf

-- Documented behaviour of a file's `read`: at most 128 bytes of the file from `offset` on.
abbrev pub Reads : (contents : List ℕ) → (ℕ → List ℕ) → Type 0
Reads contents read = (offset : ℕ) → read offset ≡ take 128 (drop offset contents)

abbrev pub Fits : Editor → Type 0
Fits e = (length e.buf ≡ 4096) × (e.len ≤ 4095)

-- From `e` to `e'`, as much of `bytes` was added as fits.
pub record Added (e : Editor) (bytes : List ℕ) (e' : Editor) : Type 0 where
  pub fits : Fits e'
  pub kept : e'.cur ≡ e.cur
  pub text : text e' ≡ text e ++ take (4095 - e.len) bytes

slice_last : (i n : ℕ) (buf : List ℕ) → slice i (suc n) buf ≡ slice i n buf ++ (at buf (i + n) ∷ [])
slice_last i zero buf = rw (add_zero i) refl
slice_last i (suc n) buf = rw (add_suc i n) (ap (λ xs. at buf i ∷ xs) (slice_last (suc i) n buf))

unchanged :
    (bytes : List ℕ) (e : Editor) → Fits e → take (4095 - e.len) bytes ≡ [] → Added e bytes e
unchanged bytes e fits h = record {
  fits = fits;
  kept = refl;
  text = sym (ap (λ xs. text e ++ xs) h ∙ append-nil (text e));
}

append_bytes-Added : (bytes : List ℕ) (e : Editor) → Fits e → Added e bytes (append_bytes bytes e)
unfolding append_bytes
append_bytes-Added [] e fits = unchanged [] e fits (take-nil (4095 - e.len))
append_bytes-Added (b ∷ bytes) e fits = elim (Bool-cases (ltb e.len 4095)) [
  | inl room ↦
      let less = ltb→lt e.len 4095 room in
      let e1 : Editor = record e { buf = set e.buf e.len b; len = suc e.len } in
      let rest = append_bytes-Added bytes e1 (length-set e.buf e.len b ∙ fits.0, omega arith) in
      let count : 4095 - e.len ≡ suc (4095 - suc e.len) = omega arith in
      let shown : text e1 ≡ text e ++ (b ∷ []) = stored b e fits less in
      rw room (record {
        fits = rest.fits;
        kept = rest.kept;
        text =
            rest.text
            ∙ ap (λ xs. xs ++ take (4095 - suc e.len) bytes) shown
            ∙ append_assoc (text e) (b ∷ []) (take (4095 - suc e.len) bytes)
            ∙ ap (λ n. text e ++ take n (b ∷ bytes)) (sym count);
      })
  | inr full ↦
      let none_left : 4095 - e.len ≡ 0 = ground arith in
      rw full (unchanged (b ∷ bytes) e fits (ap (λ n. take n (b ∷ bytes)) none_left))
]
  where
    stored :
        (b : ℕ) (e : Editor)
        → Fits e
        → e.len < 4095
        → slice 0 (suc e.len) (set e.buf e.len b) ≡ slice 0 e.len e.buf ++ (b ∷ [])
    stored b e fits less =
        let here : at (set e.buf e.len b) (0 + e.len) ≡ b =
          ap (at (set e.buf e.len b)) (zero_add e.len)
          ∙ get_or-set_self e.buf e.len b 0 (omega (arith, fits.0)) in
        let below =
          slice-eq 0 0 e.len (set e.buf e.len b) e.buf
            λ j h. get_or-set_ne e.buf e.len (0 + j) b 0 (omega arith) in
        slice_last 0 e.len (set e.buf e.len b) ∙ rw (here, below) refl

grown :
    (bytes : List ℕ) (e e' : Editor)
    → Added e bytes e'
    → e'.len ≡ e.len + length (take (4095 - e.len) bytes)
grown bytes e e' added =
    let parts = length-append (text e) (take (4095 - e.len) bytes) in
    sym (length-slice 0 e'.len e'.buf)
    ∙ ap length added.text
    ∙ parts
    ∙ ap (λ n. n + length (take (4095 - e.len) bytes)) (length-slice 0 e.len e.buf)

take_some : (n : ℕ) (xs : List ℕ) → 0 < n → (length xs == 0) ≡ false → 0 < length (take n xs)
take_some zero xs h some_read = absurd (omega arith)
take_some (suc n) [] h some_read = absurd (ground arith)
take_some (suc n) (x ∷ xs) h some_read = omega arith

-- The loop of `ed_load` ends, whatever is read, and keeps to the buffer.
pub load_from-ends :
    (fuel : ℕ) (read : ℕ → List ℕ) (offset : ℕ) (e : Editor)
    → Fits e
    → 4095 - e.len < fuel
    → (e' : Editor) × (load_from fuel read offset e ≡ some e') × Fits e' × (e'.cur ≡ e.cur)
unfolding load_from
load_from-ends zero read offset e fits enough = absurd (omega arith)
load_from-ends (suc fuel) read offset e fits enough = elim (Bool-cases (ltb e.len 4095)) [
  | inr full ↦ rw full (e, refl, fits, refl)
  | inl room ↦ elim (Bool-cases (length (read offset) == 0)) [
    | inl over ↦ rw (room, over) (e, refl, fits, refl)
    | inr some_read ↦
        let e1 = append_bytes (read offset) e in
        let added = append_bytes-Added (read offset) e fits in
        let more = take_some (4095 - e.len) (read offset) (ground arith) some_read in
        let (e', ends, fits', kept) =
          load_from-ends fuel read (offset + length (read offset)) e1 added.fits
            (omega (arith, grown (read offset) e e1 added, more)) in
        rw (room, some_read) (e', ends, fits', kept ∙ added.kept)
  ]
]

take_nothing : (n : ℕ) (xs : List ℕ) → (length (take (suc n) xs) == 0) ≡ true → xs ≡ []
take_nothing n [] h = refl
take_nothing n (x ∷ xs) h = absurd (ground arith)

-- The text behind two parts of the file.
both_parts :
    (e e1 e' : Editor) (rest tmp : List ℕ)
    → tmp ≡ take 128 rest
    → Added e tmp e1
    → Added e1 (drop (length tmp) rest) e'
    → Added e rest e'
both_parts e e1 e' rest tmp block first second = record {
  fits = second.fits;
  kept = second.kept ∙ first.kept;
  text =
      let n = 4095 - e.len in
      let left : 4095 - e1.len ≡ n - length (take n tmp) = omega (arith, grown tmp e e1 first) in
      second.text
      ∙ ap (λ xs. xs ++ take (4095 - e1.len) (drop (length tmp) rest)) first.text
      ∙ append_assoc (text e) (take n tmp) (take (4095 - e1.len) (drop (length tmp) rest))
      ∙ ap (λ m. text e ++ (take n tmp ++ take m (drop (length tmp) rest))) left
      ∙ ap (λ b. text e ++ (take n b ++ take (n - length (take n b)) (drop (length b) rest))) block
      ∙ ap (λ xs. text e ++ xs) (take_parts n 128 rest);
}

pub load_from-Added :
    (fuel : ℕ) (read : ℕ → List ℕ) (contents : List ℕ)
    → Reads contents read
    → (offset : ℕ) (e : Editor) → Fits e
    → 4095 - e.len < fuel
    → (e' : Editor) × (load_from fuel read offset e ≡ some e') × Added e (drop offset contents) e'
unfolding load_from
load_from-Added zero read contents reads offset e fits enough = absurd (omega arith)
load_from-Added (suc fuel) read contents reads offset e fits enough =
    let rest = drop offset contents in
    elim (Bool-cases (ltb e.len 4095)) [
      | inr full ↦
          let none_left : 4095 - e.len ≡ 0 = ground arith in
          rw full (e, refl, unchanged rest e fits (ap (λ n. take n rest) none_left))
      | inl room ↦ elim (Bool-cases (length (read offset) == 0)) [
        | inl over ↦
            let empty : rest ≡ [] =
              take_nothing 127 rest (ap (λ b. length b == 0) (sym (reads offset)) ∙ over) in
            rw (room, over)
              (
                e,
                refl,
                unchanged rest e fits (ap (take (4095 - e.len)) empty ∙ take-nil (4095 - e.len)),
              )
        | inr some_read ↦
            let tmp = read offset in
            let e1 = append_bytes tmp e in
            let added = append_bytes-Added tmp e fits in
            let more = take_some (4095 - e.len) tmp (ground arith) some_read in
            let (e', ends, added') =
              load_from-Added fuel read contents reads (offset + length tmp) e1 added.fits
                (omega (arith, grown tmp e e1 added, more)) in
            let next : Added e1 (drop (length tmp) rest) e' =
              subst (λ xs. Added e1 xs e') (drop-drop offset (length tmp) contents) added' in
            rw (room, some_read) (e', ends, both_parts e e1 e' rest tmp (reads offset) added next)
      ]
    ]
