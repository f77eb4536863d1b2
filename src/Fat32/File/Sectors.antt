-- ===== src/Fat32/File/Sectors.antt =====
-- The loop over the sectors of a cluster: the bytes that it reads.
use gecko_os.Prelude.{
  ℕ, zero, suc, ◌+◌, ◌-◌, ◌/◌, ◌%◌, ◌≤◌, ◌<◌, ◌≡◌, refl, sym, ap, ◌∙◌, Bool-cases, inl, inr, true,
  some, List, [], ◌∷◌, ◌++◌, arith, length, ◌==◌,
}
use gecko_os.Prelude.Parts.{zero_add, add_zero, append-nil, append_assoc}
use gecko_os.Fat32.{Drive, read_sector, byte, u32}
use gecko_os.Fat32.Dir.{bytes_at}
use gecko_os.Fat32.File.{Copied, chunk_of, copy_sectors}

-- `n` values of a function, from `k` on.
unfoldable pub stretch : (ℕ → ℕ) → (k n : ℕ) → List ℕ
stretch f k zero = []
stretch f k (suc n) = f k ∷ stretch f (suc k) n

pub length-stretch : (f : ℕ → ℕ) (k n : ℕ) → length (stretch f k n) ≡ n
unfolding stretch
length-stretch f k zero = refl
length-stretch f k (suc n) = ap suc (length-stretch f (suc k) n)

pub stretch_append :
    (f : ℕ → ℕ) (k m n : ℕ) → stretch f k (m + n) ≡ stretch f k m ++ stretch f (k + m) n
unfolding stretch
stretch_append f k zero n = rw (zero_add n, add_zero k) refl
stretch_append f k (suc m) n =
    let count : suc m + n ≡ suc (m + n) = omega arith in
    let place : suc k + m ≡ k + suc m = omega arith in
    rw count (
      ap (λ t. f k ∷ t)
        (stretch_append f (suc k) m n ∙ ap (λ p. stretch f (suc k) m ++ stretch f p n) place))

pub stretch-ext :
    (f g : ℕ → ℕ) (k j n : ℕ)
    → ((i : ℕ) → i < n → f (k + i) ≡ g (j + i))
    → stretch f k n ≡ stretch g j n
unfolding stretch
stretch-ext f g k j zero same = refl
stretch-ext f g k j (suc n) same =
    let here : f k ≡ g j = ap f (sym (add_zero k)) ∙ same 0 (omega arith) ∙ ap g (add_zero j) in
    rw
      (
        here,
        stretch-ext f g (suc k) (suc j) n
            (λ i less. ap f (omega arith) ∙ same (suc i) (omega arith) ∙ ap g (omega arith)),
      )
      refl

pub bytes_at-stretch : (i n : ℕ) (buf : List ℕ) → bytes_at i n buf ≡ stretch (byte buf) i n
unfolding bytes_at stretch
bytes_at-stretch i zero buf = refl
bytes_at-stretch i (suc n) buf = ap (λ t. byte buf i ∷ t) (bytes_at-stretch (suc i) n buf)

-- The byte at an offset from the start of a sector.
abbrev pub sector_byte : (lba : ℕ) → Drive → (offset : ℕ) → ℕ
sector_byte lba d o = byte (d.sectors (lba + o / 512)) (o % 512)

-- The sectors of the bytes from `o` on, `n` of them, can be read.
abbrev pub Readable : (lba : ℕ) → Drive → (o n : ℕ) → Type 0
Readable lba d o n =
    (i : ℕ)
    → o ≤ i
    → i < o + n
    → read_sector (u32 (lba + i / 512)) d ≡ some (d.sectors (lba + i / 512))

abbrev pub all_copied : (lba o n : ℕ) → (bytes : List ℕ) → Drive → Copied
all_copied lba o n bytes d = record {
  ok = true;
  bytes = bytes ++ stretch (sector_byte lba d) o n;
  offset = o + n;
}

nothing_copied :
    (lba o : ℕ) (bytes : List ℕ) (d : Drive)
    → record { ok = true; bytes = bytes; offset = o } ≡ all_copied lba o 0 bytes d
unfolding stretch
nothing_copied lba o bytes d = rw (add_zero o, append-nil bytes) refl

-- The bytes that a round takes from its sector.
chunk_bytes :
    (lba o n : ℕ) (d : Drive)
    → bytes_at (o % 512) (chunk_of o n) (d.sectors (lba + o / 512))
      ≡ stretch (sector_byte lba d) o (chunk_of o n)
chunk_bytes lba o n d =
    let buf = d.sectors (lba + o / 512) in
    bytes_at-stretch (o % 512) (chunk_of o n) buf
    ∙ stretch-ext (byte buf) (sector_byte lba d) (o % 512) o (chunk_of o n) (λ i less.
      let sector : (o + i) / 512 ≡ o / 512 = omega arith in
      let place : (o + i) % 512 ≡ o % 512 + i = omega arith in rw (sector, place) refl)

-- A stretch behind what was read before, and the rest behind both.
pub stretch_joined :
    (f : ℕ → ℕ) (k c n : ℕ) (bytes : List ℕ)
    → c ≤ n
    → (bytes ++ stretch f k c) ++ stretch f (k + c) (n - c) ≡ bytes ++ stretch f k n
stretch_joined f k c n bytes less =
    let whole : c + (n - c) ≡ n = omega arith in
    append_assoc bytes (stretch f k c) (stretch f (k + c) (n - c))
    ∙ ap (λ t. bytes ++ t) (sym (stretch_append f k c (n - c)) ∙ ap (stretch f k) whole)

joined :
    (lba o c n : ℕ) (bytes : List ℕ) (d : Drive)
    → c ≤ n
    → all_copied lba (o + c) (n - c) (bytes ++ stretch (sector_byte lba d) o c) d
      ≡ all_copied lba o n bytes d
joined lba o c n bytes d less =
    let end : o + c + (n - c) ≡ o + n = omega arith in
    rw (stretch_joined (sector_byte lba d) o c n bytes less, end) refl

pub copy_sectors_lem :
    (rounds lba o n : ℕ) (bytes : List ℕ) (d : Drive)
    → n ≤ rounds
    → Readable lba d o n
    → copy_sectors rounds lba o n bytes d ≡ all_copied lba o n bytes d
unfolding copy_sectors
copy_sectors_lem zero lba o n bytes d enough can =
    let none_left : n ≡ 0 = omega arith in rw none_left (nothing_copied lba o bytes d)
copy_sectors_lem (suc rounds) lba o n bytes d enough can = elim (Bool-cases (n == 0)) [
  | inl e ↦
      let none_left : n ≡ 0 = ground arith in
      rw e (nothing_copied lba o bytes d ∙ ap (λ k. all_copied lba o k bytes d) (sym none_left))
  | inr e ↦
      let some_left : 0 < n = ground arith in
      let c = chunk_of o n in
      let rest =
        copy_sectors_lem rounds lba (o + c) (n - c) (bytes ++ stretch (sector_byte lba d) o c) d
          (omega arith) (λ i low high. can i (omega (arith, low)) (omega (arith, high))) in
      rw (e, can o (omega arith) (omega arith), chunk_bytes lba o n d)
        (rest ∙ joined lba o c n bytes d (omega arith))
]
