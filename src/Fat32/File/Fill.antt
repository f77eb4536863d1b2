-- ===== src/Fat32/File/Fill.antt =====
-- Filling the sectors of a new cluster.
use gecko_os.Prelude.{
  ℕ, zero, suc, ◌+◌, ◌*◌, ◌^◌, ◌≤◌, ◌<◌, ◌≡◌, ◌⊎◌, refl, sym, ap, ◌∙◌, inl, false, List, [], ◌∷◌,
  arith, length, take, drop, replicate, set, get_or, length-replicate, length-set, get_or-set_self,
  get_or-set_ne, ==-refl, ≢→==false,
}
use gecko_os.Prelude.Parts.{zero_add, add_zero, drop-drop}
use gecko_os.Fat32.{Drive, store, byte, u32}
use gecko_os.Fat32.Dir.{put_bytes}
use gecko_os.Fat32.File.{Filled, padded, fill_sectors}
use gecko_os.Fat32.Fat.Table.{write_sector-drive}

module _ {A : Type 0} (x : A) where
  pub get_or-drop : (n i : ℕ) (xs : List A) → get_or (drop n xs) i x ≡ get_or xs (n + i) x
  get_or-drop zero i xs = rw (zero_add i) refl
  get_or-drop (suc n) i [] = refl
  get_or-drop (suc n) i (y ∷ xs) =
      let place : suc n + i ≡ suc (n + i) = omega arith in rw place (get_or-drop n i xs)

  get_or-take : (n i : ℕ) (xs : List A) → i < n → get_or (take n xs) i x ≡ get_or xs i x
  get_or-take zero i xs less = absurd (omega arith)
  get_or-take (suc n) i [] less = refl
  get_or-take (suc n) zero (y ∷ xs) less = refl
  get_or-take (suc n) (suc i) (y ∷ xs) less = get_or-take n i xs (omega (arith, less))

length-take-≤ : (n : ℕ) (xs : List ℕ) → length (take n xs) ≤ n
length-take-≤ zero xs = omega arith
length-take-≤ (suc n) [] = omega arith
length-take-≤ (suc n) (x ∷ xs) = let rest = length-take-≤ n xs in omega arith

-- A byte before those that are put, and one of them or of the buffer's zeros behind them.
byte-put_bytes_before :
    (i k : ℕ) (bytes buf : List ℕ) → k < i → byte (put_bytes i bytes buf) k ≡ byte buf k
unfolding put_bytes
byte-put_bytes_before i k [] buf less = refl
byte-put_bytes_before i k (b ∷ bytes) buf less =
    byte-put_bytes_before (suc i) k bytes (set buf i b) (omega arith)
    ∙ get_or-set_ne buf i k b 0 (omega arith)

byte-put_bytes :
    (i k : ℕ) (bytes buf : List ℕ)
    → i + length bytes ≤ length buf
    → ((j : ℕ) → i ≤ j → byte buf j ≡ 0)
    → byte (put_bytes i bytes buf) (i + k) ≡ get_or bytes k 0
unfolding put_bytes
byte-put_bytes i k [] buf fits zeros = zeros (i + k) (omega arith)
byte-put_bytes i zero (b ∷ bytes) buf fits zeros =
    ap (byte (put_bytes (suc i) bytes (set buf i b))) (add_zero i)
    ∙ byte-put_bytes_before (suc i) i bytes (set buf i b) (omega arith)
    ∙ get_or-set_self buf i b 0 (omega (arith, fits))
byte-put_bytes i (suc k) (b ∷ bytes) buf fits zeros =
    let place : i + suc k ≡ suc i + k = omega arith in
    ap (byte (put_bytes (suc i) bytes (set buf i b))) place
    ∙ byte-put_bytes (suc i) k bytes (set buf i b) (omega (arith, fits, length-set buf i b))
        (λ j low. get_or-set_ne buf i j b 0 (omega (arith, low)) ∙ zeros j (omega (arith, low)))

zeros_lem : (n j : ℕ) → byte (replicate n 0) j ≡ 0
zeros_lem zero j = refl
zeros_lem (suc n) zero = refl
zeros_lem (suc n) (suc j) = zeros_lem n j

byte-padded : (i : ℕ) (content : List ℕ) → i < 512 → byte (padded content) i ≡ get_or content i 0
byte-padded i content less =
    ap (byte (padded content)) (sym (zero_add i))
    ∙ byte-put_bytes 0 i (take 512 content) (replicate 512 0)
        (omega (arith, length-take-≤ 512 content, length-replicate {A = ℕ} 512 0))
        (λ j low. zeros_lem 512 j)
    ∙ get_or-take 0 512 i content less

-- `left` sectors from `lba` on hold the content, one after another; the rest of the drive is as it was.
pub record IsFilled (left lba : ℕ) (content : List ℕ) (d : Drive) (part : Filled) : Type 0 where
  pub behind : part.content ≡ drop (512 * left) content
  pub unreadable : (k : ℕ) → part.drive.unreadable k ≡ d.unreadable k
  pub unwritable : (k : ℕ) → part.drive.unwritable k ≡ d.unwritable k
  pub inside :
      (s i : ℕ)
      → s < left
      → i < 512
      → byte (part.drive.sectors (lba + s)) i ≡ get_or content (512 * s + i) 0
  pub outside : (k : ℕ) → (k < lba) ⊎ (lba + left ≤ k) → part.drive.sectors k ≡ d.sectors k

-- The first sector, and those behind it.
filled_inside :
    (left lba : ℕ) (content : List ℕ) (d : Drive) (part : Filled)
    → IsFilled left (suc lba) (drop 512 content) (store lba (padded content) d) part
    → (s i : ℕ) → s < suc left
    → i < 512
    → byte (part.drive.sectors (lba + s)) i ≡ get_or content (512 * s + i) 0
filled_inside left lba content d part rest zero i less inner =
    let place : 512 * 0 + i ≡ i = omega arith in
    let first : part.drive.sectors lba ≡ padded content =
      rest.outside lba (inl (omega arith)) ∙ (rw (==-refl lba) refl) in
    rw (add_zero lba, first, place) (byte-padded i content inner)
filled_inside left lba content d part rest (suc s) i less inner =
    let place : lba + suc s ≡ suc lba + s = omega arith in
    rw place (
      rest.inside s i (omega (arith, less)) inner
      ∙ get_or-drop 0 512 (512 * s + i) content
      ∙ ap (λ k. get_or content k 0) (omega arith))

pub fill_sectors-IsFilled :
    (left lba : ℕ) (content : List ℕ) (d : Drive)
    → lba + left < 2 ^ 32
    → ((s : ℕ) → s < left → d.unwritable (lba + s) ≡ false)
    → IsFilled left lba content d (fill_sectors left lba content d)
unfolding fill_sectors
fill_sectors-IsFilled zero lba content d fits good = record {
  behind = refl;
  unreadable = λ k. refl;
  unwritable = λ k. refl;
  inside = λ s i less _. absurd (omega (arith, less));
  outside = λ k far. refl;
}
fill_sectors-IsFilled (suc left) lba content d fits good =
    let d' = store lba (padded content) d in
    let next : u32 (suc lba) ≡ suc lba = omega arith in
    let here : d.unwritable lba ≡ false =
      ap d.unwritable (sym (add_zero lba)) ∙ good 0 (omega arith) in
    let rest =
      fill_sectors-IsFilled left (suc lba) (drop 512 content) d' (omega (arith, fits))
        (λ s less. ap d.unwritable (omega arith) ∙ good (suc s) (omega (arith, less))) in
    rw (next, write_sector-drive lba (padded content) d here)
      (record {
        behind =
            rest.behind
            ∙ sym (drop-drop 512 (512 * left) content)
            ∙ ap (λ n. drop n content) (omega arith);
        unreadable = rest.unreadable;
        unwritable = rest.unwritable;
        inside =
            filled_inside left lba content d (fill_sectors left (suc lba) (drop 512 content) d')
              rest;
        outside = λ k far.
            rest.outside k (omega (arith, far))
            ∙ (rw (≢→==false k lba (λ e. omega (arith, e, far))) refl);
      })
