-- ===== src/Fat32/File/Read.antt =====
-- Reading a file gives the bytes that its chain holds.
use gecko_os.Prelude.{
  ℕ, zero, suc, ◌+◌, ◌-◌, ◌*◌, ◌/◌, ◌%◌, ◌^◌, ◌≤◌, ◌<◌, ◌≡◌, ◌⊎◌, refl, ap, ◌∙◌, min, Bool-cases,
  inl, inr, true, false, some, List, [], ◌++◌, arith, leb, ltb, ◌==◌,
}
use native.Mathlib.Nat.{
  mul-add-div_right, mul-add-mod_self_right, div-eq_of_lt, mod-eq_of_lt, div-add-mod', suc-mul,
  mul-le-mul_right, mod-lt,
}
use gecko_os.Prelude.Parts.{append-nil}
use gecko_os.Fat32.{Drive, Volume, cluster_bad, read_sector, u32, cluster_to_lba, cluster_size}
use gecko_os.Fat32.Fat.{fat32_next_cluster, is_cluster}
use gecko_os.Fat32.File.{
  File, skip_clusters, to_copy_of, copy_sectors, got, read_clusters, fat32_file_read,
}
use gecko_os.Fat32.File.Sectors.{
  stretch, length-stretch, stretch-ext, stretch_joined, sector_byte, Readable, copy_sectors_lem,
}

-- The cluster `n` steps on.
unfoldable pub cluster_at : (n cluster : ℕ) → Volume → Drive → ℕ
cluster_at zero cluster v d = cluster
cluster_at (suc n) cluster v d = cluster_at n (fat32_next_cluster cluster v d) v d

cluster_at-next :
    (n cluster : ℕ) (v : Volume) (d : Drive)
    → fat32_next_cluster (cluster_at n cluster v d) v d ≡ cluster_at (suc n) cluster v d
unfolding cluster_at
cluster_at-next zero cluster v d = refl
cluster_at-next (suc n) cluster v d = cluster_at-next n (fat32_next_cluster cluster v d) v d

skip_clusters_lem :
    (n cluster : ℕ) (v : Volume) (d : Drive)
    → ((j : ℕ) → j ≤ n → is_cluster (cluster_at j cluster v d) ≡ true)
    → skip_clusters n cluster v d ≡ some (cluster_at n cluster v d)
unfolding skip_clusters cluster_at
skip_clusters_lem zero cluster v d chain = refl
skip_clusters_lem (suc n) cluster v d chain =
    let names : is_cluster (fat32_next_cluster cluster v d) ≡ true = chain 1 (omega arith) in
    let below : leb cluster_bad (fat32_next_cluster cluster v d) ≡ false = ground arith in
    rw below (
      skip_clusters_lem n (fat32_next_cluster cluster v d) v d
        (λ j less. chain (suc j) (omega (arith, less))))

-- A file whose size its chain covers, in sectors that can be read, on a volume with sectors of 512 bytes.
pub record IsFile (f : File) (d : Drive) : Type 0 where
  pub sector_bytes : f.volume.bpb.bytes_per_sector ≡ 512
  pub some_sectors : 0 < f.volume.bpb.sectors_per_cluster
  pub small : f.file_size < 2 ^ 31
  pub chain :
      (q : ℕ)
      → q * cluster_size f.volume < f.file_size
      → is_cluster (cluster_at q f.first_cluster f.volume d) ≡ true
  pub readable :
      (q s : ℕ)
      → q * cluster_size f.volume < f.file_size
      → s < f.volume.bpb.sectors_per_cluster
      → read_sector (u32 (cluster_to_lba (cluster_at q f.first_cluster f.volume d) f.volume + s)) d
        ≡ some (d.sectors (cluster_to_lba (cluster_at q f.first_cluster f.volume d) f.volume + s))

-- The byte of a file, in the sector of the cluster where it lies.
unfoldable pub file_byte : File → Drive → (k : ℕ) → ℕ
file_byte f d k =
    let size = cluster_size f.volume in
    sector_byte (cluster_to_lba (cluster_at (k / size) f.first_cluster f.volume d) f.volume) d
      (k % size)

module _ (f : File) (d : Drive) (ok : IsFile f d) where
  abbrev size : ℕ
  size = cluster_size f.volume

  abbrev start : (q : ℕ) → ℕ
  start q = cluster_to_lba (cluster_at q f.first_cluster f.volume d) f.volume

  size-sectors : size ≡ 512 * f.volume.bpb.sectors_per_cluster
  size-sectors = ap (λ b. b * f.volume.bpb.sectors_per_cluster) ok.sector_bytes

  size_pos : 0 < size
  size_pos = omega (arith, size-sectors, ok.some_sectors)

  cluster_bytes :
      (q o n : ℕ)
      → o + n ≤ size
      → stretch (sector_byte (start q) d) o n ≡ stretch (file_byte f d) (q * size + o) n
  unfolding file_byte
  cluster_bytes q o n inside =
      stretch-ext (sector_byte (start q) d) (file_byte f d) o (q * size + o) n (λ i less.
        let low : o + i < size = omega arith in
        let place : q * size + o + i ≡ q * size + (o + i) = omega arith in
        let quot : (q * size + (o + i)) / size ≡ q =
          mul-add-div_right size_pos q (o + i)
          ∙ ap (λ t. q + t) (div-eq_of_lt low)
          ∙ (omega arith) in
        let rem : (q * size + (o + i)) % size ≡ o + i =
          mul-add-mod_self_right q size (o + i) ∙ mod-eq_of_lt low in
        rw (place, quot, rem) refl)

  cluster-Readable : (q o n : ℕ) → q * size < f.file_size → o + n ≤ size → Readable (start q) d o n
  cluster-Readable q o n inside less i low high =
      ok.readable q (i / 512) inside (omega (arith, size-sectors, low, high, less))

  to_copy_cases :
      (left room : ℕ)
      → left < 2 ^ 31
      → ((to_copy_of left room ≡ left) × (left ≤ room))
        ⊎ ((to_copy_of left room ≡ room) × (room < left))
  to_copy_cases left room small = elim (Bool-cases (ltb room left)) [
    | inl e ↦
        let more : room < left = ground arith in
        let test : ltb left (2 ^ 31) ≡ true = ground arith in rw (e, test) (inr (refl, more))
    | inr e ↦ let less : left ≤ room = ground arith in rw e (inl (refl, less))
  ]

  -- Where nothing is left, the loop ends.
  read_clusters-done :
      (fuel cluster o : ℕ) (bytes : List ℕ)
      → 0 < fuel
      → read_clusters fuel cluster o 0 bytes f.volume d ≡ some (got bytes)
  unfolding read_clusters
  read_clusters-done zero cluster o bytes enough = absurd (omega arith)
  read_clusters-done (suc fuel) cluster o bytes enough = refl

  -- A round copies what is left of the cluster, or of the bytes.
  round_copies :
      (q o n : ℕ)
      → q * size < f.file_size
      → o + n ≤ size
      → copy_sectors n (start q) o n [] d
        ≡ record { ok = true; bytes = stretch (file_byte f d) (q * size + o) n; offset = o + n }
  round_copies q o n inside less =
      copy_sectors_lem n (start q) o n [] d (omega arith) (cluster-Readable q o n inside less)
      ∙ (rw (cluster_bytes q o n less) refl)

  read_clusters_lem :
      (fuel q o left : ℕ) (bytes : List ℕ)
      → o < size
      → left < fuel
      → q * size + o + left ≤ f.file_size
      → read_clusters fuel (cluster_at q f.first_cluster f.volume d) o left bytes f.volume d
        ≡ some (got (bytes ++ stretch (file_byte f d) (q * size + o) left))
  unfolding read_clusters stretch
  read_clusters_lem zero q o left bytes inner enough inside = absurd (omega arith)
  read_clusters_lem (suc fuel) q o left bytes inner enough inside = elim (Bool-cases (left == 0)) [
    | inl e ↦ let none_left : left ≡ 0 = ground arith in rw (e, none_left, append-nil bytes) refl
    | inr e ↦
        let some_left : 0 < left = ground arith in
        let here : q * size < f.file_size = omega arith in
        let k = q * size + o in
        elim (to_copy_cases left (size - o) (omega (arith, ok.small))) [
          | inl (all, less) ↦
              let nothing : left - left ≡ 0 = omega arith in
              rw
                (
                  e,
                  all,
                  ok.chain q here,
                  round_copies q o left here (omega (arith, less)),
                  length-stretch (file_byte f d) k left,
                  nothing,
                )
                (read_clusters-done fuel _ _ (bytes ++ stretch (file_byte f d) k left)
                  (omega arith))
          | inr (room, more) ↦
              let n = size - o in
              let through : leb size (o + n) ≡ true = ground arith in
              let place : suc q * size + 0 ≡ k + n = omega (arith, suc-mul q size) in
              let rest =
                read_clusters_lem fuel (suc q) 0 (left - n) (bytes ++ stretch (file_byte f d) k n)
                  size_pos (omega arith) (omega (arith, place, more)) in
              rw
                (
                  e,
                  room,
                  ok.chain q here,
                  round_copies q o n here (omega arith),
                  length-stretch (file_byte f d) k n,
                  through,
                )
                (ap
                    (λ c.
                      read_clusters fuel c 0 (left - n) (bytes ++ stretch (file_byte f d) k n)
                        f.volume d)
                    (cluster_at-next q f.first_cluster f.volume d)
                  ∙ rest
                  ∙ ap
                      (λ p. some (
                        got (
                          (bytes ++ stretch (file_byte f d) k n)
                          ++ stretch (file_byte f d) p (left - n))))
                      place
                  ∙ ap (λ b. some (got b))
                      (stretch_joined (file_byte f d) k n left bytes (omega (arith, more))))
        ]
  ]

-- Where the chain of a file covers its size and its sectors can be read, `fat32_file_read` from any offset gives
-- the bytes of the file from there, at most `len` and up to the end of the file; rounds for one more than `len`
-- bytes are enough.
pub fat32_file_read_lem :
    (fuel offset len : ℕ) (f : File) (d : Drive)
    → IsFile f d
    → len < fuel
    → fat32_file_read fuel offset len f d
      ≡ some (got (stretch (file_byte f d) offset (min len (f.file_size - offset))))
unfolding fat32_file_read stretch
fat32_file_read_lem fuel offset len f d ok enough = elim (Bool-cases (leb f.file_size offset)) [
  | inl e ↦
      let none_left : min len (f.file_size - offset) ≡ 0 = ground arith in rw (e, none_left) refl
  | inr e ↦
      let size = cluster_size f.volume in
      let pos = size_pos f d ok in
      let inside : offset < f.file_size = ground arith in
      let whole : offset / size * size + offset % size ≡ offset = div-add-mod' offset size in
      let skip =
        skip_clusters_lem (offset / size) f.first_cluster f.volume d
          (λ j less. ok.chain j (omega (arith, mul-le-mul_right size less, whole, inside))) in
      rw (e, skip)
        (read_clusters_lem f d ok fuel (offset / size) (offset % size)
            (min len (f.file_size - offset)) [] (mod-lt offset pos) (omega arith)
            (omega (arith, whole))
          ∙ ap (λ p. some (got (stretch (file_byte f d) p (min len (f.file_size - offset))))) whole)
]
