-- ===== src/Fat32/File/Readback.antt =====
-- The content of a new chain, read back.
use gecko_os.Prelude.{
  ℕ, zero, suc, ◌+◌, ◌-◌, ◌*◌, ◌/◌, ◌%◌, ◌^◌, ◌≤◌, ◌<◌, ◌≡◌, ◌≢◌, refl, sym, ap, ◌∙◌, subst, inr,
  min, true, false, some, List, [], ◌∷◌, arith, length, take, drop, get_or, ltb, leb, ◌==◌,
  ≢→==false,
}
use native.Mathlib.Nat.{suc-mul, mod-lt, div-add-mod', le-div_iff_mul-le}
use gecko_os.Prelude.Parts.{zero_add}
use gecko_os.Fat32.{Drive, Volume, cluster_bad, cluster_to_lba, cluster_size, read_sector, u32}
use gecko_os.Fat32.Fat.{fat32_next_cluster, is_cluster, Allocated}
use gecko_os.Fat32.File.{File, got, fat32_file_read, clusters_needed, fat32_write_cluster_chain}
use gecko_os.Fat32.File.Sectors.{stretch, stretch-ext}
use gecko_os.Fat32.File.Read.{cluster_at, IsFile, file_byte, fat32_file_read_lem}
use gecko_os.Fat32.File.Fill.{get_or-drop}
use gecko_os.Fat32.File.Chain.{IsVolume, first_sector, cluster_to_lba_lem, cluster-fits}
use gecko_os.Fat32.File.Stored.{IsHolding, all-IsHolding, chain_clusters_lem}

-- The elements of a list, and those behind the first `o`, as stretches.
stretch-take :
    (n : ℕ) (xs : List ℕ) → stretch (λ k. get_or xs k 0) 0 (min n (length xs)) ≡ take n xs
unfolding stretch
stretch-take zero xs = let none_left : min 0 (length xs) ≡ 0 = omega arith in rw none_left refl
stretch-take (suc n) [] = let none_left : min (suc n) 0 ≡ 0 = omega arith in rw none_left refl
stretch-take (suc n) (x ∷ xs) =
    let count : min (suc n) (suc (length xs)) ≡ suc (min n (length xs)) = omega arith in
    rw count (
      ap (λ t. x ∷ t)
        (stretch-ext (λ k. get_or (x ∷ xs) k 0) (λ k. get_or xs k 0) 1 0 (min n (length xs))
            (λ i less.
              let place : 1 + i ≡ suc i = omega arith in
              ap (λ k. get_or (x ∷ xs) k 0) place ∙ ap (λ k. get_or xs k 0) (sym (zero_add i)))
          ∙ stretch-take n xs))

length-drop : (o : ℕ) (xs : List ℕ) → length (drop o xs) ≡ length xs - o
length-drop zero xs = omega arith
length-drop (suc o) [] = omega arith
length-drop (suc o) (x ∷ xs) = length-drop o xs ∙ (omega arith)

stretch-slice :
    (o n : ℕ) (xs : List ℕ)
    → stretch (λ k. get_or xs k 0) o (min n (length xs - o)) ≡ take n (drop o xs)
stretch-slice o n xs =
    stretch-ext (λ k. get_or xs k 0) (λ k. get_or (drop o xs) k 0) o 0 (min n (length xs - o))
      (λ i less.
        ap (λ k. get_or xs (o + k) 0) (sym (zero_add i)) ∙ sym (get_or-drop 0 o (0 + i) xs))
    ∙ ap (λ m. stretch (λ k. get_or (drop o xs) k 0) 0 (min n m)) (sym (length-drop o xs))
    ∙ stretch-take n (drop o xs)

-- A cluster in which content lies is one of those needed.
needed :
    (q len size : ℕ)
    → 0 < size
    → size < 2 ^ 31
    → len < 2 ^ 31
    → q * size < len
    → q < clusters_needed len size
needed q len size pos small_size small less =
    let test : (len == 0) ≡ false = ≢→==false len 0 (λ z. omega (arith, z, less)) in
    let whole : (len + size - 1) % 2 ^ 64 ≡ len + size - 1 = omega arith in
    let room : suc q * size ≤ len + size - 1 = omega (arith, suc-mul q size) in
    rw (test, whole) ((le-div_iff_mul-le pos).1 room)

module _ (content : List ℕ) (v : Volume) (d : Drive) (ok : IsVolume v d)
    (small : length content < 2 ^ 31)
    (done : (fat32_write_cluster_chain content v d).cluster ≢ 0) where
  abbrev chain : Allocated
  chain = fat32_write_cluster_chain content v d

  abbrev new_file : File
  new_file = record { volume = v; file_size = length content; first_cluster = chain.cluster }

  size-sectors : cluster_size v ≡ 512 * v.bpb.sectors_per_cluster
  size-sectors = ap (λ b. b * v.bpb.sectors_per_cluster) ok.sector_bytes

  size_pos : 0 < cluster_size v
  size_pos = omega (arith, size-sectors, ok.some_sectors)

  holding :
      (q : ℕ)
      → q * cluster_size v < length content
      → IsHolding q chain.cluster content v chain.drive
  unfolding fat32_write_cluster_chain
  holding q less =
      let needs = clusters_needed (length content) (cluster_size v) in
      all-IsHolding needs q content v chain
        (chain_clusters_lem needs 0 0 content v d ok (inr refl) done).1
        (needed q (length content) (cluster_size v) size_pos
          (omega (arith, size-sectors, ok.few_sectors)) small less)

  volume_after : IsVolume v chain.drive
  unfolding fat32_write_cluster_chain
  volume_after =
      (chain_clusters_lem (clusters_needed (length content) (cluster_size v)) 0 0 content v d ok
        (inr refl) done).0.volume

  names :
      (q : ℕ)
      → q * cluster_size v < length content
      → is_cluster (cluster_at q chain.cluster v chain.drive) ≡ true
  names q less =
      let here = holding q less in
      let low : leb 2 (cluster_at q chain.cluster v chain.drive) ≡ true =
        ground (arith, here.low) in
      let high : ltb (cluster_at q chain.cluster v chain.drive) cluster_bad ≡ true =
        ground (arith, here.high, ok.clusters) in
      rw low high

  can_read :
      (q s : ℕ)
      → q * cluster_size v < length content
      → s < v.bpb.sectors_per_cluster
      → read_sector
          (u32 (cluster_to_lba (cluster_at q chain.cluster v chain.drive) v + s))
          chain.drive
        ≡ some
            (chain.drive.sectors (cluster_to_lba (cluster_at q chain.cluster v chain.drive) v + s))
  unfolding read_sector
  can_read q s less inner =
      let c = cluster_at q chain.cluster v chain.drive in
      let here = holding q less in
      let place = cluster_to_lba_lem v d ok c here.low here.high in
      let space = cluster-fits v d ok c here.low here.high in
      let whole : u32 (first_sector v c + s) ≡ first_sector v c + s =
        omega (arith, space, ok.fits) in
      let good =
        volume_after.readable (first_sector v c + s) (omega arith) (omega (arith, space)) in
      rw (place, whole, good) refl

  new_file-IsFile : IsFile new_file chain.drive
  new_file-IsFile = record {
    sector_bytes = ok.sector_bytes;
    some_sectors = ok.some_sectors;
    small = small;
    chain = names;
    readable = can_read;
  }

  new_file-byte :
      (k : ℕ) → k < length content → file_byte new_file chain.drive k ≡ get_or content k 0
  unfolding file_byte
  new_file-byte k less =
      let size = cluster_size v in
      let whole : k / size * size + k % size ≡ k = div-add-mod' k size in
      let inner : k % size < 512 * v.bpb.sectors_per_cluster =
        subst (λ n. k % size < n) size-sectors (mod-lt k size_pos) in
      let here = holding (k / size) (omega (arith, whole)) in
      let place =
        cluster_to_lba_lem v d ok (cluster_at (k / size) chain.cluster v chain.drive) here.low
          here.high in
      rw place (
        here.bytes (k % size) inner
        ∙ ap (λ n. get_or content (k / size * n + k % size) 0) (sym size-sectors)
        ∙ ap (λ n. get_or content n 0) whole)

-- Where the volume has two tables and its sectors can be read and written, the content has less than 2^31 bytes and
-- `fat32_write_cluster_chain` finds room for it, a file of that size on the new chain reads back as the content:
-- `fat32_file_read` gives the bytes from any offset, at most `len` of them. Rounds for one more are enough.
pub fat32_file_read-fat32_write_cluster_chain :
    (fuel offset len : ℕ) (content : List ℕ) (v : Volume) (d : Drive)
    → IsVolume v d
    → length content < 2 ^ 31
    → (fat32_write_cluster_chain content v d).cluster ≢ 0
    → len < fuel
    → fat32_file_read fuel offset len
        (record {
          volume = v;
          file_size = length content;
          first_cluster = (fat32_write_cluster_chain content v d).cluster;
        })
        (fat32_write_cluster_chain content v d).drive
      ≡ some (got (take len (drop offset content)))
fat32_file_read-fat32_write_cluster_chain fuel offset len content v d ok small done enough =
    let f = new_file content v d ok small done in
    let d' = (fat32_write_cluster_chain content v d).drive in
    let n = min len (length content - offset) in
    fat32_file_read_lem fuel offset len f d' (new_file-IsFile content v d ok small done) enough
    ∙ ap (λ b. some (got b))
        (stretch-ext (file_byte f d') (λ k. get_or content k 0) offset offset n
            (λ i less. new_file-byte content v d ok small done (offset + i) (omega (arith, less)))
          ∙ stretch-slice offset len content)

-- Where the volume has two tables and its sectors can be read and written and `fat32_write_cluster_chain` finds room,
-- it keeps the entry of every cluster `c` in use, and every sector `s` of its data.
pub fat32_write_cluster_chain-kept :
    (c s : ℕ) (content : List ℕ) (v : Volume) (d : Drive)
    → IsVolume v d
    → (fat32_write_cluster_chain content v d).cluster ≢ 0
    → 2 ≤ c
    → c < 128 * v.sectors_per_fat
    → fat32_next_cluster c v d ≢ 0
    → s < v.bpb.sectors_per_cluster
    → (fat32_next_cluster c v (fat32_write_cluster_chain content v d).drive
        ≡ fat32_next_cluster c v d)
      × ((fat32_write_cluster_chain content v d).drive.sectors (cluster_to_lba c v + s)
          ≡ d.sectors (cluster_to_lba c v + s))
unfolding fat32_write_cluster_chain
fat32_write_cluster_chain-kept c s content v d ok done low high used inner =
    let grown =
      (chain_clusters_lem (clusters_needed (length content) (cluster_size v)) 0 0 content v d ok
        (inr refl) done).0 in
    (
      grown.entry_kept c high used (λ z. omega (arith, z, low)),
      rw (cluster_to_lba_lem v d ok c low high) (grown.data_kept c s low high used inner),
    )
