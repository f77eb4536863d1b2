-- ===== src/Fat32/Fat.antt =====
-- The table: the entry of a cluster, and the allocation and release of clusters.
pub mod Entries
pub mod Table
pub mod Free
pub mod Allocate
use gecko_os.Prelude.{
  ℕ, zero, suc, ◌+◌, ◌-◌, ◌*◌, ◌/◌, ◌%◌, ◌^◌, Bool, true, false, ◌&&◌, Option, none, some, List, [],
  ◌∷◌, leb, ltb, ◌==◌, if◌then◌else◌,
}
use gecko_os.Fat32.{
  Drive, Wrote, Volume, sector_size, cluster_bad, cluster_eoc, read_sector, write_sector, word,
  put_word, u32,
}

-- The sector and the offset in it of a cluster's entry.
abbrev pub fat_sector : (cluster : ℕ) → Volume → ℕ
fat_sector cluster v = u32 (v.fat_lba + u32 (cluster * 4) / sector_size)

abbrev pub byte_offset : (cluster : ℕ) → ℕ
byte_offset cluster = u32 (cluster * 4) % sector_size

-- `& FAT32_CLUSTER_MASK`
abbrev pub masked : ℕ → ℕ
masked entry = entry % 2 ^ 28

abbrev pub entry_of : (cluster : ℕ) → Option (List ℕ) → ℕ
entry_of cluster none = cluster_bad
entry_of cluster (some buf) = masked (word buf (byte_offset cluster))

unfoldable pub fat32_next_cluster : (cluster : ℕ) → Volume → Drive → ℕ
fat32_next_cluster cluster v d = entry_of cluster (read_sector (fat_sector cluster v) d)

-- The upper 4 bits of the entry are kept.
unfoldable pub put_entry : (offset value : ℕ) → List ℕ → List ℕ
put_entry i value buf = put_word i (word buf i / 2 ^ 28 * 2 ^ 28 + masked value) buf

-- A sector of the table is written, and then that of the second table if there is one.
abbrev pub mirror : (lba : ℕ) → List ℕ → Volume → Wrote → Wrote
mirror lba buf v w =
    if ltb 1 v.bpb.num_fats then write_sector (u32 (lba + v.sectors_per_fat)) buf w.drive else w

unfoldable pub write_tables : (lba : ℕ) → List ℕ → Volume → Drive → Wrote
write_tables lba buf v d =
    let first = write_sector lba buf d in if first.ok then mirror lba buf v first else first

abbrev pub written_entry : (cluster value : ℕ) → Option (List ℕ) → Volume → Drive → Wrote
written_entry cluster value none v d = record { ok = false; drive = d }
written_entry cluster value (some buf) v d =
    write_tables (fat_sector cluster v) (put_entry (byte_offset cluster) value buf) v d

unfoldable pub fat32_write_fat : (cluster value : ℕ) → Volume → Drive → Wrote
fat32_write_fat cluster value v d =
    written_entry cluster value (read_sector (fat_sector cluster v) d) v d

-- The first free entry among `left` entries of a sector, which starts with the cluster `base`.
unfoldable pub free_entry : (left e base : ℕ) → List ℕ → Option ℕ
free_entry zero e base buf = none
free_entry (suc left) e base buf =
    let rest = free_entry left (suc e) base buf in
    if leb 2 (base + e) && masked (word buf (e * 4)) == 0 then some e else rest

-- A cluster, 0 for none, and the drive.
pub record Allocated : Type 0 where
  pub cluster : ℕ
  pub drive : Drive

abbrev pub marked : (s e : ℕ) → List ℕ → Volume → Drive → Allocated
marked s e tmp v d =
    let buf = put_entry (e * 4) cluster_eoc tmp in
    let first = write_sector (u32 (v.fat_lba + s)) buf d in
    if first.ok
    then record { cluster = s * 128 + e; drive = (mirror (u32 (v.fat_lba + s)) buf v first).drive }
    else record { cluster = 0; drive = d }

-- The loop over the sectors of the table; a sector has 128 entries.
abbrev pub in_sector : (s : ℕ) → List ℕ → Option ℕ → Volume → Drive → Allocated → Allocated
in_sector s tmp none v d rest = rest
in_sector s tmp (some e) v d rest = marked s e tmp v d

abbrev pub sector_or : (s : ℕ) → Option (List ℕ) → Volume → Drive → Allocated → Allocated
sector_or s none v d rest = record { cluster = 0; drive = d }
sector_or s (some tmp) v d rest = in_sector s tmp (free_entry 128 0 (s * 128) tmp) v d rest

unfoldable pub alloc_from : (left s : ℕ) → Volume → Drive → Allocated
alloc_from zero s v d = record { cluster = 0; drive = d }
alloc_from (suc left) s v d =
    sector_or s (read_sector (u32 (v.fat_lba + s)) d) v d (alloc_from left (suc s) v d)

unfoldable pub fat32_alloc_cluster : Volume → Drive → Allocated
fat32_alloc_cluster v d = alloc_from v.sectors_per_fat 0 v d

abbrev pub is_cluster : ℕ → Bool
is_cluster cluster = leb 2 cluster && ltb cluster cluster_bad

-- `none` when the fuel is used up.
unfoldable pub fat32_free_cluster_chain : (fuel cluster : ℕ) → Volume → Drive → Option Drive
fat32_free_cluster_chain zero cluster v d = none
fat32_free_cluster_chain (suc fuel) cluster v d =
    let rest =
      fat32_free_cluster_chain fuel (fat32_next_cluster cluster v d) v
        (fat32_write_fat cluster 0 v d).drive in
    if is_cluster cluster then rest else some d
