-- ===== src/Fat32/File.antt =====
-- The content of a file: reading it, writing in it, and a new chain of clusters for it.
pub mod Sectors
pub mod Read
pub mod Fill
pub mod Chain
pub mod Round
pub mod Stored
pub mod Readback
mod Tests
use gecko_os.Prelude.{
  ℕ, zero, suc, ◌+◌, ◌-◌, ◌*◌, ◌/◌, ◌%◌, ◌^◌, min, Bool, true, false, ◌&&◌, ◌||◌, Option, none,
  some, List, [], ◌∷◌, ◌++◌, length, take, drop, replicate, leb, ltb, ◌==◌, if◌then◌else◌,
}
use gecko_os.Fat32.{
  Drive, Wrote, Volume, sector_size, cluster_bad, read_sector, write_sector, u32, cluster_to_lba,
  cluster_size,
}
use gecko_os.Fat32.Fat.{
  fat32_next_cluster, fat32_write_fat, is_cluster, Allocated, fat32_alloc_cluster,
}
use gecko_os.Fat32.Dir.{bytes_at, put_bytes}

-- What a `struct drive_file_t` of this file system holds.
pub record File : Type 0 where
  pub volume : Volume
  pub file_size : ℕ
  pub first_cluster : ℕ

-- The loop that goes to the cluster of the offset; `none` is the return inside it.
unfoldable pub skip_clusters : (left cluster : ℕ) → Volume → Drive → Option ℕ
skip_clusters zero cluster v d = some cluster
skip_clusters (suc left) cluster v d =
    let next = fat32_next_cluster cluster v d in
    let rest = skip_clusters left next v d in if leb cluster_bad next then none else rest

-- The bytes read, and the offset in the cluster behind them; `ok` unless a sector could not be read.
pub record Copied : Type 0 where
  pub ok : Bool
  pub bytes : List ℕ
  pub offset : ℕ

-- The loop over the sectors of a cluster, whose rounds take a byte at least.
abbrev pub chunk_of : (offset left : ℕ) → ℕ
chunk_of offset left = min left (sector_size - offset % sector_size)

abbrev pub copied :
    (offset to_copy : ℕ) → Option (List ℕ) → (bytes : List ℕ) → (rest : Copied) → Copied
copied offset to_copy none bytes rest = record { ok = false; bytes = bytes; offset = offset }
copied offset to_copy (some buf) bytes rest = rest

abbrev pub with_chunk : (offset chunk : ℕ) → Option (List ℕ) → (bytes : List ℕ) → List ℕ
with_chunk offset chunk none bytes = bytes
with_chunk offset chunk (some buf) bytes = bytes ++ bytes_at (offset % sector_size) chunk buf

unfoldable pub copy_sectors : (rounds lba offset to_copy : ℕ) → (bytes : List ℕ) → Drive → Copied
copy_sectors zero lba offset to_copy bytes d = record { ok = true; bytes = bytes; offset = offset }
copy_sectors (suc rounds) lba offset to_copy bytes d =
    let sector = read_sector (u32 (lba + offset / sector_size)) d in
    let chunk = chunk_of offset to_copy in
    let rest =
      copy_sectors rounds lba (offset + chunk) (to_copy - chunk)
        (with_chunk offset chunk sector bytes) d in
    if to_copy == 0
    then record { ok = true; bytes = bytes; offset = offset }
    else copied offset to_copy sector bytes rest

-- The number of bytes that was read, with the bytes, or -1.
pub data Reading : Type 0 where
  got : (bytes : List ℕ) → Reading
  failed : Reading

abbrev pub broken_off : List ℕ → Reading
broken_off [] = failed
broken_off (b ∷ bytes) = got (b ∷ bytes)

-- The comparison is one of signed integers.
abbrev pub to_copy_of : (left bytes_in_cluster : ℕ) → ℕ
to_copy_of left bytes_in_cluster =
    if ltb bytes_in_cluster left && ltb left (2 ^ 31) then bytes_in_cluster else left

-- The loop over the clusters; `none` is the end of the fuel.
unfoldable pub read_clusters :
    (fuel cluster offset left : ℕ) → (bytes : List ℕ) → Volume → Drive → Option Reading
read_clusters zero cluster offset left bytes v d = none
read_clusters (suc fuel) cluster offset left bytes v d =
    let to_copy = to_copy_of left (cluster_size v - offset) in
    let part = copy_sectors to_copy (cluster_to_lba cluster v) offset to_copy [] d in
    let through = leb (cluster_size v) part.offset in
    let rest =
      read_clusters fuel (if through then fat32_next_cluster cluster v d else cluster)
        (if through then 0 else part.offset) (left - length part.bytes) (bytes ++ part.bytes) v d in
    if left == 0
    then some (got bytes)
    else if is_cluster cluster
    then if part.ok then rest else some (broken_off (bytes ++ part.bytes))
    else some (got bytes)

abbrev pub read_from : (fuel : ℕ) → Option ℕ → (offset left : ℕ) → Volume → Drive → Option Reading
read_from fuel none offset left v d = some (got [])
read_from fuel (some cluster) offset left v d = read_clusters fuel cluster offset left [] v d

unfoldable pub fat32_file_read : (fuel offset len : ℕ) → File → Drive → Option Reading
fat32_file_read fuel offset len f d =
    let size = cluster_size f.volume in
    if leb f.file_size offset
    then some (got [])
    else read_from fuel (skip_clusters (offset / size) f.first_cluster f.volume d) (offset % size)
        (min len (f.file_size - offset)) f.volume d

-- What is left to write, and the drive.
pub record Filling : Type 0 where
  pub ok : Bool
  pub content : List ℕ
  pub drive : Drive

abbrev pub overwritten : (lba offset : ℕ) → (content : List ℕ) → Option (List ℕ) → Drive → Wrote
overwritten lba offset content none d = record { ok = false; drive = d }
overwritten lba offset content (some tmp) d =
    let chunk = chunk_of offset (length content) in
    write_sector lba (put_bytes (offset % sector_size) (take chunk content) tmp) d

-- The loop inside a cluster, whose rounds take a byte at least.
unfoldable pub write_sectors : (rounds lba offset size : ℕ) → (content : List ℕ) → Drive → Filling
write_sectors zero lba offset size content d = record { ok = true; content = content; drive = d }
write_sectors (suc rounds) lba offset size content d =
    let sector = u32 (lba + offset / sector_size) in
    let chunk = chunk_of offset (length content) in
    let written = overwritten sector offset content (read_sector sector d) d in
    let rest = write_sectors rounds lba (offset + chunk) size (drop chunk content) written.drive in
    if ltb 0 (length content) && ltb offset size
    then if written.ok
      then rest
      else record { ok = false; content = content; drive = written.drive }
    else record { ok = true; content = content; drive = d }

unfoldable pub write_clusters :
    (fuel cluster offset : ℕ) → (content : List ℕ) → Volume → Drive → Option Filling
write_clusters zero cluster offset content v d = none
write_clusters (suc fuel) cluster offset content v d =
    let part =
      write_sectors (length content) (cluster_to_lba cluster v) offset (cluster_size v) content d in
    let next = fat32_next_cluster cluster v part.drive in
    let rest =
      write_clusters fuel (if ltb 0 (length part.content) then next else cluster) 0 part.content v
        part.drive in
    let stay : Filling = record { ok = true; content = content; drive = d } in
    if length content == 0
    then some stay
    else if is_cluster cluster
    then if part.ok then rest else some part
    else some stay

abbrev pub write_from :
    (fuel : ℕ) → Option ℕ → (offset : ℕ) → (content : List ℕ) → Volume → Drive → Option Filling
write_from fuel none offset content v d = some (record { ok = true; content = content; drive = d })
write_from fuel (some cluster) offset content v d = write_clusters fuel cluster offset content v d

-- Returned is the number of bytes written.
pub record Written : Type 0 where
  pub bytes_written : ℕ
  pub drive : Drive

abbrev pub written_of : (len : ℕ) → Option Filling → Option Written
written_of len none = none
written_of len (some part) =
    some (record { bytes_written = len - length part.content; drive = part.drive })

-- The bytes are the `len` that the caller's buffer holds.
unfoldable pub fat32_file_write :
    (fuel offset : ℕ) → (bytes : List ℕ) → File → Drive → Option Written
fat32_file_write fuel offset bytes f d =
    let size = cluster_size f.volume in
    let len =
      if ltb f.file_size ((offset + length bytes) % 2 ^ 64)
      then f.file_size - offset
      else length bytes in
    let content = take len bytes in
    let start = skip_clusters (offset / size) f.first_cluster f.volume d in
    if leb f.file_size offset
    then some (record { bytes_written = 0; drive = d })
    else written_of (length content) (write_from fuel start (offset % size) content f.volume d)

-- The loop over the sectors of a new cluster: what is left of the content, and the drive. Whether a sector was written is not
-- looked at.
pub record Filled : Type 0 where
  pub content : List ℕ
  pub drive : Drive

abbrev pub padded : List ℕ → List ℕ
padded content = put_bytes 0 (take sector_size content) (replicate sector_size 0)

unfoldable pub fill_sectors : (left lba : ℕ) → (content : List ℕ) → Drive → Filled
fill_sectors zero lba content d = record { content = content; drive = d }
fill_sectors (suc left) lba content d =
    fill_sectors left (u32 (suc lba)) (drop sector_size content)
      (write_sector lba (padded content) d).drive

-- The cluster before points at the new one, if there is one before.
abbrev pub linked : (prev cluster : ℕ) → Volume → Drive → Drive
linked prev cluster v d = if prev == 0 then d else (fat32_write_fat prev cluster v d).drive

unfoldable pub chain_clusters :
    (left first prev : ℕ) → (content : List ℕ) → Volume → Drive → Allocated
chain_clusters zero first prev content v d = record { cluster = first; drive = d }
chain_clusters (suc left) first prev content v d =
    let new = fat32_alloc_cluster v d in
    let part =
      fill_sectors v.bpb.sectors_per_cluster (cluster_to_lba new.cluster v) content
        (linked prev new.cluster v new.drive) in
    let rest =
      chain_clusters left (if first == 0 then new.cluster else first) new.cluster part.content v
        part.drive in
    if new.cluster == 0 then record { cluster = 0; drive = new.drive } else rest

-- `size_t` has 64 bits.
abbrev pub clusters_needed : (len size : ℕ) → ℕ
clusters_needed len size = if len == 0 then 1 else (len + size - 1) % 2 ^ 64 / size

unfoldable pub fat32_write_cluster_chain : (content : List ℕ) → Volume → Drive → Allocated
fat32_write_cluster_chain content v d =
    chain_clusters (clusters_needed (length content) (cluster_size v)) 0 0 content v d
