-- ===== src/Fat32/Dir.antt =====
-- Directories: their entries, the walk over them with a callback, the callbacks, and what an entry is written with.
pub mod Enumerate
use gecko_os.Prelude.{
  ℕ, zero, suc, ◌+◌, ◌*◌, ◌/◌, ◌%◌, ◌^◌, Bool, true, false, ◌&&◌, ◌||◌, not, Option, none, some,
  List, [], ◌∷◌, ◌++◌, set, bit_and, ◌==◌, if◌then◌else◌,
}
use gecko_os.Fat32.{
  Drive, Wrote, Volume, read_sector, write_sector, byte, half, word, u32, cluster_to_lba,
}
use gecko_os.Fat32.Fat.{fat32_next_cluster, is_cluster}
use gecko_os.Fat32.Names.{format_83_name}

-- `FAT32_DirEntry`
pub record DirEntry : Type 0 where
  pub name : List ℕ
  pub ext : List ℕ
  pub attributes : ℕ
  pub reserved : ℕ
  pub create_time_tenth : ℕ
  pub create_time : ℕ
  pub create_date : ℕ
  pub access_date : ℕ
  pub first_cluster_high : ℕ
  pub write_time : ℕ
  pub write_date : ℕ
  pub first_cluster_low : ℕ
  pub file_size : ℕ

-- `n` bytes of a buffer from `i` on.
unfoldable pub bytes_at : (i n : ℕ) → List ℕ → List ℕ
bytes_at i zero buf = []
bytes_at i (suc n) buf = byte buf i ∷ bytes_at (suc i) n buf

-- `memcpy` into a buffer at `i`.
unfoldable pub put_bytes : (i : ℕ) → (bytes buf : List ℕ) → List ℕ
put_bytes i [] buf = buf
put_bytes i (b ∷ bytes) buf = put_bytes (suc i) bytes (set buf i b)

-- An entry of 32 bytes in a sector.
unfoldable pub dir_entry_at : (index : ℕ) → List ℕ → DirEntry
dir_entry_at index buf =
    let i = index * 32 in
    record {
      name = bytes_at i 8 buf;
      ext = bytes_at (i + 8) 3 buf;
      attributes = byte buf (i + 11);
      reserved = byte buf (i + 12);
      create_time_tenth = byte buf (i + 13);
      create_time = half buf (i + 14);
      create_date = half buf (i + 16);
      access_date = half buf (i + 18);
      first_cluster_high = half buf (i + 20);
      write_time = half buf (i + 22);
      write_date = half buf (i + 24);
      first_cluster_low = half buf (i + 26);
      file_size = word buf (i + 28);
    }

abbrev pub half_bytes : ℕ → List ℕ
half_bytes v = v % 2 ^ 8 ∷ v / 2 ^ 8 % 2 ^ 8 ∷ []

abbrev pub word_bytes : ℕ → List ℕ
word_bytes v = v % 2 ^ 8 ∷ v / 2 ^ 8 % 2 ^ 8 ∷ v / 2 ^ 16 % 2 ^ 8 ∷ v / 2 ^ 24 % 2 ^ 8 ∷ []

unfoldable pub entry_bytes : DirEntry → List ℕ
entry_bytes e =
    e.name
    ++ e.ext
    ++ e.attributes ∷ e.reserved ∷ e.create_time_tenth ∷ half_bytes e.create_time
    ++ half_bytes e.create_date
    ++ half_bytes e.access_date
    ++ half_bytes e.first_cluster_high
    ++ half_bytes e.write_time
    ++ half_bytes e.write_date
    ++ half_bytes e.first_cluster_low
    ++ word_bytes e.file_size

abbrev pub dir_entry_cluster : DirEntry → ℕ
dir_entry_cluster e = e.first_cluster_high * 2 ^ 16 + e.first_cluster_low

-- What a callback returns, and its context behind the call.
pub record Visit (C : Type 0) : Type 0 where
  pub stop : Bool
  pub ctx : C

abbrev pub Callback : Type 0 → Type 0
Callback C = DirEntry → (lba index : ℕ) → C → Visit C

-- The loops over the entries of a sector, the sectors of a cluster, and the clusters of the directory, which ends
-- where a sector cannot be read. `none` is the end of the fuel.
module _ {C : Type 0} (cb : Callback C) where
  unfoldable pub visit_entries : (left index lba : ℕ) → List ℕ → C → Visit C
  visit_entries zero index lba buf ctx = record { stop = false; ctx = ctx }
  visit_entries (suc left) index lba buf ctx =
      let visit = cb (dir_entry_at index buf) lba index ctx in
      let rest = visit_entries left (suc index) lba buf visit.ctx in
      if visit.stop then visit else rest

  abbrev pub visit_sector : (lba : ℕ) → Option (List ℕ) → C → Visit C
  visit_sector lba none ctx = record { stop = true; ctx = ctx }
  visit_sector lba (some buf) ctx = visit_entries 16 0 lba buf ctx

  unfoldable pub visit_sectors : (left lba : ℕ) → Drive → C → Visit C
  visit_sectors zero lba d ctx = record { stop = false; ctx = ctx }
  visit_sectors (suc left) lba d ctx =
      let visit = visit_sector lba (read_sector lba d) ctx in
      let rest = visit_sectors left (u32 (suc lba)) d visit.ctx in
      if visit.stop then visit else rest

  unfoldable pub fat32_dir_iterate : (fuel cluster : ℕ) → Volume → Drive → C → Option C
  fat32_dir_iterate zero cluster v d ctx = none
  fat32_dir_iterate (suc fuel) cluster v d ctx =
      let visit = visit_sectors v.bpb.sectors_per_cluster (cluster_to_lba cluster v) d ctx in
      let rest = fat32_dir_iterate fuel (fat32_next_cluster cluster v d) v d visit.ctx in
      if is_cluster cluster then if visit.stop then some visit.ctx else rest else some ctx

-- `DirSearchCtx`
pub record DirSearchCtx : Type 0 where
  pub target8 : List ℕ
  pub target3 : List ℕ
  pub find_free : Bool
  pub find_match : Bool
  pub found : Bool
  pub found_lba : ℕ
  pub found_idx : ℕ
  pub result : DirEntry

abbrev pub entry_free : ℕ
entry_free = 0xE5

abbrev pub entry_end : ℕ
entry_end = 0

abbrev pub first_byte : DirEntry → ℕ
first_byte e = byte e.name 0

-- A volume's label or a part of a long name.
abbrev pub skipped : DirEntry → Bool
skipped e =
    first_byte e == entry_free || not (bit_and e.attributes 8 == 0) || bit_and e.attributes 15 == 15

unfoldable pub same_bytes : (xs ys : List ℕ) → Bool
same_bytes [] [] = true
same_bytes [] (y ∷ ys) = false
same_bytes (x ∷ xs) [] = false
same_bytes (x ∷ xs) (y ∷ ys) = let rest = same_bytes xs ys in if x == y then rest else false

abbrev pub matches : DirEntry → DirSearchCtx → Bool
matches e ctx = same_bytes e.name ctx.target8 && same_bytes e.ext ctx.target3

abbrev pub free_slot : DirEntry → Bool
free_slot e = first_byte e == entry_free || first_byte e == entry_end

unfoldable pub dir_search_cb : Callback DirSearchCtx
dir_search_cb e lba index ctx =
    let here = record ctx { found = true; found_lba = lba; found_idx = index } in
    if ctx.find_free
    then if free_slot e
      then record { stop = true; ctx = here }
      else record { stop = false; ctx = ctx }
    else if ctx.find_match
    then if first_byte e == entry_end
      then record { stop = true; ctx = ctx }
      else if skipped e
      then record { stop = false; ctx = ctx }
      else if matches e ctx
      then record { stop = true; ctx = record here { result = e } }
      else record { stop = false; ctx = ctx }
    else record { stop = false; ctx = ctx }

abbrev pub written_slot : (lba index : ℕ) → DirEntry → Option (List ℕ) → Drive → Wrote
written_slot lba index entry none d = record { ok = false; drive = d }
written_slot lba index entry (some tmp) d =
    write_sector lba (put_bytes (index * 32) (entry_bytes entry) tmp) d

unfoldable pub fat32_write_dir_entry : (lba index : ℕ) → DirEntry → Drive → Wrote
fat32_write_dir_entry lba index entry d = written_slot lba index entry (read_sector lba d) d

-- The entries of the root directory as the other parts of the kernel see them.
pub data FsEntry : Type 0 where
  directory : (name : List ℕ) → FsEntry
  file : (name : List ℕ) → (file_size cluster : ℕ) → FsEntry

unfoldable pub enum_count_cb : Callback ℕ
enum_count_cb e lba index count =
    if first_byte e == entry_end
    then record { stop = true; ctx = count }
    else if skipped e
    then record { stop = false; ctx = count }
    else record { stop = false; ctx = suc count }

abbrev pub fs_entry : DirEntry → FsEntry
fs_entry e =
    let name = format_83_name e.name e.ext in
    if bit_and e.attributes 16 == 0
    then file name e.file_size (dir_entry_cluster e)
    else directory name

unfoldable pub enum_fill_cb : Callback (List FsEntry)
enum_fill_cb e lba index entries =
    if first_byte e == entry_end
    then record { stop = true; ctx = entries }
    else if skipped e
    then record { stop = false; ctx = entries }
    else record { stop = false; ctx = entries ++ fs_entry e ∷ [] }

-- The first walk counts, and the second fills, if there is something to fill. The memory of the array
-- that it fills is in Mount, as `entries_in`.
abbrev pub filled_entries : (count : Option ℕ) → Option (List FsEntry) → Option (List FsEntry)
filled_entries none entries = none
filled_entries (some count) entries = if count == 0 then some [] else entries

unfoldable pub fat32_get_root_entries : (fuel : ℕ) → Volume → Drive → Option (List FsEntry)
fat32_get_root_entries fuel v d =
    filled_entries (fat32_dir_iterate enum_count_cb fuel v.root_cluster v d 0)
      (fat32_dir_iterate enum_fill_cb fuel v.root_cluster v d [])
