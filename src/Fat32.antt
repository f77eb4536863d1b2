-- ===== src/Fat32.antt =====
-- kernel/fs/fat32.c: files on a FAT32 volume. A drive is a parameter: its sectors, and those that cannot be read or
-- written. Sectors and directory entries are lists of bytes, as the packed structures lie in memory.
pub mod Fat
pub mod Names
pub mod Dir
pub mod File
pub mod Files
pub mod Mount
mod Tests
use gecko_os.Prelude.{
  ℕ, zero, suc, ◌+◌, ◌-◌, ◌*◌, ◌/◌, ◌%◌, ◌^◌, Bool, true, false, Option, none, some, List, [], ◌∷◌,
  set, get_or, ◌==◌, if◌then◌else◌,
}

-- `ATA_SECTOR_SIZE`, the `sector_size` of every drive.
abbrev pub sector_size : ℕ
sector_size = 512

-- `FAT32_CLUSTER_BAD` and `FAT32_CLUSTER_EOC`; entries have 28 bits.
abbrev pub cluster_bad : ℕ
cluster_bad = 0x0FFF_FFF7

abbrev pub cluster_eoc : ℕ
cluster_eoc = 0x0FFF_FFF8

-- `struct kdrive_t`, with what its `read` and `write` do.
pub record Drive : Type 0 where
  pub sectors : ℕ → List ℕ
  pub unreadable : ℕ → Bool
  pub unwritable : ℕ → Bool

unfoldable pub read_sector : (lba : ℕ) → Drive → Option (List ℕ)
read_sector lba d = if d.unreadable lba then none else some (d.sectors lba)

-- Whether it was written, and the drive behind it.
pub record Wrote : Type 0 where
  pub ok : Bool
  pub drive : Drive

abbrev pub store : (lba : ℕ) → List ℕ → Drive → Drive
store lba buf d = record d { sectors = λ k. if k == lba then buf else d.sectors k }

unfoldable pub write_sector : (lba : ℕ) → List ℕ → Drive → Wrote
write_sector lba buf d =
    if d.unwritable lba
    then record { ok = false; drive = d }
    else record { ok = true; drive = store lba buf d }

-- `buf[i]`, and the little-endian integers in a buffer.
abbrev pub byte : List ℕ → ℕ → ℕ
byte buf i = get_or buf i 0

unfoldable pub half : List ℕ → (offset : ℕ) → ℕ
half buf i = byte buf i + 2 ^ 8 * byte buf (i + 1)

unfoldable pub word : List ℕ → (offset : ℕ) → ℕ
word buf i =
    byte buf i + 2 ^ 8 * byte buf (i + 1) + 2 ^ 16 * byte buf (i + 2) + 2 ^ 24 * byte buf (i + 3)

unfoldable pub put_word : (offset v : ℕ) → List ℕ → List ℕ
put_word i v buf =
    set (set (set (set buf i (v % 2 ^ 8)) (i + 1) (v / 2 ^ 8 % 2 ^ 8)) (i + 2) (v / 2 ^ 16 % 2 ^ 8))
      (i + 3) (v / 2 ^ 24 % 2 ^ 8)

-- The fields of `FAT32_BPB` that are used.
pub record Bpb : Type 0 where
  pub bytes_per_sector : ℕ
  pub sectors_per_cluster : ℕ
  pub reserved_sectors : ℕ
  pub num_fats : ℕ
  pub sectors_per_fat_16 : ℕ
  pub total_sectors_32 : ℕ
  pub sectors_per_fat_32 : ℕ
  pub root_cluster : ℕ

unfoldable pub bpb_of : List ℕ → Bpb
bpb_of buf = record {
  bytes_per_sector = half buf 11;
  sectors_per_cluster = byte buf 13;
  reserved_sectors = half buf 14;
  num_fats = byte buf 16;
  sectors_per_fat_16 = half buf 22;
  total_sectors_32 = word buf 32;
  sectors_per_fat_32 = word buf 36;
  root_cluster = word buf 44;
}

pub record Volume : Type 0 where
  pub bpb : Bpb
  pub partition_lba : ℕ
  pub fat_lba : ℕ
  pub data_lba : ℕ
  pub root_cluster : ℕ
  pub total_sectors : ℕ
  pub sectors_per_fat : ℕ

abbrev pub u32 : ℕ → ℕ
u32 n = n % 2 ^ 32

-- The volume of a valid boot sector.
unfoldable pub volume_of : (lba : ℕ) → Bpb → Volume
volume_of lba b =
    let fat_lba = u32 (lba + b.reserved_sectors) in
    record {
      bpb = b;
      partition_lba = lba;
      fat_lba = fat_lba;
      data_lba = u32 (fat_lba + b.num_fats * b.sectors_per_fat_32);
      root_cluster = b.root_cluster;
      total_sectors = b.total_sectors_32;
      sectors_per_fat = b.sectors_per_fat_32;
    }

abbrev pub checked : (lba : ℕ) → Bpb → Option Volume
checked lba b =
    if b.bytes_per_sector == 0
    then none
    else if b.sectors_per_cluster == 0
    then none
    else if b.sectors_per_fat_16 == 0
    then some (volume_of lba b)
    else none

abbrev pub mounted : (lba : ℕ) → Option (List ℕ) → Option Volume
mounted lba none = none
mounted lba (some buf) = checked lba (bpb_of buf)

unfoldable pub fat32_drive_open : (lba : ℕ) → Drive → Option Volume
fat32_drive_open lba d = mounted lba (read_sector lba d)

unfoldable pub cluster_to_lba : (cluster : ℕ) → Volume → ℕ
cluster_to_lba cluster v = u32 (v.data_lba + (cluster + 2 ^ 32 - 2) * v.bpb.sectors_per_cluster)

abbrev pub cluster_size : Volume → ℕ
cluster_size v = v.bpb.bytes_per_sector * v.bpb.sectors_per_cluster
