-- ===== src/Fat32/Mount.antt =====
-- kernel/fs/fs.c and kernel/drivers/drives.c: the registered drives, mounting one, and reading a whole file.
pub mod Whole
mod Tests
use gecko_os.Prelude.{
  ℕ, zero, suc, ◌+◌, ◌*◌, ◌≡◌, Bool, true, false, ◌&&◌, Option, none, some, List, [], ◌∷◌, ◌++◌,
  set, length, map, ◌==◌, if◌then◌else◌,
}
use gecko_os.Heap.{Heap, kmalloc}
use gecko_os.Fat32.{Drive, Volume, read_sector, byte, word, fat32_drive_open}
use gecko_os.Fat32.Dir.{FsEntry, fat32_get_root_entries}
use gecko_os.Fat32.File.{File, fat32_file_read}
use gecko_os.Fat32.Files.{find_file, more_bytes, or_nothing, appended_or}

pub data PartitionFs : Type 0 where
  fs_none : PartitionFs
  fs_fat12 : PartitionFs
  fs_fat16 : PartitionFs
  fs_fat32 : PartitionFs

pub record Partition : Type 0 where
  pub type : PartitionFs
  pub lba : ℕ
  pub size : ℕ

-- A registered drive, with its partition table; `mbr` unless the table is made up.
pub record Kdrive : Type 0 where
  pub device : Drive
  pub mbr : Bool
  pub partitions : List Partition

abbrev pub mbr_partition : (sector : List ℕ) → (i : ℕ) → Partition
mbr_partition sector i =
    let offset = 446 + i * 16 in
    record { type = fs_fat32; lba = word sector (offset + 8); size = word sector (offset + 12) }

-- What the buffer on the stack holds behind the read, which may fail.
abbrev pub read_or : (stack : List ℕ) → Option (List ℕ) → List ℕ
read_or stack none = stack
read_or stack (some buf) = buf

unfoldable pub load_parameters : (stack : List ℕ) → Drive → Kdrive
load_parameters stack d =
    let sector = read_or stack (read_sector 0 d) in
    if byte sector 510 == 0x55 && byte sector 511 == 0xAA
    then record {
      device = d;
      mbr = true;
      partitions = map (mbr_partition sector) (0 ∷ 1 ∷ 2 ∷ 3 ∷ []);
    }
    else record {
      device = d;
      mbr = false;
      partitions = record { type = fs_fat32; lba = 0; size = 0 } ∷ [];
    }

-- The first slot that is not in use; a drive for which there is none is dropped.
unfoldable pub register_kdrive :
    (stack : List ℕ) → Drive → List (Option Kdrive) → List (Option Kdrive)
register_kdrive stack d [] = []
register_kdrive stack d (none ∷ drives) = some (load_parameters stack d) ∷ drives
register_kdrive stack d (some used ∷ drives) = some used ∷ register_kdrive stack d drives

-- For an `i` below the number of slots; the source does not look.
unfoldable pub get_kdrive : (i : ℕ) → List (Option Kdrive) → Option Kdrive
get_kdrive i [] = none
get_kdrive zero (slot ∷ drives) = slot
get_kdrive (suc i) (slot ∷ drives) = get_kdrive i drives

unfoldable pub fs_partition_open : PartitionFs → (lba : ℕ) → Drive → Option Volume
fs_partition_open fs_fat32 lba d = fat32_drive_open lba d
fs_partition_open fs_none lba d = none
fs_partition_open fs_fat12 lba d = none
fs_partition_open fs_fat16 lba d = none

abbrev pub fs_drive_open : Drive → Option Volume
fs_drive_open d = fs_partition_open fs_fat32 0 d

-- What `fsmount` returns: 0, -1 or 1, with the mounted volume.
pub data Mounting : Type 0 where
  no_drive : Mounting
  mount_failed : Mounting
  mounted_volume : Volume → Mounting

abbrev pub mounting : Option Volume → Mounting
mounting none = mount_failed
mounting (some v) = mounted_volume v

abbrev pub mounting_drive : Option Kdrive → Mounting
mounting_drive none = no_drive
mounting_drive (some k) = mounting (fs_drive_open k.device)

unfoldable pub fsmount : (drive : ℕ) → List (Option Kdrive) → Mounting
fsmount drive drives = mounting_drive (get_kdrive drive drives)

-- The buffer's address, what it holds, and the size that is said to be its.
pub record Buffer : Type 0 where
  pub address : ℕ
  pub bytes : List ℕ
  pub size : ℕ

-- The loop over blocks of 128 bytes; `none` is the end of the fuel.
unfoldable pub read_blocks : (fuel block : ℕ) → File → Drive → (bytes : List ℕ) → Option (List ℕ)
read_blocks zero block f d bytes = none
read_blocks (suc fuel) block f d bytes =
    let tmp = more_bytes (fat32_file_read fuel (block * 128) 128 f d) in
    appended_or tmp bytes (read_blocks fuel (suc block) f d (bytes ++ or_nothing tmp))

-- `sizeof(drive_entry_t)` in 64 bits
abbrev pub entry_bytes : ℕ
entry_bytes = 344

-- Memory that is cleared with no test for NULL; what follows from NULL is not defined, and `none`.
abbrev pub cleared_memory : Option (ℕ × Heap) → Option Heap
cleared_memory none = none
cleared_memory (some (zero, h)) = none
cleared_memory (some (suc p, h)) = some h

abbrev pub with_entries : List FsEntry → Option Heap → Option (List FsEntry × Heap)
with_entries entries none = none
with_entries entries (some h) = some (entries, h)

-- The array for the entries that `get_entries` gives, if there are any; it is never freed.
abbrev pub entries_in : (fuel : ℕ) → Option (List FsEntry) → Heap → Option (List FsEntry × Heap)
entries_in fuel none h = none
entries_in fuel (some []) h = some ([], h)
entries_in fuel (some (e ∷ es)) h =
    with_entries (e ∷ es) (cleared_memory (kmalloc fuel (length (e ∷ es) * entry_bytes) h))

-- The bytes that were read in the memory that `kmalloc` gave. NULL is not looked for, and what a
-- write through it does is not defined.
abbrev pub read_into : (size : ℕ) → Option (ℕ × Heap) → Option (List ℕ) → Option (Buffer × Heap)
read_into size none bytes = none
read_into size (some memory) none = none
read_into size (some (zero, h)) (some []) =
    some (record { address = 0; bytes = []; size = size }, h)
read_into size (some (zero, h)) (some (b ∷ bytes)) = none
read_into size (some (suc p, h)) (some bytes) =
    some (record { address = suc p; bytes = bytes; size = size }, h)

abbrev pub read_found : (fuel : ℕ) → Option File → Drive → Heap → Option (Buffer × Heap)
read_found fuel none d h = some (record { address = 0; bytes = []; size = 0 }, h)
read_found fuel (some f) d h =
    read_into f.file_size (kmalloc fuel f.file_size h) (read_blocks fuel 0 f d [])

abbrev pub read_named :
    (fuel : ℕ)
    → (name : List ℕ) → Option (List FsEntry × Heap)
    → Volume
    → Drive
    → Option (Buffer × Heap)
read_named fuel name none v d = none
read_named fuel name (some (entries, h)) v d = read_found fuel (find_file name v entries) d h

unfoldable pub readfile :
    (fuel : ℕ) → (name : List ℕ) → Volume → Drive → Heap → Option (Buffer × Heap)
readfile fuel name v d h =
    read_named fuel name (entries_in fuel (fat32_get_root_entries fuel v d) h) v d
