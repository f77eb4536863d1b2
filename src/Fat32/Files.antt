-- ===== src/Fat32/Files.antt =====
-- The files of a volume by name: making, writing, deleting and extending them, and new directories. The results are
-- `ok` for 0 and not `ok` for -1, with the drive; `none` is the end of the fuel.
use gecko_os.Prelude.{
  ℕ, zero, suc, ◌*◌, ◌/◌, ◌%◌, ◌^◌, Bool, true, false, ◌&&◌, Option, none, some, List, [], ◌∷◌,
  ◌++◌, length, take, replicate, ltb, ◌==◌, if◌then◌else◌,
}
use gecko_os.Fat32.{Drive, Wrote, Volume}
use gecko_os.Fat32.Fat.{fat32_free_cluster_chain}
use gecko_os.Fat32.Names.{encode_83_name}
use gecko_os.Fat32.Dir.{
  DirEntry, dir_entry_cluster, DirSearchCtx, fat32_dir_iterate, dir_search_cb,
  fat32_write_dir_entry, entry_free, FsEntry, directory, file, fat32_get_root_entries,
}
use gecko_os.Fat32.File.{File, Reading, got, failed, fat32_file_read, fat32_write_cluster_chain}
use gecko_os.Editor.Files.{same_name}

-- `memset` to 0.
abbrev pub zero_entry : DirEntry
zero_entry = record {
  name = replicate 8 0;
  ext = replicate 3 0;
  attributes = 0;
  reserved = 0;
  create_time_tenth = 0;
  create_time = 0;
  create_date = 0;
  access_date = 0;
  first_cluster_high = 0;
  write_time = 0;
  write_date = 0;
  first_cluster_low = 0;
  file_size = 0;
}

abbrev pub zero_ctx : DirSearchCtx
zero_ctx = record {
  target8 = replicate 8 0;
  target3 = replicate 3 0;
  find_free = false;
  find_match = false;
  found = false;
  found_lba = 0;
  found_idx = 0;
  result = zero_entry;
}

unfoldable pub find_free_slot : (fuel : ℕ) → Volume → Drive → Option DirSearchCtx
find_free_slot fuel v d =
    fat32_dir_iterate dir_search_cb fuel v.root_cluster v d (record zero_ctx { find_free = true })

unfoldable pub find_name : (fuel : ℕ) → (name : List ℕ) → Volume → Drive → Option DirSearchCtx
find_name fuel name v d =
    let raw = encode_83_name name in
    fat32_dir_iterate dir_search_cb fuel v.root_cluster v d
      (record zero_ctx { find_match = true; target8 = raw.raw8; target3 = raw.raw3 })

-- `(44 << 9) | (1 << 5) | 1`, the first of January 2024.
abbrev pub fixed_date : ℕ
fixed_date = 22561

abbrev pub failure : Drive → Wrote
failure d = record { ok = false; drive = d }

-- The new entry of a file, and the entry of a file with a new content.
abbrev pub file_entry : (name : List ℕ) → (first_cluster len : ℕ) → DirEntry
file_entry name first_cluster len =
    let raw = encode_83_name name in
    record zero_entry {
      name = raw.raw8;
      ext = raw.raw3;
      attributes = 32;
      first_cluster_high = first_cluster / 2 ^ 16 % 2 ^ 16;
      first_cluster_low = first_cluster % 2 ^ 16;
      file_size = len;
      write_date = fixed_date;
      create_date = fixed_date;
    }

abbrev pub updated_entry : (first_cluster len : ℕ) → DirEntry → DirEntry
updated_entry first_cluster len e = record e {
  first_cluster_high = first_cluster / 2 ^ 16 % 2 ^ 16;
  first_cluster_low = first_cluster % 2 ^ 16;
  file_size = len;
  write_date = fixed_date;
  write_time = 0;
}

abbrev pub no_chain : (first_cluster len : ℕ) → Bool
no_chain first_cluster len = first_cluster == 0 && ltb 0 len

abbrev pub created : (name content : List ℕ) → Option DirSearchCtx → Volume → Drive → Option Wrote
created name content none v d = none
created name content (some ctx) v d =
    let chain = fat32_write_cluster_chain content v d in
    if ctx.found
    then some (
        if no_chain chain.cluster (length content)
        then failure chain.drive
        else fat32_write_dir_entry ctx.found_lba ctx.found_idx
            (file_entry name chain.cluster (length content)) chain.drive)
    else some (failure d)

unfoldable pub fat32_create_file :
    (fuel : ℕ) → (name content : List ℕ) → Volume → Drive → Option Wrote
fat32_create_file fuel name content v d = created name content (find_free_slot fuel v d) v d

-- The old chain is free; the new one is written, and then the entry.
abbrev pub rewritten : (content : List ℕ) → DirSearchCtx → Option Drive → Volume → Option Wrote
rewritten content ctx none v = none
rewritten content ctx (some freed) v =
    let chain = fat32_write_cluster_chain content v freed in
    some (
      if no_chain chain.cluster (length content)
      then failure chain.drive
      else fat32_write_dir_entry ctx.found_lba ctx.found_idx
          (updated_entry chain.cluster (length content) ctx.result) chain.drive)

abbrev pub written_or_new :
    (fuel : ℕ) → (name content : List ℕ) → Option DirSearchCtx → Volume → Drive → Option Wrote
written_or_new fuel name content none v d = none
written_or_new fuel name content (some ctx) v d =
    if ctx.found
    then rewritten content ctx (fat32_free_cluster_chain fuel (dir_entry_cluster ctx.result) v d) v
    else fat32_create_file fuel name content v d

unfoldable pub fat32_write_file :
    (fuel : ℕ) → (name content : List ℕ) → Volume → Drive → Option Wrote
fat32_write_file fuel name content v d =
    written_or_new fuel name content (find_name fuel name v d) v d

abbrev pub first_free_name : List ℕ → List ℕ
first_free_name [] = []
first_free_name (c ∷ name) = entry_free ∷ name

abbrev pub marked_deleted : DirSearchCtx → Option Drive → Option Wrote
marked_deleted ctx none = none
marked_deleted ctx (some freed) = some (
    fat32_write_dir_entry ctx.found_lba ctx.found_idx
      (record ctx.result { name = first_free_name ctx.result.name }) freed)

abbrev pub deleted : (fuel : ℕ) → Option DirSearchCtx → Volume → Drive → Option Wrote
deleted fuel none v d = none
deleted fuel (some ctx) v d =
    if ctx.found
    then marked_deleted ctx (fat32_free_cluster_chain fuel (dir_entry_cluster ctx.result) v d)
    else some (failure d)

unfoldable pub fat32_delete_file : (fuel : ℕ) → (name : List ℕ) → Volume → Drive → Option Wrote
fat32_delete_file fuel name v d = deleted fuel (find_name fuel name v d) v d

-- The first file of that name among the entries.
unfoldable pub find_file : (name : List ℕ) → Volume → List FsEntry → Option File
find_file name v [] = none
find_file name v (directory n ∷ entries) = find_file name v entries
find_file name v (file n file_size cluster ∷ entries) =
    let rest = find_file name v entries in
    if same_name n name
    then some (record { volume = v; file_size = file_size; first_cluster = cluster })
    else rest

-- The loop that reads the old content, up to 4000 bytes; a result that is not positive ends it.
abbrev pub more_bytes : Option Reading → Option (List ℕ)
more_bytes none = none
more_bytes (some failed) = some []
more_bytes (some (got bytes)) = some bytes

abbrev pub appended : (tmp bytes : List ℕ) → (rest : Option (List ℕ)) → Option (List ℕ)
appended [] bytes rest = some bytes
appended (b ∷ tmp) bytes rest = rest

abbrev pub or_nothing : Option (List ℕ) → List ℕ
or_nothing none = []
or_nothing (some tmp) = tmp

abbrev pub appended_or :
    (read : Option (List ℕ)) → (bytes : List ℕ) → (rest : Option (List ℕ)) → Option (List ℕ)
appended_or none bytes rest = none
appended_or (some tmp) bytes rest = appended tmp bytes rest

unfoldable pub old_content : (fuel block : ℕ) → File → Drive → (bytes : List ℕ) → Option (List ℕ)
old_content zero block f d bytes = none
old_content (suc fuel) block f d bytes =
    let tmp = more_bytes (fat32_file_read fuel (block * 128) 128 f d) in
    let rest = old_content fuel (suc block) f d (take 4000 (bytes ++ or_nothing tmp)) in
    if ltb (length bytes) 4000 then appended_or tmp bytes rest else some bytes

-- The result of deleting the file before is not looked at.
abbrev pub created_again :
    (fuel : ℕ) → (name content : List ℕ) → Option (List ℕ) → Option Wrote → Volume → Option Wrote
created_again fuel name content none deletion v = none
created_again fuel name content (some old) none v = none
created_again fuel name content (some old) (some deletion) v =
    fat32_create_file fuel name (take 4095 (old ++ content)) v deletion.drive

abbrev pub appended_file :
    (fuel : ℕ) → (name content : List ℕ) → Option File → Volume → Drive → Option Wrote
appended_file fuel name content none v d = fat32_create_file fuel name (take 4095 content) v d
appended_file fuel name content (some f) v d =
    created_again fuel name content (old_content fuel 0 f d []) (fat32_delete_file fuel name v d) v

abbrev pub append_to :
    (fuel : ℕ) → (name content : List ℕ) → Option (List FsEntry) → Volume → Drive → Option Wrote
append_to fuel name content none v d = none
append_to fuel name content (some entries) v d =
    appended_file fuel name content (find_file name v entries) v d

unfoldable pub fat32_append_file :
    (fuel : ℕ) → (name content : List ℕ) → Volume → Drive → Option Wrote
fat32_append_file fuel name content v d =
    append_to fuel name content (fat32_get_root_entries fuel v d) v d

abbrev pub made : (name : List ℕ) → Option DirSearchCtx → Drive → Option Wrote
made name none d = none
made name (some ctx) d =
    let raw = encode_83_name name in
    let entry : DirEntry = record zero_entry {
      name = raw.raw8;
      ext = raw.raw3;
      attributes = 16;
      write_date = fixed_date;
    } in
    if ctx.found
    then some (fat32_write_dir_entry ctx.found_lba ctx.found_idx entry d)
    else some (failure d)

unfoldable pub fat32_mkdir : (fuel : ℕ) → (name : List ℕ) → Volume → Drive → Option Wrote
fat32_mkdir fuel name v d = made name (find_free_slot fuel v d) d
