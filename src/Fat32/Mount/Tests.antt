-- ===== src/Fat32/Mount/Tests.antt =====
-- A volume with one file, A.TXT, of three bytes in the cluster 3, and names.
use gecko_os.Prelude.{
  ℕ, ◌*◌, ◌<◌, ◌≡◌, refl, sym, subst, true, false, none, some, Option, List, [], ◌∷◌, ◌++◌, arith,
  length, replicate, ◌==◌, if◌then◌else◌,
}
use gecko_os.Fat32.{Drive, read_sector, cluster_to_lba, half, word}
use gecko_os.Fat32.Fat.{is_cluster}
use gecko_os.Fat32.Names.{format_83_name, encode_83_name, before_space, has_ext}
use gecko_os.Fat32.Names.RoundTrip.{without, format_83_name-encode_83_name}
use gecko_os.Fat32.Dir.{
  FsEntry, file, fat32_get_root_entries, fat32_dir_iterate, visit_entries, visit_sectors,
  enum_count_cb, enum_fill_cb, dir_entry_at, bytes_at,
}
use gecko_os.Fat32.Dir.Enumerate.{counted, fat32_get_root_entries_lem}
use gecko_os.Fat32.File.{File}
use gecko_os.Fat32.File.Sectors.{stretch}
use gecko_os.Fat32.File.Read.{cluster_at, IsFile, file_byte}
use gecko_os.Fat32.Files.{find_file}
use gecko_os.Editor.Files.{same_name}
use gecko_os.Heap.{Heap, find_free_block, create_block, serve, kmalloc}
use gecko_os.Fat32.Mount.{entries_in, readfile}
use gecko_os.Fat32.Mount.Whole.{readfile_lem}
use gecko_os.Fat32.Tests.{volume}

abbrev root_sector : List ℕ
root_sector =
    b'A' ∷ replicate 7 b' '
    ++ b'T' ∷ b'X' ∷ b'T' ∷ 32 ∷ replicate 14 0
    ++ 3 ∷ 0 ∷ 3 ∷ replicate 483 0

abbrev one_file : Drive
one_file = record {
  sectors = λ k.
      if k == 3
      then root_sector
      else if k == 4
      then 7 ∷ 8 ∷ 9 ∷ replicate 509 0
      else replicate 512 0;
  unreadable = λ _. false;
  unwritable = λ _. false;
}

abbrev name : List ℕ
name = b'a' ∷ b'.' ∷ b't' ∷ b'x' ∷ b't' ∷ []

abbrev entries : List FsEntry
entries = file (b'A' ∷ b'.' ∷ b'T' ∷ b'X' ∷ b'T' ∷ []) 3 3 ∷ []

abbrev a_txt : File
a_txt = record { volume = volume; file_size = 3; first_cluster = 3 }

entries_test : fat32_get_root_entries 200 volume one_file ≡ some entries
unfolding fat32_get_root_entries fat32_dir_iterate visit_entries visit_sectors enum_count_cb
    enum_fill_cb dir_entry_at bytes_at read_sector cluster_to_lba half word format_83_name
    before_space has_ext
entries_test = refl

found_test : find_file name volume entries ≡ some a_txt
unfolding find_file same_name
found_test = refl

a_txt-IsFile : IsFile a_txt one_file
unfolding cluster_at read_sector cluster_to_lba
a_txt-IsFile =
    let only : (q : ℕ) → q * 512 < 3 → q ≡ 0 = λ q less. omega (arith, less) in
    record {
      sector_bytes = refl;
      some_sectors = omega arith;
      small = omega arith;
      chain = λ q less.
          subst (λ n. is_cluster (cluster_at n 3 volume one_file) ≡ true) (sym (only q less)) refl;
      readable = λ q s less inner.
          let first : s ≡ 0 = omega (arith, inner) in rw (only q less, first) refl;
    }

-- The heap after `kalloc_init`, and after the array of one entry and the buffer of three bytes.
abbrev heap : Heap
heap = record {
  heap_ptr = 2097152;
  heap_end = 5242880;
  free_list_head = 0;
  store = λ p. record { size = 0; free = false; next = 0 };
}

abbrev after : Option (ℕ × Heap) → Heap
after r = elim r [ none ↦ heap | some (p, h) ↦ h ]

entries_in_test : entries_in 200 (some entries) heap ≡ some (entries, after (kmalloc 200 344 heap))
unfolding kmalloc serve find_free_block create_block
entries_in_test = refl

memory_test :
    kmalloc 200 3 (after (kmalloc 200 344 heap))
    ≡ some (2097528, after (kmalloc 200 3 (after (kmalloc 200 344 heap))))
unfolding kmalloc serve find_free_block create_block
memory_test = refl

readfile_lem_example :
    (readfile 200 name volume one_file heap
      ≡ some (
        record { address = 2097528; bytes = stretch (file_byte a_txt one_file) 0 3; size = 3 },
        after (kmalloc 200 3 (after (kmalloc 200 344 heap))),
      ))
    × (length (stretch (file_byte a_txt one_file) 0 3) ≡ 3)
readfile_lem_example =
    readfile_lem 200 name volume one_file heap (after (kmalloc 200 344 heap))
      (after (kmalloc 200 3 (after (kmalloc 200 344 heap)))) 2097527 entries a_txt entries_test
      entries_in_test found_test memory_test a_txt-IsFile (omega arith)

fat32_get_root_entries_lem_example :
    counted (fat32_get_root_entries 200 volume one_file)
    ≡ fat32_dir_iterate enum_count_cb 200 2 volume one_file 0
fat32_get_root_entries_lem_example = fat32_get_root_entries_lem 200 volume one_file

format_83_name-encode_83_name_example :
    format_83_name (encode_83_name name).raw8 (encode_83_name name).raw3
    ≡ b'A' ∷ b'.' ∷ b'T' ∷ b'X' ∷ b'T' ∷ []
unfolding without
format_83_name-encode_83_name_example =
    format_83_name-encode_83_name (b'a' ∷ []) b't' (b'x' ∷ b't' ∷ []) (omega arith) (omega arith)
      refl refl refl
