-- ===== src/Fat32/Mount/Whole.antt =====
-- Reading a whole file by its name.
use gecko_os.Prelude.{
  ℕ, zero, suc, ◌+◌, ◌-◌, ◌*◌, ◌≤◌, ◌<◌, ◌≡◌, refl, ap, ◌∙◌, min, Bool-cases, inl, inr, Option,
  some, List, [], ◌++◌, arith, length, ltb, ◌==◌,
}
use gecko_os.Prelude.Parts.{append-nil}
use gecko_os.Heap.{Heap, kmalloc}
use gecko_os.Fat32.{Drive, Volume}
use gecko_os.Fat32.Dir.{FsEntry, fat32_get_root_entries}
use gecko_os.Fat32.File.{File}
use gecko_os.Fat32.File.Sectors.{stretch, length-stretch, stretch_joined}
use gecko_os.Fat32.File.Read.{IsFile, file_byte, fat32_file_read_lem}
use gecko_os.Fat32.Files.{find_file, appended_or}
use gecko_os.Fat32.Mount.{entries_in, read_blocks, read_into, read_found, read_named, readfile}

-- A round that reads something goes on.
goes_on :
    (f : ℕ → ℕ) (k n : ℕ) (bytes : List ℕ) (rest : Option (List ℕ))
    → 0 < n
    → appended_or (some (stretch f k n)) bytes rest ≡ rest
unfolding stretch
goes_on f k zero bytes rest h = absurd (omega arith)
goes_on f k (suc n) bytes rest h = refl

stretch_zero : (f : ℕ → ℕ) (k n : ℕ) → n ≡ 0 → stretch f k n ≡ []
unfolding stretch
stretch_zero f k n e = rw e refl

-- What a round and the rest read, where the rest starts 128 bytes on.
behind :
    (f : ℕ → ℕ) (k left rest p : ℕ) (bytes : List ℕ)
    → rest ≡ left - 128
    → p ≡ k + 128
    → (bytes ++ stretch f k (min 128 left)) ++ stretch f p rest ≡ bytes ++ stretch f k left
behind f k left rest p bytes count place = elim (Bool-cases (ltb 128 left)) [
  | inl e ↦
      let full : min 128 left ≡ 128 = ground arith in
      rw (full, count, place) (stretch_joined f k 128 left bytes (ground arith))
  | inr e ↦
      let all : min 128 left ≡ left = ground arith in
      rw (all, stretch_zero f p rest (ground arith)) (append-nil (bytes ++ stretch f k left))
]

module _ (f : File) (d : Drive) (ok : IsFile f d) where
  read_blocks_lem :
      (fuel block : ℕ) (bytes : List ℕ)
      → 130 + (f.file_size - block * 128) ≤ fuel
      → read_blocks fuel block f d bytes
        ≡ some (bytes ++ stretch (file_byte f d) (block * 128) (f.file_size - block * 128))
  unfolding read_blocks
  read_blocks_lem zero block bytes enough = absurd (omega arith)
  read_blocks_lem (suc fuel) block bytes enough =
      let g = file_byte f d in
      let k = block * 128 in
      let left = f.file_size - k in
      let read = fat32_file_read_lem fuel k 128 f d ok (omega arith) in
      elim (Bool-cases (left == 0)) [
        | inl e ↦
            let none_left : left ≡ 0 = ground arith in
            let none_read : min 128 left ≡ 0 = omega arith in
            rw
              (
                read,
                stretch_zero g k (min 128 left) none_read,
                stretch_zero g k left none_left,
                append-nil bytes,
              )
              refl
        | inr e ↦
            let some_left : 0 < left = ground arith in
            let rest =
              read_blocks_lem fuel (suc block) (bytes ++ stretch g k (min 128 left))
                (omega arith) in
            rw
              (
                read,
                goes_on g k (min 128 left) bytes
                    (read_blocks fuel (suc block) f d (bytes ++ stretch g k (min 128 left)))
                    (omega arith),
                rest,
              )
              (ap some (
                behind g k left (f.file_size - suc block * 128) (suc block * 128) bytes
                  (omega arith) (omega arith)))
      ]

-- The file of a name among the entries of the root directory, if kmalloc has memory for the entries and for the
-- file, its chain covers its size and its sectors can be read, is read whole by `readfile`: the buffer is the memory
-- that kmalloc gave, it has as many bytes as the file's size says, and they are those of the file. Rounds for 130 more
-- than that are enough.
pub readfile_lem :
    (fuel : ℕ) (name : List ℕ) (v : Volume) (d : Drive) (h h1 h2 : Heap) (p : ℕ)
    (entries : List FsEntry) (f : File)
    → fat32_get_root_entries fuel v d ≡ some entries
    → entries_in fuel (some entries) h ≡ some (entries, h1)
    → find_file name v entries ≡ some f
    → kmalloc fuel f.file_size h1 ≡ some (suc p, h2)
    → IsFile f d
    → 130 + f.file_size ≤ fuel
    → (readfile fuel name v d h
        ≡ some (
          record {
            address = suc p;
            bytes = stretch (file_byte f d) 0 f.file_size;
            size = f.file_size;
          },
          h2,
        ))
      × (length (stretch (file_byte f d) 0 f.file_size) ≡ f.file_size)
unfolding readfile
readfile_lem fuel name v d h h1 h2 p entries f listed room found memory ok enough =
    let whole : f.file_size - 0 ≡ f.file_size = omega arith in
    let read : read_blocks fuel 0 f d [] ≡ some (stretch (file_byte f d) 0 f.file_size) =
      read_blocks_lem f d ok fuel 0 [] (omega arith)
      ∙ ap (λ n. some (stretch (file_byte f d) 0 n)) whole in
    (
      (ap (λ o. read_named fuel name (entries_in fuel o h) v d) listed
          ∙ ap (λ o. read_named fuel name o v d) room
          ∙ ap (λ o. read_found fuel o d h1) found
          ∙ ap (λ o. read_into f.file_size o (read_blocks fuel 0 f d [])) memory
          ∙ ap (λ o. read_into f.file_size (some (suc p, h2)) o) read),
      length-stretch (file_byte f d) 0 f.file_size,
    )
