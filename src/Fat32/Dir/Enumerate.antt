-- ===== src/Fat32/Dir/Enumerate.antt =====
-- Listing the root directory: the second walk fills as many entries as the first has counted.
use gecko_os.Prelude.{
  ℕ, zero, suc, ◌≡◌, refl, ap, ◌∙◌, inl, inr, Bool-cases, Option, none, some, List, [], ◌∷◌, arith,
  length, length-append, ◌==◌, if◌then◌else◌,
}
use gecko_os.Fat32.{Drive, Volume, read_sector, u32, cluster_to_lba}
use gecko_os.Fat32.Fat.{fat32_next_cluster, is_cluster}
use gecko_os.Fat32.Dir.{
  DirEntry, dir_entry_at, Visit, visit_entries, visit_sector, visit_sectors, fat32_dir_iterate,
  first_byte, entry_end, skipped, fs_entry, FsEntry, enum_count_cb, enum_fill_cb, filled_entries,
  fat32_get_root_entries,
}

-- The two walks have stopped both or neither, and agree on the number.
abbrev Agree : Visit ℕ → Visit (List FsEntry) → Type 0
Agree a b = (a.stop ≡ b.stop) × (length b.ctx ≡ a.ctx)

callbacks-Agree :
    (e : DirEntry) (lba index count : ℕ) (entries : List FsEntry)
    → length entries ≡ count
    → Agree (enum_count_cb e lba index count) (enum_fill_cb e lba index entries)
unfolding enum_count_cb enum_fill_cb
callbacks-Agree e lba index count entries same = elim (Bool-cases (first_byte e == entry_end)) [
  | inl last ↦ rw last (refl, same)
  | inr more ↦ elim (Bool-cases (skipped e)) [
    | inl skip ↦ rw (more, skip) (refl, same)
    | inr taken ↦
        rw (more, taken) (refl, length-append entries (fs_entry e ∷ []) ∙ (omega (arith, same)))
  ]
]

-- A loop goes on where its body has not stopped.
stop_or :
    (a ra : Visit ℕ) (b rb : Visit (List FsEntry))
    → Agree a b
    → Agree ra rb
    → Agree (if a.stop then a else ra) (if b.stop then b else rb)
stop_or a ra b rb (stops, now) rest = elim (Bool-cases b.stop) [
  | inl stop ↦ rw (stops, stop) (refl, now)
  | inr go ↦ rw (stops, go) rest
]

entries-Agree :
    (left index lba : ℕ) (buf : List ℕ) (count : ℕ) (entries : List FsEntry)
    → length entries ≡ count
    → Agree
        (visit_entries enum_count_cb left index lba buf count)
        (visit_entries enum_fill_cb left index lba buf entries)
unfolding visit_entries
entries-Agree zero index lba buf count entries same = (refl, same)
entries-Agree (suc left) index lba buf count entries same =
    let e = dir_entry_at index buf in
    let now = callbacks-Agree e lba index count entries same in
    stop_or _ _ _ _ now (entries-Agree left (suc index) lba buf _ _ now.1)

sector-Agree :
    (lba : ℕ) (sector : Option (List ℕ)) (count : ℕ) (entries : List FsEntry)
    → length entries ≡ count
    → Agree
        (visit_sector enum_count_cb lba sector count)
        (visit_sector enum_fill_cb lba sector entries)
sector-Agree lba none count entries same = (refl, same)
sector-Agree lba (some buf) count entries same = entries-Agree 16 0 lba buf count entries same

sectors-Agree :
    (left lba : ℕ) (d : Drive) (count : ℕ) (entries : List FsEntry)
    → length entries ≡ count
    → Agree
        (visit_sectors enum_count_cb left lba d count)
        (visit_sectors enum_fill_cb left lba d entries)
unfolding visit_sectors
sectors-Agree zero lba d count entries same = (refl, same)
sectors-Agree (suc left) lba d count entries same =
    let now = sector-Agree lba (read_sector lba d) count entries same in
    stop_or _ _ _ _ now (sectors-Agree left (u32 (suc lba)) d _ _ now.1)

abbrev pub counted : Option (List FsEntry) → Option ℕ
counted none = none
counted (some entries) = some (length entries)

walks_agree :
    (fuel cluster : ℕ) (v : Volume) (d : Drive) (count : ℕ) (entries : List FsEntry)
    → length entries ≡ count
    → counted (fat32_dir_iterate enum_fill_cb fuel cluster v d entries)
      ≡ fat32_dir_iterate enum_count_cb fuel cluster v d count
unfolding fat32_dir_iterate
walks_agree zero cluster v d count entries same = refl
walks_agree (suc fuel) cluster v d count entries same =
    let spc = v.bpb.sectors_per_cluster in
    let lba = cluster_to_lba cluster v in
    let (stops, now) = sectors-Agree spc lba d count entries same in
    let rest = walks_agree fuel (fat32_next_cluster cluster v d) v d _ _ now in
    elim (Bool-cases (is_cluster cluster)) [
      | inr last ↦ rw last (ap some same)
      | inl names ↦ elim (Bool-cases (visit_sectors enum_fill_cb spc lba d entries).stop) [
        | inl stop ↦ rw (names, stops, stop) (ap some now)
        | inr go ↦ rw (names, stops, go) rest
      ]
    ]

allocated :
    (count : Option ℕ) (entries : Option (List FsEntry))
    → counted entries ≡ count
    → counted (filled_entries count entries) ≡ count
allocated none entries same = refl
allocated (some n) entries same = elim (Bool-cases (n == 0)) [
  | inl e ↦ let none_left : n ≡ 0 = ground arith in rw (e, none_left) refl
  | inr e ↦ rw e same
]

-- On every drive, and with any rounds for the walks, `fat32_get_root_entries` has as many entries as its first walk
-- has counted, so the second fills the allocated array up to its end; it has none where the first has no end.
pub fat32_get_root_entries_lem :
    (fuel : ℕ) (v : Volume) (d : Drive)
    → counted (fat32_get_root_entries fuel v d)
      ≡ fat32_dir_iterate enum_count_cb fuel v.root_cluster v d 0
unfolding fat32_get_root_entries
fat32_get_root_entries_lem fuel v d =
    allocated (fat32_dir_iterate enum_count_cb fuel v.root_cluster v d 0)
      (fat32_dir_iterate enum_fill_cb fuel v.root_cluster v d [])
      (walks_agree fuel v.root_cluster v d 0 [] refl)
