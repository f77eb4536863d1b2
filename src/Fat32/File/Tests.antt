-- ===== src/Fat32/File/Tests.antt =====
-- A file of three bytes on a blank volume.
use gecko_os.Prelude.{
  ℕ, ◌+◌, ◌<◌, ◌≡◌, ◌≢◌, refl, sym, ◌∙◌, some, List, [], ◌∷◌, arith, ◌==◌, if◌then◌else◌,
}
use gecko_os.Fat32.{Drive, cluster_eoc, cluster_to_lba}
use gecko_os.Fat32.Fat.{fat32_next_cluster, fat32_write_fat}
use gecko_os.Fat32.Fat.Table.{IsTable, fat32_write_fat-IsStored, fat32_next_cluster-fat32_write_fat}
use gecko_os.Fat32.Fat.Allocate.{first_free, fat32_alloc_cluster_lem}
use gecko_os.Fat32.File.{got, fat32_file_read, chain_clusters, fat32_write_cluster_chain}
use gecko_os.Fat32.File.Chain.{IsVolume}
use gecko_os.Fat32.File.Readback.{
  fat32_file_read-fat32_write_cluster_chain, fat32_write_cluster_chain-kept,
}
use gecko_os.Fat32.Tests.{volume, blank, blank-IsTable, blank_entry}

blank-IsVolume : IsVolume volume blank
blank-IsVolume = record {
  table = blank-IsTable;
  clusters = omega arith;
  sector_bytes = refl;
  some_sectors = omega arith;
  few_sectors = omega arith;
  apart = omega arith;
  fits = omega arith;
  readable = λ k low high. refl;
  writable = λ k low high. refl;
}

first_two : first_free 128 0 (λ c. fat32_next_cluster c volume blank) ≡ 2
unfolding first_free
first_two = rw (blank_entry 2 (omega arith)) refl

abbrev text : List ℕ
text = 7 ∷ 8 ∷ 9 ∷ []

written : (fat32_write_cluster_chain text volume blank).cluster ≢ 0
unfolding fat32_write_cluster_chain chain_clusters
written e =
    let cluster =
      (fat32_alloc_cluster_lem volume blank blank-IsTable 2 (omega arith)).0 ∙ first_two in
    let two : 2 ≡ 0 = sym (rw cluster refl) ∙ e in omega (arith, two)

fat32_file_read-fat32_write_cluster_chain_example :
    fat32_file_read 9 1 8
      (record {
        volume = volume;
        file_size = 3;
        first_cluster = (fat32_write_cluster_chain text volume blank).cluster;
      })
      (fat32_write_cluster_chain text volume blank).drive
    ≡ some (got (8 ∷ 9 ∷ []))
fat32_file_read-fat32_write_cluster_chain_example =
    fat32_file_read-fat32_write_cluster_chain 9 1 8 text volume blank blank-IsVolume (omega arith)
      written (omega arith)

-- The cluster 5 is in use.
abbrev partly_used : Drive
partly_used = (fat32_write_fat 5 cluster_eoc volume blank).drive

used_table :
    IsTable volume partly_used
    × ((k : ℕ)
        → k < 128
        → fat32_next_cluster k volume partly_used
          ≡ (if k == 5 then cluster_eoc else fat32_next_cluster k volume blank))
used_table =
    fat32_next_cluster-fat32_write_fat 5 cluster_eoc volume blank blank-IsTable (omega arith)

partly_used-IsVolume : IsVolume volume partly_used
partly_used-IsVolume = record {
  table = used_table.0;
  clusters = omega arith;
  sector_bytes = refl;
  some_sectors = omega arith;
  few_sectors = omega arith;
  apart = omega arith;
  fits = omega arith;
  readable = λ k low high.
      (fat32_write_fat-IsStored 5 cluster_eoc volume blank blank-IsTable (omega arith)).unreadable
        k;
  writable = λ k low high.
      (fat32_write_fat-IsStored 5 cluster_eoc volume blank blank-IsTable (omega arith)).unwritable
        k;
}

two_free : first_free 128 0 (λ c. fat32_next_cluster c volume partly_used) ≡ 2
unfolding first_free
two_free =
    let free : fat32_next_cluster 2 volume partly_used ≡ 0 =
      used_table.1 2 (omega arith) ∙ blank_entry 2 (omega arith) in
    rw free refl

written_beside : (fat32_write_cluster_chain text volume partly_used).cluster ≢ 0
unfolding fat32_write_cluster_chain chain_clusters
written_beside e =
    let cluster =
      (fat32_alloc_cluster_lem volume partly_used used_table.0 2 (omega arith)).0 ∙ two_free in
    let two : 2 ≡ 0 = sym (rw cluster refl) ∙ e in omega (arith, two)

fat32_write_cluster_chain-kept_example :
    (fat32_next_cluster 5 volume (fat32_write_cluster_chain text volume partly_used).drive
      ≡ fat32_next_cluster 5 volume partly_used)
    × ((fat32_write_cluster_chain text volume partly_used).drive.sectors
          (cluster_to_lba 5 volume + 0)
        ≡ partly_used.sectors (cluster_to_lba 5 volume + 0))
fat32_write_cluster_chain-kept_example =
    fat32_write_cluster_chain-kept 5 0 text volume partly_used partly_used-IsVolume written_beside
      (omega arith) (omega arith) (λ z. omega (arith, sym (used_table.1 5 (omega arith)) ∙ z))
      (omega arith)
