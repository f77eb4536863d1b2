-- ===== src/Fat32/Tests.antt =====
-- Runs on a small volume: two tables of one sector each, and clusters of one sector.
use gecko_os.Prelude.{
  ℕ, zero, suc, ◌+◌, ◌*◌, ◌%◌, ◌<◌, ◌≡◌, ◌⊎◌, refl, sym, ap, ◌∙◌, subst, inl, inr, Bool-cases,
  false, some, arith, replicate, ◌==◌, if◌then◌else◌, length-replicate,
}
use gecko_os.Fat32.{Drive, Volume, word, byte}
use gecko_os.Fat32.Fat.{
  fat32_next_cluster, fat32_write_fat, fat32_alloc_cluster, fat32_free_cluster_chain,
}
use gecko_os.Fat32.Fat.Table.{IsTable, next_entry, fat32_next_cluster-fat32_write_fat}
use gecko_os.Fat32.Fat.Allocate.{first_free, taken_entry, fat32_alloc_cluster_lem}
use gecko_os.Fat32.Fat.Free.{
  IsClosed, OnChain, first, later, fat32_free_cluster_chain_lem, fat32_free_cluster_chain-kept,
}

abbrev pub volume : Volume
volume = record {
  bpb = record {
    bytes_per_sector = 512;
    sectors_per_cluster = 1;
    reserved_sectors = 1;
    num_fats = 2;
    sectors_per_fat_16 = 0;
    total_sectors_32 = 200;
    sectors_per_fat_32 = 1;
    root_cluster = 2;
  };
  partition_lba = 0;
  fat_lba = 1;
  data_lba = 3;
  root_cluster = 2;
  total_sectors = 200;
  sectors_per_fat = 1;
}

abbrev pub blank : Drive
blank = record { sectors = λ _. replicate 512 0; unreadable = λ _. false; unwritable = λ _. false }

pub blank-IsTable : IsTable volume blank
blank-IsTable = record {
  small = omega arith;
  fits = omega arith;
  readable = λ s less. refl;
  writable = λ s less. refl;
  full = λ s less. length-replicate {A = ℕ} 512 0;
}

fat32_alloc_cluster_lem_example :
    ((fat32_alloc_cluster volume blank).cluster
      ≡ first_free 128 0 (λ c. fat32_next_cluster c volume blank))
    × IsTable volume (fat32_alloc_cluster volume blank).drive
    × (fat32_next_cluster 2 volume (fat32_alloc_cluster volume blank).drive
        ≡ taken_entry
            (first_free 128 0 (λ c. fat32_next_cluster c volume blank))
            2
            (λ c. fat32_next_cluster c volume blank))
fat32_alloc_cluster_lem_example = fat32_alloc_cluster_lem volume blank blank-IsTable 2 (omega arith)

-- All entries of the blank volume are 0.
zero_byte : (n j : ℕ) → byte (replicate n 0) j ≡ 0
zero_byte zero j = refl
zero_byte (suc n) zero = refl
zero_byte (suc n) (suc j) = zero_byte n j

pub blank_entry : (c : ℕ) → c < 128 → fat32_next_cluster c volume blank ≡ 0
unfolding word
blank_entry c less =
    next_entry volume blank blank-IsTable c less
    ∙ (rw
        (
          zero_byte 512 (c % 128 * 4),
          zero_byte 512 (c % 128 * 4 + 1),
          zero_byte 512 (c % 128 * 4 + 2),
          zero_byte 512 (c % 128 * 4 + 3),
        )
        refl)

-- Two clusters, each of which points at the other.
abbrev half_cycle : Drive
half_cycle = (fat32_write_fat 2 3 volume blank).drive

abbrev cycle : Drive
cycle = (fat32_write_fat 3 2 volume half_cycle).drive

cycle_entry :
    (c : ℕ)
    → c < 128
    → fat32_next_cluster c volume cycle ≡ (if c == 3 then 2 else if c == 2 then 3 else 0)
cycle_entry c less =
    let half = fat32_next_cluster-fat32_write_fat 2 3 volume blank blank-IsTable (omega arith) in
    let whole = fat32_next_cluster-fat32_write_fat 3 2 volume half_cycle half.0 (omega arith) in
    whole.1 c less
    ∙ ap (λ n. if c == 3 then 2 else n)
        (half.1 c less ∙ ap (λ n. if c == 2 then 3 else n) (blank_entry c less))

cycle_value : (c : ℕ) → (if c == 3 then 2 else if c == 2 then 3 else 0) < 128
cycle_value c = elim (Bool-cases (c == 3)) [
  | inl e ↦ rw e (omega arith)
  | inr e ↦ elim (Bool-cases (c == 2)) [
    | inl f ↦ rw (e, f) (omega arith)
    | inr f ↦ rw (e, f) (omega arith)
  ]
]

cycle-IsClosed : IsClosed volume cycle
cycle-IsClosed =
    let half = fat32_next_cluster-fat32_write_fat 2 3 volume blank blank-IsTable (omega arith) in
    record {
      table = (fat32_next_cluster-fat32_write_fat 3 2 volume half_cycle half.0 (omega arith)).0;
      inside = λ c less names. subst (λ n. n < 128) (sym (cycle_entry c less)) (cycle_value c);
    }

way : OnChain (λ n. fat32_next_cluster n volume cycle) 2 3
way = later 2 3 refl (
    subst (λ n. OnChain (λ m. fat32_next_cluster m volume cycle) n 3)
      (sym (cycle_entry 2 (omega arith))) (first 3 refl))

fat32_free_cluster_chain_lem_example :
    (d' : Drive) × (fat32_free_cluster_chain 130 2 volume cycle ≡ some d')
    × IsClosed volume d'
    × (fat32_next_cluster 3 volume d' ≡ 0)
fat32_free_cluster_chain_lem_example =
    fat32_free_cluster_chain_lem 2 3 volume cycle cycle-IsClosed (omega arith) way

fat32_free_cluster_chain-kept_example :
    (d' : Drive) × (fat32_free_cluster_chain 130 2 volume cycle ≡ some d')
    × ((fat32_next_cluster 5 volume d' ≡ fat32_next_cluster 5 volume cycle)
        ⊎ OnChain (λ n. fat32_next_cluster n volume cycle) 2 5)
fat32_free_cluster_chain-kept_example =
    fat32_free_cluster_chain-kept 2 5 volume cycle cycle-IsClosed (λ _. omega arith) (omega arith)
