-- ===== src/Fat32/File/Chain.antt =====
-- A new chain of clusters: one round takes a free cluster, links it and fills it, and leaves all that is in use.
use gecko_os.Prelude.{
  ℕ, suc, ◌+◌, ◌-◌, ◌*◌, ◌/◌, ◌%◌, ◌^◌, ◌≤◌, ◌<◌, ◌≡◌, ◌≢◌, ◌⊎◌, refl, sym, ap, ◌∙◌, inl, inr,
  Bool-cases, false, arith, length, ltb, ◌==◌, ==-refl, ≢→==false, ==false→≢,
}
use native.Mathlib.Nat.{add-mul, suc-mul, mul-le-mul_right, add-mul-mod_self_left}
use gecko_os.Fat32.{Drive, Volume, cluster_bad, word, cluster_to_lba}
use gecko_os.Fat32.Fat.{masked, fat32_next_cluster}
use gecko_os.Fat32.Fat.Table.{
  IsTable, fat32_next_cluster-fat32_write_fat, fat32_write_fat-IsStored, next_entry,
}
use gecko_os.Fat32.File.{linked}

-- Two tables, and behind them the clusters, in sectors below 2^32 which can be read and written.
pub record IsVolume (v : Volume) (d : Drive) : Type 0 where
  pub table : IsTable v d
  pub clusters : 128 * v.sectors_per_fat ≤ cluster_bad
  pub sector_bytes : v.bpb.bytes_per_sector ≡ 512
  pub some_sectors : 0 < v.bpb.sectors_per_cluster
  pub few_sectors : v.bpb.sectors_per_cluster < 256
  pub apart : v.fat_lba + 2 * v.sectors_per_fat ≤ v.data_lba
  pub fits : v.data_lba + 128 * v.sectors_per_fat * v.bpb.sectors_per_cluster < 2 ^ 32
  pub readable :
      (k : ℕ)
      → v.data_lba ≤ k
      → k < v.data_lba + 128 * v.sectors_per_fat * v.bpb.sectors_per_cluster
      → d.unreadable k ≡ false
  pub writable :
      (k : ℕ)
      → v.data_lba ≤ k
      → k < v.data_lba + 128 * v.sectors_per_fat * v.bpb.sectors_per_cluster
      → d.unwritable k ≡ false

abbrev pub entry : Volume → Drive → ℕ → ℕ
entry v d c = fat32_next_cluster c v d

abbrev pub entries : Volume → ℕ
entries v = 128 * v.sectors_per_fat

-- The first sector of a cluster.
abbrev pub first_sector : Volume → ℕ → ℕ
first_sector v c = v.data_lba + (c - 2) * v.bpb.sectors_per_cluster

module _ (v : Volume) (d : Drive) (ok : IsVolume v d) where
  abbrev spc : ℕ
  spc = v.bpb.sectors_per_cluster

  pub cluster-fits : (c : ℕ) → 2 ≤ c → c < entries v → (c - 2) * spc + spc ≤ entries v * spc
  cluster-fits c low high =
      let step : suc (c - 2) * spc ≤ entries v * spc = mul-le-mul_right spc (omega arith) in
      omega (arith, step, suc-mul (c - 2) spc)

  pub cluster_to_lba_lem : (c : ℕ) → 2 ≤ c → c < entries v → cluster_to_lba c v ≡ first_sector v c
  unfolding cluster_to_lba
  cluster_to_lba_lem c low high =
      let shape : c + 2 ^ 32 - 2 ≡ c - 2 + 2 ^ 32 = omega arith in
      let parts : v.data_lba + (c - 2 + 2 ^ 32) * spc ≡ first_sector v c + 2 ^ 32 * spc =
        omega (arith, add-mul (c - 2) (2 ^ 32) spc) in
      ap (λ n. (v.data_lba + n * spc) % 2 ^ 32) shape
      ∙ ap (λ n. n % 2 ^ 32) parts
      ∙ add-mul-mod_self_left (first_sector v c) (2 ^ 32) spc
      ∙ (omega (arith, cluster-fits c low high, ok.fits))

  -- Sectors of different clusters differ.
  pub clusters-apart :
      (a b : ℕ)
      → 2 ≤ a
      → 2 ≤ b
      → a ≢ b
      → (a - 2) * spc + spc ≤ (b - 2) * spc ⊎ (b - 2) * spc + spc ≤ (a - 2) * spc
  clusters-apart a b la lb ne = elim (Bool-cases (ltb a b)) [
    | inl e ↦
        let less : a < b = ground arith in
        let step : suc (a - 2) * spc ≤ (b - 2) * spc = mul-le-mul_right spc (omega arith) in
        inl (omega (arith, step, suc-mul (a - 2) spc))
    | inr e ↦
        let more : b ≤ a = ground arith in
        let step : suc (b - 2) * spc ≤ (a - 2) * spc =
          mul-le-mul_right spc (omega (arith, more, λ (q : a ≡ b). ne q)) in
        inr (omega (arith, step, suc-mul (b - 2) spc))
  ]

  pub moved :
      (d' : Drive)
      → IsTable v d'
      → ((k : ℕ) → d'.unreadable k ≡ d.unreadable k)
      → ((k : ℕ) → d'.unwritable k ≡ d.unwritable k)
      → IsVolume v d'
  moved d' table unreadable unwritable = record {
    table = table;
    clusters = ok.clusters;
    sector_bytes = ok.sector_bytes;
    some_sectors = ok.some_sectors;
    few_sectors = ok.few_sectors;
    apart = ok.apart;
    fits = ok.fits;
    readable = λ k low high. unreadable k ∙ ok.readable k low high;
    writable = λ k low high. unwritable k ∙ ok.writable k low high;
  }

-- A drive with the same sectors before the clusters, and the same failures, has the same table.
module _ (v : Volume) (d d' : Drive) (ok : IsVolume v d)
    (sectors : (k : ℕ) → k < v.data_lba → d'.sectors k ≡ d.sectors k)
    (unreadable : (k : ℕ) → d'.unreadable k ≡ d.unreadable k)
    (unwritable : (k : ℕ) → d'.unwritable k ≡ d.unwritable k) where
  pub same-IsTable : IsTable v d'
  same-IsTable = record {
    small = ok.table.small;
    fits = ok.table.fits;
    readable = λ s less. unreadable (v.fat_lba + s) ∙ ok.table.readable s less;
    writable = λ s less. unwritable (v.fat_lba + s) ∙ ok.table.writable s less;
    full = λ s less.
        ap length (sectors (v.fat_lba + s) (omega (arith, less, ok.apart))) ∙ ok.table.full s less;
  }

  pub same_entry : (c : ℕ) → c < entries v → entry v d' c ≡ entry v d c
  same_entry c less =
      next_entry v d' same-IsTable c less
      ∙ ap (λ b. masked (word b (c % 128 * 4)))
          (sectors (v.fat_lba + c / 128) (omega (arith, ok.apart)))
      ∙ sym (next_entry v d ok.table c less)

-- What linking does, if there is a cluster before.
pub record IsLinked (prev cl : ℕ) (v : Volume) (d d' : Drive) : Type 0 where
  pub table : IsTable v d'
  pub link : prev ≢ 0 → entry v d' prev ≡ cl
  pub kept : (c : ℕ) → c < entries v → c ≢ prev → entry v d' c ≡ entry v d c
  pub others : (k : ℕ) → v.fat_lba + 2 * v.sectors_per_fat ≤ k → d'.sectors k ≡ d.sectors k
  pub unreadable : (k : ℕ) → d'.unreadable k ≡ d.unreadable k
  pub unwritable : (k : ℕ) → d'.unwritable k ≡ d.unwritable k

pub linked-IsLinked :
    (prev cl : ℕ) (v : Volume) (d : Drive)
    → IsTable v d
    → prev < entries v ⊎ prev ≡ 0
    → cl < 2 ^ 28
    → IsLinked prev cl v d (linked prev cl v d)
linked-IsLinked prev cl v d ok within small = elim (Bool-cases (prev == 0)) [
  | inl e ↦
      let none_before : prev ≡ 0 = ground arith in
      rw e (record {
        table = ok;
        link = λ ne. elim (ne none_before) [ ];
        kept = λ c less ne. refl;
        others = λ k far. refl;
        unreadable = λ k. refl;
        unwritable = λ k. refl;
      })
  | inr e ↦
      let some_before : prev ≢ 0 = ==false→≢ prev 0 e in
      let less : prev < entries v = elim within [ inl h ↦ h | inr h ↦ elim (some_before h) [ ] ] in
      let stored = fat32_write_fat-IsStored prev cl v d ok less in
      let (table, after) = fat32_next_cluster-fat32_write_fat prev cl v d ok less in
      let whole : masked cl ≡ cl = omega arith in
      rw e (record {
        table = table;
        link = λ _. after prev less ∙ (rw (==-refl prev) whole);
        kept = λ c inside ne. after c inside ∙ (rw (≢→==false c prev ne) refl);
        others = λ k far. stored.others k (λ q. omega (arith, q, far)) (λ q. omega (arith, q, far));
        unreadable = stored.unreadable;
        unwritable = stored.unwritable;
      })
]
