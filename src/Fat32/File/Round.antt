-- ===== src/Fat32/File/Round.antt =====
-- One round of a new chain.
use gecko_os.Prelude.{
  ℕ, ◌+◌, ◌-◌, ◌*◌, ◌/◌, ◌%◌, ◌≤◌, ◌<◌, ◌≡◌, ◌≢◌, ◌⊎◌, refl, sym, ap, ◌∙◌, inl, inr, List, arith,
  drop, get_or, ==-refl, ≢→==false,
}
use gecko_os.Fat32.{Drive, Volume, cluster_eoc}
use gecko_os.Fat32.Fat.{fat32_alloc_cluster}
use gecko_os.Fat32.Fat.Allocate.{IsTaken}
use gecko_os.Fat32.File.{Filled, fill_sectors, linked}
use gecko_os.Fat32.File.Sectors.{sector_byte}
use gecko_os.Fat32.File.Fill.{IsFilled, fill_sectors-IsFilled}
use gecko_os.Fat32.File.Chain.{
  IsVolume, entry, entries, first_sector, cluster-fits, clusters-apart, moved, same-IsTable,
  same_entry, IsLinked, linked-IsLinked,
}

-- From one drive to a later one, the entries in use but that of `prev`, and the data of the clusters in use, are kept.
pub record IsGrown (prev : ℕ) (v : Volume) (d d' : Drive) : Type 0 where
  pub volume : IsVolume v d'
  pub entry_kept : (c : ℕ) → c < entries v → entry v d c ≢ 0 → c ≢ prev → entry v d' c ≡ entry v d c
  pub data_kept :
      (c s : ℕ)
      → 2 ≤ c
      → c < entries v
      → entry v d c ≢ 0
      → s < v.bpb.sectors_per_cluster
      → d'.sectors (first_sector v c + s) ≡ d.sectors (first_sector v c + s)

-- A new cluster behind `prev`, with the first bytes of the content.
pub record IsAdded (prev cl : ℕ) (content : List ℕ) (v : Volume) (d d' : Drive) : Type 0 where
  pub grown : IsGrown prev v d d'
  pub low : 2 ≤ cl
  pub high : cl < entries v
  pub free : entry v d cl ≡ 0
  pub used : entry v d' cl ≡ cluster_eoc
  pub link : prev ≢ 0 → entry v d' prev ≡ cl
  pub filled :
      (o : ℕ)
      → o < 512 * v.bpb.sectors_per_cluster
      → sector_byte (first_sector v cl) d' o ≡ get_or content o 0

-- The cluster before, if there is one, is in use.
abbrev pub Before : (prev : ℕ) → Volume → Drive → Type 0
Before prev v d = ((prev < entries v) × (entry v d prev ≢ 0)) ⊎ (prev ≡ 0)

module _ (prev cl : ℕ) (content : List ℕ) (v : Volume) (d : Drive) (ok : IsVolume v d)
    (before : Before prev v d) (taken : IsTaken cl v d (fat32_alloc_cluster v d)) where
  abbrev pub marked : Drive
  marked = (fat32_alloc_cluster v d).drive

  abbrev pub joined : Drive
  joined = linked prev cl v marked

  abbrev pub part : Filled
  part = fill_sectors v.bpb.sectors_per_cluster (first_sector v cl) content joined

  abbrev joining : IsLinked prev cl v marked joined
  joining =
      linked-IsLinked prev cl v marked taken.table
        (elim before [ inl (less, _) ↦ inl less | inr z ↦ inr z ])
        (omega (arith, taken.high, ok.clusters))

  abbrev space :
      (cl - 2) * v.bpb.sectors_per_cluster + v.bpb.sectors_per_cluster
      ≤ entries v * v.bpb.sectors_per_cluster
  space = cluster-fits v d ok cl taken.low taken.high

  filling : IsFilled v.bpb.sectors_per_cluster (first_sector v cl) content joined part
  filling =
      fill_sectors-IsFilled v.bpb.sectors_per_cluster (first_sector v cl) content joined
        (omega (arith, space, ok.fits))
        (λ s less.
          joining.unwritable (first_sector v cl + s)
          ∙ taken.unwritable (first_sector v cl + s)
          ∙ ok.writable (first_sector v cl + s) (omega arith) (omega (arith, space, less)))

  pub part-content : part.content ≡ drop (512 * v.bpb.sectors_per_cluster) content
  part-content = filling.behind

  unreadable : (k : ℕ) → part.drive.unreadable k ≡ d.unreadable k
  unreadable k = filling.unreadable k ∙ joining.unreadable k ∙ taken.unreadable k

  unwritable : (k : ℕ) → part.drive.unwritable k ≡ d.unwritable k
  unwritable k = filling.unwritable k ∙ joining.unwritable k ∙ taken.unwritable k

  abbrev joined-IsVolume : IsVolume v joined
  joined-IsVolume =
      moved v d ok joined joining.table (λ k. joining.unreadable k ∙ taken.unreadable k)
        (λ k. joining.unwritable k ∙ taken.unwritable k)

  before_clusters : (k : ℕ) → k < v.data_lba → part.drive.sectors k ≡ joined.sectors k
  before_clusters k less = filling.outside k (inl (omega (arith, less)))

  entry_after : (c : ℕ) → c < entries v → entry v part.drive c ≡ entry v joined c
  entry_after =
      same_entry v joined part.drive joined-IsVolume before_clusters filling.unreadable
        filling.unwritable

  not_taken : (c : ℕ) → entry v d c ≢ 0 → c ≢ cl
  not_taken c full e = full (ap (entry v d) e ∙ taken.free)

  data_after :
      (c s : ℕ)
      → 2 ≤ c
      → c < entries v
      → entry v d c ≢ 0
      → s < v.bpb.sectors_per_cluster
      → part.drive.sectors (first_sector v c + s) ≡ d.sectors (first_sector v c + s)
  data_after c s low high full less =
      let k = first_sector v c + s in
      let apart = clusters-apart v d ok c cl low taken.low (not_taken c full) in
      let behind : v.fat_lba + 2 * v.sectors_per_fat ≤ k = omega (arith, ok.apart) in
      filling.outside k (omega (arith, apart, less))
      ∙ joining.others k behind
      ∙ taken.others k behind

  pub not_before : cl ≢ prev
  not_before e = elim before [
    | inl (_, full) ↦ full (ap (entry v d) (sym e) ∙ taken.free)
    | inr z ↦ omega (arith, e, z, taken.low)
  ]

  pub in_table : prev ≢ 0 → prev < entries v
  in_table some_before = elim before [ inl (less, _) ↦ less | inr z ↦ elim (some_before z) [ ] ]

  pub round-IsAdded : IsAdded prev cl content v d part.drive
  round-IsAdded = record {
    grown = record {
      volume =
          moved v joined joined-IsVolume part.drive
            (same-IsTable v joined part.drive joined-IsVolume before_clusters filling.unreadable
              filling.unwritable)
            filling.unreadable filling.unwritable;
      entry_kept = λ c less full ne.
          entry_after c less
          ∙ joining.kept c less ne
          ∙ taken.entries c less
          ∙ (rw (≢→==false c cl (not_taken c full)) refl);
      data_kept = data_after;
    };
    low = taken.low;
    high = taken.high;
    free = taken.free;
    used =
        entry_after cl taken.high
        ∙ joining.kept cl taken.high not_before
        ∙ taken.entries cl taken.high
        ∙ (rw (==-refl cl) refl);
    link = λ some_before. entry_after prev (in_table some_before) ∙ joining.link some_before;
    filled = λ o inner.
        filling.inside (o / 512) (o % 512) (omega (arith, inner)) (omega arith)
        ∙ ap (λ k. get_or content k 0) (omega arith);
  }
