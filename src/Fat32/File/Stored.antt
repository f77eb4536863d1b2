-- ===== src/Fat32/File/Stored.antt =====
-- What a new chain holds.
use gecko_os.Prelude.{
  ℕ, zero, suc, ◌+◌, ◌*◌, ◌/◌, ◌%◌, ◌≤◌, ◌<◌, ◌≡◌, ◌≢◌, refl, sym, ap, ◌∙◌, subst, inl, inr,
  Bool-cases, List, arith, drop, get_or, ◌==◌, if◌then◌else◌, ≢→==false, ==false→≢,
}
use native.Mathlib.Nat.{suc-mul}
use gecko_os.Fat32.{Drive, Volume, byte}
use gecko_os.Fat32.Fat.{Allocated, fat32_alloc_cluster}
use gecko_os.Fat32.Fat.Allocate.{IsTaken, fat32_alloc_cluster_cases}
use gecko_os.Fat32.File.{chain_clusters}
use gecko_os.Fat32.File.Sectors.{sector_byte}
use gecko_os.Fat32.File.Read.{cluster_at}
use gecko_os.Fat32.File.Fill.{get_or-drop}
use gecko_os.Fat32.File.Chain.{IsVolume, entry, entries, first_sector, cluster_to_lba_lem}
use gecko_os.Fat32.File.Round.{
  IsGrown, IsAdded, Before, part, part-content, not_before, in_table, round-IsAdded,
}

-- The cluster `q` steps on from `cl` is one of the table, and holds its part of the content.
pub record IsHolding (q cl : ℕ) (content : List ℕ) (v : Volume) (d : Drive) : Type 0 where
  pub low : 2 ≤ cluster_at q cl v d
  pub high : cluster_at q cl v d < entries v
  pub bytes :
      (o : ℕ)
      → o < 512 * v.bpb.sectors_per_cluster
      → sector_byte (first_sector v (cluster_at q cl v d)) d o
        ≡ get_or content (q * (512 * v.bpb.sectors_per_cluster) + o) 0

-- What the rest of a successful run has made: nothing, or a chain behind `prev`.
pub ChainFrom : (left first prev : ℕ) → (content : List ℕ) → Volume → Allocated → Type 0
ChainFrom zero first prev content v a = a.cluster ≡ first
ChainFrom (suc left) first prev content v a =
    (cl : ℕ) × (prev ≢ 0 → entry v a.drive prev ≡ cl)
    × ((q : ℕ) → q < suc left → IsHolding q cl content v a.drive)
    × (a.cluster ≡ (if first == 0 then cl else first))

pub all-IsHolding :
    (left q : ℕ) (content : List ℕ) (v : Volume) (a : Allocated)
    → ChainFrom left 0 0 content v a
    → q < left
    → IsHolding q a.cluster content v a.drive
unfolding ChainFrom
all-IsHolding zero q content v a rest less = absurd (omega (arith, less))
all-IsHolding (suc left) q content v a (cl, link, holding, result) less =
    subst (λ c. IsHolding q c content v a.drive) (sym result) (holding q less)

shifted :
    (q cl : ℕ) (content : List ℕ) (v : Volume) (d : Drive)
    → IsHolding q (entry v d cl) (drop (512 * v.bpb.sectors_per_cluster) content) v d
    → IsHolding (suc q) cl content v d
unfolding cluster_at
shifted q cl content v d holding =
    let size = 512 * v.bpb.sectors_per_cluster in
    record {
      low = holding.low;
      high = holding.high;
      bytes = λ o inner.
          holding.bytes o inner
          ∙ get_or-drop 0 size (q * size + o) content
          ∙ ap (λ k. get_or content k 0) (omega (arith, suc-mul q size));
    }

-- A cluster before a chain makes a longer one.
longer :
    (left q first cl : ℕ) (content : List ℕ) (v : Volume) (a : Allocated)
    → IsHolding 0 cl content v a.drive
    → cl ≢ 0
    → q < suc left
    → ChainFrom left first cl (drop (512 * v.bpb.sectors_per_cluster) content) v a
    → IsHolding q cl content v a.drive
unfolding ChainFrom
longer left zero first cl content v a here ne less rest = here
longer zero (suc q) first cl content v a here ne less rest = absurd (omega (arith, less))
longer (suc left) (suc q) first cl content v a here ne less (next, link, holding, _) =
    shifted q cl content v a.drive (
      subst (λ n. IsHolding q n (drop (512 * v.bpb.sectors_per_cluster) content) v a.drive)
        (sym (link ne)) (holding q (omega (arith, less))))

-- The result is the first cluster of the chain.
first_of :
    (left first cl : ℕ) (content : List ℕ) (v : Volume) (a : Allocated)
    → first ≢ 0
    → ChainFrom left first cl content v a
    → a.cluster ≡ first
unfolding ChainFrom
first_of zero first cl content v a ne rest = rest
first_of (suc left) first cl content v a ne (next, link, holding, result) =
    result ∙ (rw (≢→==false first 0 ne) refl)

-- Growing twice.
IsGrown-twice :
    (prev cl : ℕ) (content : List ℕ) (v : Volume) (d middle d' : Drive)
    → IsAdded prev cl content v d middle
    → IsGrown cl v middle d'
    → IsGrown prev v d d'
IsGrown-twice prev cl content v d middle d' added rest =
    let not_new : (c : ℕ) → entry v d c ≢ 0 → c ≢ cl =
      λ c full e. full (ap (entry v d) e ∙ added.free) in
    record {
      volume = rest.volume;
      entry_kept = λ c less full ne.
          let same = added.grown.entry_kept c less full ne in
          rest.entry_kept c less (λ z. full (sym same ∙ z)) (not_new c full) ∙ same;
      data_kept = λ c s low high full inner.
          rest.data_kept c s low high
            (λ z. elim (Bool-cases (c == prev)) [
              | inl e ↦
                  let same : c ≡ prev = ground arith in
                  let linked_to = added.link (λ q. omega (arith, q, same, low)) in
                  omega (arith, added.low, sym linked_to ∙ ap (entry v middle) (sym same) ∙ z)
              | inr e ↦ full (sym (added.grown.entry_kept c high full (==false→≢ c prev e)) ∙ z)
            ])
            inner
          ∙ added.grown.data_kept c s low high full inner;
    }

module _ (left first prev cl : ℕ) (content : List ℕ) (v : Volume) (d : Drive) (ok : IsVolume v d)
    (before : Before prev v d) (taken : IsTaken cl v d (fat32_alloc_cluster v d)) where
  abbrev next_drive : Drive
  next_drive = (part prev cl content v d ok before taken).drive

  abbrev first_after : ℕ
  first_after = if first == 0 then cl else first

  abbrev content_after : List ℕ
  content_after = drop (512 * v.bpb.sectors_per_cluster) content

  not_zero : cl ≢ 0
  not_zero e = omega (arith, e, taken.low)

  chain_step :
      chain_clusters (suc left) first prev content v d
      ≡ chain_clusters left first_after cl content_after v next_drive
  unfolding chain_clusters
  chain_step =
      rw (taken.cluster, ≢→==false cl 0 not_zero, cluster_to_lba_lem v d ok cl taken.low taken.high)
        (ap (λ c. chain_clusters left first_after cl c v next_drive)
          (part-content prev cl content v d ok before taken))

  first_after_ne : first_after ≢ 0
  first_after_ne z = elim (Bool-cases (first == 0)) [
    | inl e ↦ not_zero ((rw e refl) ∙ z)
    | inr e ↦ ==false→≢ first 0 e ((rw e refl) ∙ z)
  ]

  abbrev added : IsAdded prev cl content v d next_drive
  added = round-IsAdded prev cl content v d ok before taken

  in_use : entry v next_drive cl ≢ 0
  in_use z = omega (arith, sym added.used ∙ z)

  still-IsHolding :
      (a : Allocated) → IsGrown cl v next_drive a.drive → IsHolding 0 cl content v a.drive
  unfolding cluster_at
  still-IsHolding a grown = record {
    low = taken.low;
    high = taken.high;
    bytes = λ o inner.
        let place : 0 * (512 * v.bpb.sectors_per_cluster) + o ≡ o = omega arith in
        ap (λ b. byte b (o % 512))
          (grown.data_kept cl (o / 512) taken.low taken.high in_use (omega (arith, inner)))
        ∙ added.filled o inner
        ∙ ap (λ k. get_or content k 0) (sym place);
  }

  -- The rest of the run, behind this round.
  chain_round :
      (a : Allocated)
      → IsGrown cl v next_drive a.drive
      → ChainFrom left first_after cl content_after v a
      → IsGrown prev v d a.drive × ChainFrom (suc left) first prev content v a
  unfolding ChainFrom
  chain_round a grown rest =
      let here = still-IsHolding a grown in
      (
        IsGrown-twice prev cl content v d next_drive a.drive added grown,
        (
          cl,
          (λ some_before.
              let linked_to = added.link some_before in
              grown.entry_kept prev (in_table prev cl content v d ok before taken some_before)
                (λ z. not_zero (sym linked_to ∙ z))
                (λ e. not_before prev cl content v d ok before taken (sym e))
              ∙ linked_to),
          (λ q less. longer left q first_after cl content v a here not_zero less rest),
          first_of left first_after cl content_after v a first_after_ne rest,
        ),
      )

chain_fails :
    (left first prev : ℕ) (content : List ℕ) (v : Volume) (d : Drive)
    → fat32_alloc_cluster v d ≡ record { cluster = 0; drive = d }
    → (chain_clusters (suc left) first prev content v d).cluster ≡ 0
unfolding chain_clusters
chain_fails left first prev content v d run = rw run refl

-- A run that does not fail, from a cluster in use or none.
pub chain_clusters_lem :
    (left first prev : ℕ) (content : List ℕ) (v : Volume) (d : Drive)
    → IsVolume v d
    → Before prev v d
    → (chain_clusters left first prev content v d).cluster ≢ 0
    → IsGrown prev v d (chain_clusters left first prev content v d).drive
      × ChainFrom left first prev content v (chain_clusters left first prev content v d)
unfolding chain_clusters ChainFrom
chain_clusters_lem zero first prev content v d ok before done = (
  record {
    volume = ok;
    entry_kept = λ c less full ne. refl;
    data_kept = λ c s low high full less. refl;
  },
  refl,
)
chain_clusters_lem (suc left) first prev content v d ok before done =
    elim (fat32_alloc_cluster_cases v d ok.table) [
      | inl (_, run) ↦ elim (done (chain_fails left first prev content v d run)) [ ]
      | inr (cl, taken) ↦
          let step = chain_step left first prev cl content v d ok before taken in
          let (grown, rest) =
            chain_clusters_lem left (first_after left first prev cl content v d ok before taken) cl
              (content_after left first prev cl content v d ok before taken) v
              (next_drive left first prev cl content v d ok before taken)
              (added left first prev cl content v d ok before taken).grown.volume
              (inl (taken.high, in_use left first prev cl content v d ok before taken))
              (λ z. done (ap Allocated.cluster step ∙ z)) in
          subst (λ a. IsGrown prev v d a.drive × ChainFrom (suc left) first prev content v a)
            (sym step) (chain_round left first prev cl content v d ok before taken _ grown rest)
    ]
