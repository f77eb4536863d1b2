-- ===== src/Fat32/Fat/Allocate.antt =====
-- The search for a free entry: against a plain search through the entries.
use gecko_os.Prelude.{
  ℕ, zero, suc, ◌+◌, ◌*◌, ◌/◌, ◌%◌, ◌≤◌, ◌<◌, ◌≡◌, ◌⊎◌, inl, inr, refl, sym, ap, ◌∙◌, subst, false,
  ◌&&◌, not, Bool-cases, Option, none, some, List, ≢→==false, arith, leb, ◌==◌, if◌then◌else◌,
}
use gecko_os.Fat32.{Drive, Volume, cluster_eoc, read_sector, word, u32}
use gecko_os.Fat32.Fat.{
  masked, fat32_next_cluster, put_entry, free_entry, Allocated, marked, alloc_from,
  fat32_alloc_cluster,
}
use gecko_os.Fat32.Fat.Table.{
  IsTable, IsStored, mirror-IsStored, next_entry, put_entry-IsTable, put_entry-next,
  write_sector-drive,
}

-- The first cluster from `c` on, among `left`, whose entry is 0; 0 if there is none. Clusters start at 2.
unfoldable pub first_free : (left c : ℕ) → (ℕ → ℕ) → ℕ
first_free zero c t = 0
first_free (suc left) c t =
    let rest = first_free left (suc c) t in if leb 2 c && t c == 0 then c else rest

abbrev pick : (base : ℕ) → Option ℕ → (rest : ℕ) → ℕ
pick base none rest = rest
pick base (some e) rest = base + e

-- A sector's search is the first part of the search through the entries.
first_free-free_entry :
    (left e base n : ℕ) (buf : List ℕ) (t : ℕ → ℕ)
    → ((k : ℕ) → e ≤ k → k < e + left → t (base + k) ≡ masked (word buf (k * 4)))
    → first_free (left + n) (base + e) t
      ≡ pick base (free_entry left e base buf) (first_free n (base + e + left) t)
unfolding first_free free_entry
first_free-free_entry zero e base n buf t same =
    let count : 0 + n ≡ n = omega arith in
    let start : base + e + 0 ≡ base + e = omega arith in rw (count, start) refl
first_free-free_entry (suc left) e base n buf t same =
    let here : t (base + e) ≡ masked (word buf (e * 4)) = same e (omega arith) (omega arith) in
    let shape : suc left + n ≡ suc (left + n) = omega arith in
    let next : suc (base + e) ≡ base + suc e = omega arith in
    let place : base + suc e + left ≡ base + e + suc left = omega arith in
    let rest =
      first_free-free_entry left (suc e) base n buf t
        (λ k low high. same k (omega (arith, low)) (omega (arith, high))) in
    elim (Bool-cases (leb 2 (base + e) && masked (word buf (e * 4)) == 0)) [
      | inl free ↦ rw (shape, here, free) refl
      | inr used ↦
          rw (shape, here, used)
            (rw next (
              rest
              ∙ ap (λ c. pick base (free_entry left (suc e) base buf) (first_free n c t)) place))
    ]

-- The entry found is one of those looked at, and free.
free_entry_cases :
    (left e base : ℕ) (buf : List ℕ)
    → (free_entry left e base buf ≡ none)
      ⊎ ((k : ℕ) × (free_entry left e base buf ≡ some k)
          × (k < e + left)
          × (2 ≤ base + k)
          × (masked (word buf (k * 4)) ≡ 0))
unfolding free_entry
free_entry_cases zero e base buf = inl refl
free_entry_cases (suc left) e base buf =
    elim (Bool-cases (leb 2 (base + e) && masked (word buf (e * 4)) == 0)) [
      | inl free ↦
          let low : 2 ≤ base + e = ground arith in
          let zero_entry : masked (word buf (e * 4)) ≡ 0 = ground arith in
          rw free (inr (e, refl, omega arith, low, zero_entry))
      | inr used ↦ rw used (elim (free_entry_cases left (suc e) base buf) [
        | inl nothing ↦ inl nothing
        | inr (k, found, high, low, free) ↦ inr (k, found, omega (arith, high), low, free)
      ])
    ]

-- Nothing free and nothing done; or a sector and an entry that are taken.
abbrev Search : (first : ℕ) (v : Volume) (d : Drive) → Allocated → Type 0
Search first v d a =
    ((first ≡ 0) × (a ≡ record { cluster = 0; drive = d }))
    ⊎ ((s : ℕ) × (e : ℕ) × (s < v.sectors_per_fat)
        × (e < 128)
        × (2 ≤ s * 128 + e)
        × (fat32_next_cluster (s * 128 + e) v d ≡ 0)
        × (first ≡ s * 128 + e)
        × (a ≡ marked s e (d.sectors (v.fat_lba + s)) v d))

-- The first free cluster `c` is taken and marked; nothing else changes outside the tables.
pub record IsTaken (c : ℕ) (v : Volume) (d : Drive) (a : Allocated) : Type 0 where
  pub low : 2 ≤ c
  pub high : c < 128 * v.sectors_per_fat
  pub free : fat32_next_cluster c v d ≡ 0
  pub first : first_free (128 * v.sectors_per_fat) 0 (λ n. fat32_next_cluster n v d) ≡ c
  pub cluster : a.cluster ≡ c
  pub table : IsTable v a.drive
  pub entries :
      (k : ℕ)
      → k < 128 * v.sectors_per_fat
      → fat32_next_cluster k v a.drive ≡ (if k == c then cluster_eoc else fat32_next_cluster k v d)
  pub others : (k : ℕ) → v.fat_lba + 2 * v.sectors_per_fat ≤ k → a.drive.sectors k ≡ d.sectors k
  pub unreadable : (k : ℕ) → a.drive.unreadable k ≡ d.unreadable k
  pub unwritable : (k : ℕ) → a.drive.unwritable k ≡ d.unwritable k

module _ (v : Volume) (d : Drive) (ok : IsTable v d) where
  abbrev entry : ℕ → ℕ
  entry c = fat32_next_cluster c v d

  sector_entry :
      (s k : ℕ)
      → s < v.sectors_per_fat
      → k < 128
      → entry (s * 128 + k) ≡ masked (word (d.sectors (v.fat_lba + s)) (k * 4))
  sector_entry s k h inner =
      let div : (s * 128 + k) / 128 ≡ s = omega arith in
      let rem : (s * 128 + k) % 128 ≡ k = omega arith in
      next_entry v d ok (s * 128 + k) (omega arith)
      ∙ ap (λ t. masked (word (d.sectors (v.fat_lba + t)) ((s * 128 + k) % 128 * 4))) div
      ∙ ap (λ i. masked (word (d.sectors (v.fat_lba + s)) (i * 4))) rem

  alloc_from_lem :
      (left s : ℕ)
      → s + left ≡ v.sectors_per_fat
      → Search (first_free (left * 128) (s * 128) entry) v d (alloc_from left s v d)
  unfolding alloc_from read_sector first_free
  alloc_from_lem zero s h = inl (refl, refl)
  alloc_from_lem (suc left) s h =
      let buf = d.sectors (v.fat_lba + s) in
      let inside : s < v.sectors_per_fat = omega arith in
      let whole : u32 (v.fat_lba + s) ≡ v.fat_lba + s = omega (arith, ok.small, ok.fits) in
      let firsts : first_free (suc left * 128) (s * 128) entry
          ≡ pick (s * 128) (free_entry 128 0 (s * 128) buf)
              (first_free (left * 128) (suc s * 128) entry) =
        ap (λ n. first_free n (s * 128) entry) (omega arith)
        ∙ ap (λ c. first_free (128 + left * 128) c entry) (omega arith)
        ∙ first_free-free_entry 128 0 (s * 128) (left * 128) buf entry
            (λ k low high. sector_entry s k inside high)
        ∙ ap
            (λ c. pick (s * 128) (free_entry 128 0 (s * 128) buf) (first_free (left * 128) c entry))
            (omega arith) in
      rw (firsts, whole, ok.readable s inside)
        (elim (free_entry_cases 128 0 (s * 128) buf) [
          | inl nothing ↦ rw nothing (alloc_from_lem left (suc s) (omega (arith, h)))
          | inr (e, found, high, low, free) ↦
              rw found
                (inr (s, e, inside, high, low, sector_entry s e inside high ∙ free, refl, refl))
        ])

  module _ (s e : ℕ) (inside : s < v.sectors_per_fat) (inner : e < 128) where
    abbrev taken : List ℕ
    taken = put_entry (e * 4) cluster_eoc (d.sectors (v.fat_lba + s))

    marked-IsStored :
        ((marked s e (d.sectors (v.fat_lba + s)) v d).cluster ≡ s * 128 + e)
        × IsStored (v.fat_lba + s) taken v d (marked s e (d.sectors (v.fat_lba + s)) v d).drive
    marked-IsStored =
        let whole : u32 (v.fat_lba + s) ≡ v.fat_lba + s = omega (arith, ok.small, ok.fits) in
        rw (whole, write_sector-drive (v.fat_lba + s) taken d (ok.writable s inside))
          (refl, mirror-IsStored (v.fat_lba + s) taken v d (omega arith) (omega (arith, ok.fits)))

  -- What a search gives: nothing, or a free cluster of the table, marked as the end of a chain.
  pub fat32_alloc_cluster_cases :
      ((first_free (128 * v.sectors_per_fat) 0 entry ≡ 0)
        × (fat32_alloc_cluster v d ≡ record { cluster = 0; drive = d }))
      ⊎ ((c : ℕ) × IsTaken c v d (fat32_alloc_cluster v d))
  unfolding fat32_alloc_cluster
  fat32_alloc_cluster_cases =
      let turn : 128 * v.sectors_per_fat ≡ v.sectors_per_fat * 128 = omega arith in
      rw turn (elim (alloc_from_lem v.sectors_per_fat 0 (omega arith)) [
        | inl (nothing, run) ↦ inl (nothing, run)
        | inr (s, e, inside, inner, low, free, first, run) ↦
            let (cluster, stored) = marked-IsStored s e inside inner in
            let d' = (marked s e (d.sectors (v.fat_lba + s)) v d).drive in
            inr (
              s * 128 + e,
              record {
                low = low;
                high = omega arith;
                free = free;
                first = ap (λ n. first_free n 0 entry) turn ∙ first;
                cluster = ap Allocated.cluster run ∙ cluster;
                table =
                    subst (λ a. IsTable v a.drive) (sym run)
                      (put_entry-IsTable v d ok d' s e cluster_eoc inside inner stored);
                entries = λ k less.
                    ap (λ a. fat32_next_cluster k v a.drive) run
                    ∙ put_entry-next v d ok d' s e cluster_eoc inside inner stored k
                        (omega (arith, less));
                others = λ k far.
                    ap (λ a. a.drive.sectors k) run
                    ∙ stored.others k (λ q. omega (arith, q, far)) (λ q. omega (arith, q, far));
                unreadable = λ k. ap (λ a. a.drive.unreadable k) run ∙ stored.unreadable k;
                unwritable = λ k. ap (λ a. a.drive.unwritable k) run ∙ stored.unwritable k;
              },
            )
      ])

abbrev pub taken_entry : (first k : ℕ) → (ℕ → ℕ) → ℕ
taken_entry first k t = if not (first == 0) && k == first then cluster_eoc else t k

-- On a drive whose table can be read and written, `fat32_alloc_cluster` returns the first cluster from 2 on whose
-- entry is 0, or 0 if there is none; it marks that cluster as the end of a chain, changes no other entry `k`, and
-- leaves the table so.
pub fat32_alloc_cluster_lem :
    (v : Volume) (d : Drive)
    → IsTable v d
    → (k : ℕ) → k < 128 * v.sectors_per_fat
    → ((fat32_alloc_cluster v d).cluster
        ≡ first_free (128 * v.sectors_per_fat) 0 (λ c. fat32_next_cluster c v d))
      × IsTable v (fat32_alloc_cluster v d).drive
      × (fat32_next_cluster k v (fat32_alloc_cluster v d).drive
          ≡ taken_entry
              (first_free (128 * v.sectors_per_fat) 0 (λ c. fat32_next_cluster c v d))
              k
              (λ c. fat32_next_cluster c v d))
fat32_alloc_cluster_lem v d ok k less = elim (fat32_alloc_cluster_cases v d ok) [
  | inl (nothing, run) ↦ rw (nothing, run) (refl, ok, refl)
  | inr (c, taken) ↦
      let found : (c == 0) ≡ false = ≢→==false c 0 (λ q. omega (arith, q, taken.low)) in
      rw (taken.first, found) (taken.cluster, taken.table, taken.entries k less)
]
