-- ===== src/Fat32/Fat/Table.antt =====
-- Writing an entry of the table, seen from all entries.
use gecko_os.Prelude.{
  ℕ, ◌+◌, ◌*◌, ◌/◌, ◌%◌, ◌^◌, ◌≤◌, ◌<◌, ◌≡◌, ◌≢◌, ◌⊎◌, inl, inr, refl, sym, ap, ◌∙◌, true, false,
  Bool-cases, List, arith, length, ltb, ◌==◌, if◌then◌else◌, ==-refl, ≢→==false, ==false→≢,
}
use gecko_os.Fat32.{Drive, Wrote, Volume, read_sector, write_sector, store, word, u32}
use gecko_os.Fat32.Fat.{
  masked, fat32_next_cluster, put_entry, mirror, write_tables, fat32_write_fat,
}
use gecko_os.Fat32.Fat.Entries.{length-put_entry, word-put_entry, word-put_entry_ne}

-- The table has at most 2^28 entries in sectors below 2^32, which can be read and written.
pub record IsTable (v : Volume) (d : Drive) : Type 0 where
  pub small : v.sectors_per_fat ≤ 2 ^ 21
  pub fits : v.fat_lba + 2 * v.sectors_per_fat ≤ 2 ^ 32
  pub readable : (s : ℕ) → s < v.sectors_per_fat → d.unreadable (v.fat_lba + s) ≡ false
  pub writable : (s : ℕ) → s < v.sectors_per_fat → d.unwritable (v.fat_lba + s) ≡ false
  pub full : (s : ℕ) → s < v.sectors_per_fat → length (d.sectors (v.fat_lba + s)) ≡ 512

-- The same sectors but the one at `lba`, and the same failures, in the table; nothing else of the drive changes but
-- the mirror.
pub record IsStored (lba : ℕ) (buf : List ℕ) (v : Volume) (d d' : Drive) : Type 0 where
  pub unreadable : (k : ℕ) → d'.unreadable k ≡ d.unreadable k
  pub unwritable : (k : ℕ) → d'.unwritable k ≡ d.unwritable k
  pub here : d'.sectors lba ≡ buf
  pub others : (k : ℕ) → k ≢ lba → k ≢ lba + v.sectors_per_fat → d'.sectors k ≡ d.sectors k

pub write_sector-drive :
    (lba : ℕ) (buf : List ℕ) (d : Drive)
    → d.unwritable lba ≡ false
    → write_sector lba buf d ≡ record { ok = true; drive = store lba buf d }
unfolding write_sector
write_sector-drive lba buf d h = rw h refl

-- The mirror does not touch what is not its sector.
mirror-others :
    (lba : ℕ) (buf : List ℕ) (v : Volume) (w : Wrote) (k : ℕ)
    → k ≢ u32 (lba + v.sectors_per_fat)
    → (mirror lba buf v w).drive.sectors k ≡ w.drive.sectors k
unfolding write_sector
mirror-others lba buf v w k h =
    let other : (k == u32 (lba + v.sectors_per_fat)) ≡ false =
      ≢→==false k (u32 (lba + v.sectors_per_fat)) h in
    elim (Bool-cases (ltb 1 v.bpb.num_fats)) [
      | inr single ↦ rw single refl
      | inl double ↦ elim (Bool-cases (w.drive.unwritable (u32 (lba + v.sectors_per_fat)))) [
        | inl bad ↦ rw (double, bad) refl
        | inr good ↦ rw (double, good, other) refl
      ]
    ]

mirror-failures :
    (lba : ℕ) (buf : List ℕ) (v : Volume) (w : Wrote) (k : ℕ)
    → ((mirror lba buf v w).drive.unreadable k ≡ w.drive.unreadable k)
      × ((mirror lba buf v w).drive.unwritable k ≡ w.drive.unwritable k)
unfolding write_sector
mirror-failures lba buf v w k = elim (Bool-cases (ltb 1 v.bpb.num_fats)) [
  | inr single ↦ rw single (refl, refl)
  | inl double ↦ elim (Bool-cases (w.drive.unwritable (u32 (lba + v.sectors_per_fat)))) [
    | inl bad ↦ rw (double, bad) (refl, refl)
    | inr good ↦ rw (double, good) (refl, refl)
  ]
]

-- A sector of the table and its mirror are written.
pub mirror-IsStored :
    (lba : ℕ) (buf : List ℕ) (v : Volume) (d : Drive)
    → 0 < v.sectors_per_fat
    → lba + v.sectors_per_fat < 2 ^ 32
    → IsStored lba buf v d (mirror lba buf v (record { ok = true; drive = store lba buf d })).drive
mirror-IsStored lba buf v d some_sectors fits =
    let w : Wrote = record { ok = true; drive = store lba buf d } in
    let whole : u32 (lba + v.sectors_per_fat) ≡ lba + v.sectors_per_fat = omega arith in
    record {
      unreadable = λ k. (mirror-failures lba buf v w k).0;
      unwritable = λ k. (mirror-failures lba buf v w k).1;
      here = mirror-others lba buf v w lba (λ e. omega (arith, whole)) ∙ (rw (==-refl lba) refl);
      others = λ k ne far.
          mirror-others lba buf v w k (λ e. far (e ∙ whole)) ∙ (rw (≢→==false k lba ne) refl);
    }

pub write_tables-IsStored :
    (lba : ℕ) (buf : List ℕ) (v : Volume) (d : Drive)
    → d.unwritable lba ≡ false
    → 0 < v.sectors_per_fat
    → lba + v.sectors_per_fat < 2 ^ 32
    → IsStored lba buf v d (write_tables lba buf v d).drive
unfolding write_tables
write_tables-IsStored lba buf v d good some_sectors fits =
    rw (write_sector-drive lba buf d good) (mirror-IsStored lba buf v d some_sectors fits)

module _ (v : Volume) (d : Drive) (ok : IsTable v d) where
  -- The entry of a cluster, in its sector.
  pub next_entry :
      (c : ℕ)
      → c < 128 * v.sectors_per_fat
      → fat32_next_cluster c v d ≡ masked (word (d.sectors (v.fat_lba + c / 128)) (c % 128 * 4))
  unfolding fat32_next_cluster read_sector
  next_entry c h =
      let sector : u32 (v.fat_lba + u32 (c * 4) / 512) ≡ v.fat_lba + c / 128 =
        omega (arith, ok.small, ok.fits) in
      let offset : u32 (c * 4) % 512 ≡ c % 128 * 4 = omega (arith, ok.small) in
      rw (sector, ok.readable (c / 128) (omega arith))
        (ap (λ i. masked (word (d.sectors (v.fat_lba + c / 128)) i)) offset)

  module _ (d' : Drive) (s : ℕ) (buf : List ℕ) (h : s < v.sectors_per_fat)
      (stored : IsStored (v.fat_lba + s) buf v d d') where
    pub stored-IsTable : length buf ≡ 512 → IsTable v d'
    stored-IsTable size = record {
      small = ok.small;
      fits = ok.fits;
      readable = λ t less. stored.unreadable (v.fat_lba + t) ∙ ok.readable t less;
      writable = λ t less. stored.unwritable (v.fat_lba + t) ∙ ok.writable t less;
      full = λ t less. elim (Bool-cases (t == s)) [
        | inl same ↦
            let e : t ≡ s = ground arith in
            ap (λ k. length (d'.sectors (v.fat_lba + k))) e ∙ ap length stored.here ∙ size
        | inr other ↦
            let e : t ≢ s = ==false→≢ t s other in
            ap length
              (stored.others (v.fat_lba + t) (λ q. e (omega (arith, q))) (λ q. omega (arith, q)))
            ∙ ok.full t less
      ];
    }

module _ (v : Volume) (d : Drive) (ok : IsTable v d) (d' : Drive) (s e value : ℕ)
    (h : s < v.sectors_per_fat) (inner : e < 128)
    (stored : IsStored
      (v.fat_lba + s)
      (put_entry (e * 4) value (d.sectors (v.fat_lba + s)))
      v
      d
      d') where
  abbrev old : List ℕ
  old = d.sectors (v.fat_lba + s)

  pub put_entry-IsTable : IsTable v d'
  put_entry-IsTable =
      stored-IsTable v d ok d' s (put_entry (e * 4) value old) h stored
        (length-put_entry (e * 4) value old ∙ ok.full s h)

  -- The entry in the sector that was written, and in another.
  same_sector :
      (c : ℕ)
      → c < 128 * v.sectors_per_fat
      → c / 128 ≡ s
      → fat32_next_cluster c v d' ≡ masked (word (put_entry (e * 4) value old) (c % 128 * 4))
  same_sector c less here =
      next_entry v d' put_entry-IsTable c less
      ∙ ap (λ t. masked (word (d'.sectors (v.fat_lba + t)) (c % 128 * 4))) here
      ∙ ap (λ b. masked (word b (c % 128 * 4))) stored.here

  other_sector :
      (c : ℕ)
      → c < 128 * v.sectors_per_fat
      → c / 128 ≢ s
      → fat32_next_cluster c v d' ≡ fat32_next_cluster c v d
  other_sector c less ne =
      next_entry v d' put_entry-IsTable c less
      ∙ ap (λ b. masked (word b (c % 128 * 4)))
          (stored.others (v.fat_lba + c / 128) (λ q. ne (omega (arith, q))) (λ q. omega (arith, q)))
      ∙ sym (next_entry v d ok c less)

  -- An entry is written in its sector, and no other is changed.
  pub put_entry-next :
      (c : ℕ)
      → c < 128 * v.sectors_per_fat
      → fat32_next_cluster c v d'
        ≡ (if c == s * 128 + e then masked value else fat32_next_cluster c v d)
  put_entry-next c less = elim (Bool-cases (c / 128 == s)) [
    | inr apart ↦
        let test : (c == s * 128 + e) ≡ false = ground arith in
        rw test (other_sector c less (==false→≢ (c / 128) s apart))
    | inl together ↦
        let here : c / 128 ≡ s = ground arith in
        elim (Bool-cases (c % 128 == e)) [
          | inl same ↦
              let test : (c == s * 128 + e) ≡ true = ground arith in
              let place : c % 128 * 4 ≡ e * 4 = ground arith in
              rw test (
                same_sector c less here
                ∙ ap (λ i. masked (word (put_entry (e * 4) value old) i)) place
                ∙ word-put_entry (e * 4) value old (omega (arith, ok.full s h)))
          | inr other ↦
              let test : (c == s * 128 + e) ≡ false = ground arith in
              let apart : (c % 128 * 4 + 4 ≤ e * 4) ⊎ (e * 4 + 4 ≤ c % 128 * 4) = ground arith in
              rw test (
                same_sector c less here
                ∙ ap masked (word-put_entry_ne (e * 4) value old (c % 128 * 4) apart)
                ∙ ap (λ t. masked (word (d.sectors (v.fat_lba + t)) (c % 128 * 4))) (sym here)
                ∙ sym (next_entry v d ok c less))
        ]
  ]

-- The drive behind `fat32_write_fat`.
pub fat32_write_fat-IsStored :
    (c value : ℕ) (v : Volume) (d : Drive)
    → IsTable v d
    → c < 128 * v.sectors_per_fat
    → IsStored
        (v.fat_lba + c / 128)
        (put_entry (c % 128 * 4) value (d.sectors (v.fat_lba + c / 128)))
        v
        d
        (fat32_write_fat c value v d).drive
unfolding fat32_write_fat read_sector
fat32_write_fat-IsStored c value v d ok less =
    let s = c / 128 in
    let sector : u32 (v.fat_lba + u32 (c * 4) / 512) ≡ v.fat_lba + s =
      omega (arith, ok.small, ok.fits) in
    let offset : u32 (c * 4) % 512 ≡ c % 128 * 4 = omega (arith, ok.small) in
    let buf = put_entry (c % 128 * 4) value (d.sectors (v.fat_lba + s)) in
    rw (sector, ok.readable s (omega arith))
      (rw (sector, offset)
        (write_tables-IsStored (v.fat_lba + s) buf v d (ok.writable s (omega arith)) (omega arith)
          (omega (arith, ok.fits))))

-- On a drive whose table can be read and written, `fat32_write_fat` gives the cluster's entry the 28 bits of the
-- value, changes no other entry, and leaves the table so.
pub fat32_next_cluster-fat32_write_fat :
    (c value : ℕ) (v : Volume) (d : Drive)
    → IsTable v d
    → c < 128 * v.sectors_per_fat
    → IsTable v (fat32_write_fat c value v d).drive
      × ((k : ℕ)
          → k < 128 * v.sectors_per_fat
          → fat32_next_cluster k v (fat32_write_fat c value v d).drive
            ≡ (if k == c then masked value else fat32_next_cluster k v d))
fat32_next_cluster-fat32_write_fat c value v d ok less =
    let stored = fat32_write_fat-IsStored c value v d ok less in
    let d' = (fat32_write_fat c value v d).drive in
    let whole : c / 128 * 128 + c % 128 ≡ c = omega arith in
    (
      put_entry-IsTable v d ok d' (c / 128) (c % 128) value (omega arith) (omega arith) stored,
      (λ k inside.
          put_entry-next v d ok d' (c / 128) (c % 128) value (omega arith) (omega arith) stored k
            inside
          ∙ ap (λ n. if k == n then masked value else fat32_next_cluster k v d) whole),
    )
