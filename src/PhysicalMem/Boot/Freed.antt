-- ===== src/PhysicalMem/Boot/Freed.antt =====
-- Which blocks the loops over the Multiboot2 tags leave free.
use gecko_os.Prelude.{
  ℕ, zero, suc, ◌+◌, ◌/◌, ◌<◌, ◌≡◌, ◌⊎◌, inl, inr, Bool, true, false, Option, none, some, arith,
  ltb, ◌==◌, ◌≢◌, Bool-cases, ltb→lt, ==_iff,
}
use gecko_os.PhysicalMem.{Pmm, block_size, blocks_for, to_u64, is_used, free_region}
use gecko_os.PhysicalMem.Bitmap.{IsValid}
use gecko_os.PhysicalMem.Count.{in_range}
use gecko_os.PhysicalMem.Regions.{free_region-IsReleased}
use gecko_os.PhysicalMem.Boot.{
  Ram, tag_type, tag_size, mmap_entry_size, entry_base_addr, entry_length, entry_type, tag_type_end,
  tag_type_mmap, memory_available, free_entries, next_tag,
}
use gecko_os.PhysicalMem.Boot.Tags.{free_region-IsKept}

-- The blocks that the bytes `base` to `base + size - 1` are reserved and released with.
abbrev pub region : (base size x : ℕ) → Bool
region base size x = in_range (base / block_size) (base / block_size + blocks_for size) x

-- The entry `k` behind `entry`, in the tag that ends at `limit`, is available and has the block `x`.
abbrev pub EntryHas : Ram → (limit size k entry x : ℕ) → Type 0
EntryHas m limit size zero entry x =
    (entry < limit)
    × (entry_type m entry ≡ memory_available)
    × (region (entry_base_addr m entry) (entry_length m entry) x ≡ true)
EntryHas m limit size (suc k) entry x =
    (entry < limit) × EntryHas m limit size k (to_u64 (entry + size)) x

-- The tag is a memory map with an entry that is available and has the block `x`.
abbrev pub MapHas : Ram → (tag x : ℕ) → Type 0
MapHas m tag x =
    (tag_type m tag ≡ tag_type_mmap)
    × (k : ℕ) × EntryHas m (to_u64 (tag + tag_size m tag)) (mmap_entry_size m tag) k
        (to_u64 (tag + 16)) x

-- The same of the tag `k` behind `tag`, where the tags before it are not the end.
abbrev pub TagHas : Ram → (mbi_end k tag x : ℕ) → Type 0
TagHas m mbi_end zero tag x = (tag < mbi_end) × (tag_type m tag ≢ tag_type_end) × MapHas m tag x
TagHas m mbi_end (suc k) tag x =
    (tag < mbi_end) × (tag_type m tag ≢ tag_type_end) × TagHas m mbi_end k (next_tag m tag) x

-- The memory map has the block `x` in an entry that is available.
abbrev pub IsAvailable : Ram → (mbi_end first x : ℕ) → Type 0
IsAvailable m mbi_end first x = (k : ℕ) × TagHas m mbi_end k first x

-- Between `s` and `t` the block `x` is freed exactly where `P` holds.
pub record IsFreed (P : Type 0) (s t : Pmm) (x : ℕ) : Type 0 where
  pub only : is_used t x ≡ false → (is_used s x ≡ false) ⊎ P
  pub kept : is_used s x ≡ false → is_used t x ≡ false
  pub all : P → is_used t x ≡ false

abbrev pub Frees : (P : Type 0) → Pmm → Option Pmm → ℕ → Type 0
Frees P s none x = Unit {0}
Frees P s (some t) x = IsFreed P s t x

pub Frees-nothing : (P : Type 0) (s : Pmm) (x : ℕ) → ¬ P → IsFreed P s s x
Frees-nothing P s x never = record {
  only = λ free. inl free;
  kept = λ free. free;
  all = λ p. absurd (never p);
}

pub Frees-map :
    (P Q : Type 0) (s : Pmm) (o : Option Pmm) (x : ℕ)
    → (P → Q)
    → (Q → P)
    → Frees P s o x
    → Frees Q s o x
Frees-map P Q s none x to back f = tt
Frees-map P Q s (some t) x to back f = record {
  only = λ free. elim (f.only free) [ inl before ↦ inl before | inr p ↦ inr (to p) ];
  kept = f.kept;
  all = λ q. f.all (back q);
}

pub Frees-after :
    (P Q : Type 0) (s t : Pmm) (o : Option Pmm) (x : ℕ)
    → IsFreed P s t x
    → Frees Q t o x
    → Frees (P ⊎ Q) s o x
Frees-after P Q s t none x f g = tt
Frees-after P Q s t (some u) x f g = record {
  only = λ free. elim (g.only free) [
    | inr q ↦ inr (inr q)
    | inl then_free ↦ elim (f.only then_free) [ inl before ↦ inl before | inr p ↦ inr (inl p) ]
  ];
  kept = λ free. g.kept (f.kept free);
  all = λ c. elim c [ inl p ↦ g.kept (f.all p) | inr q ↦ g.all q ];
}

module _ (m : Ram) (x : ℕ) where
  free_region-IsFreed :
      (s : Pmm) (base size : ℕ)
      → IsValid s
      → x < s.max_blocks
      → IsFreed (region base size x ≡ true) s (free_region s base size) x
  free_region-IsFreed s base size v lt =
      let marked = (free_region-IsReleased s base size v).marked x lt in
      record {
        only = λ free. elim (Bool-cases (region base size x)) [
          | inl inside ↦ inr inside
          | inr outside ↦ inl (ground (arith, marked, free, outside))
        ];
        kept = λ free. ground (arith, marked, free);
        all = λ inside. ground (arith, marked, inside);
      }

  module _ (limit size : ℕ) where
    abbrev pub EntriesHave : ℕ → Type 0
    EntriesHave entry = (k : ℕ) × EntryHas m limit size k entry x

    EntryHas-lt : (k entry : ℕ) → EntryHas m limit size k entry x → entry < limit
    EntryHas-lt zero entry h = h.0
    EntryHas-lt (suc k) entry h = h.0

    abbrev HereOrLater : (entry : ℕ) → Type 0
    HereOrLater entry =
        (region (entry_base_addr m entry) (entry_length m entry) x ≡ true)
        ⊎ EntriesHave (to_u64 (entry + size))

    split_entry :
        (k entry : ℕ)
        → EntryHas m limit size k entry x
        → ((entry_type m entry ≡ memory_available)
            × (region (entry_base_addr m entry) (entry_length m entry) x ≡ true))
          ⊎ EntriesHave (to_u64 (entry + size))
    split_entry zero entry (lt, available, inside) = inl (available, inside)
    split_entry (suc k) entry (lt, later) = inr (k, later)

    pub free_entries-Frees :
        (fuel entry : ℕ) (s : Pmm)
        → IsValid s
        → x < s.max_blocks
        → Frees (EntriesHave entry) s (free_entries fuel m limit size entry s) x
    unfolding free_entries
    free_entries-Frees zero entry s v below = tt
    free_entries-Frees (suc fuel) entry s v below = elim (Bool-cases (ltb entry limit)) [
      | inr out ↦ rw out (
          Frees-nothing (EntriesHave entry) s x
            λ h. let lt = EntryHas-lt h.0 entry h.1 in ground (arith, out, lt))
      | inl more ↦
          let lt = ltb→lt entry limit more in
          let next = to_u64 (entry + size) in
          elim (Bool-cases (entry_type m entry == memory_available)) [
            | inl available ↦
                let s' = free_region s (entry_base_addr m entry) (entry_length m entry) in
                let k = free_region-IsKept s (entry_base_addr m entry) (entry_length m entry) v in
                let max = k.max in
                rw (more, available)
                  (Frees-map (HereOrLater entry) (EntriesHave entry) s
                    (free_entries fuel m limit size next s') x
                    (λ c. elim c [
                      | inl inside ↦ (0, (lt, (==_iff _ _).0 available, inside))
                      | inr (k, later) ↦ (suc k, (lt, later))
                    ])
                    (λ h. elim (split_entry h.0 entry h.1) [
                      | inl (type, inside) ↦ inl inside
                      | inr later ↦ inr later
                    ])
                    (Frees-after _ (EntriesHave next) s s' (free_entries fuel m limit size next s')
                      x
                      (free_region-IsFreed s (entry_base_addr m entry) (entry_length m entry) v
                        below)
                      (free_entries-Frees fuel next s' k.valid (omega (arith, max, below)))))
            | inr reserved ↦
                rw (more, reserved)
                  (Frees-map (EntriesHave next) (EntriesHave entry) s
                    (free_entries fuel m limit size next s) x (λ h. (suc h.0, (lt, h.1)))
                    (λ h. elim (split_entry h.0 entry h.1) [
                      | inl (type, inside) ↦ absurd (ground (arith, reserved, type))
                      | inr later ↦ later
                    ])
                    (free_entries-Frees fuel next s v below))
          ]
    ]
