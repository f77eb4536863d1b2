-- ===== src/Paging/Supply.antt =====
-- How many tables a mapping takes.
use gecko_os.Prelude.{
  ℕ, zero, suc, ◌+◌, ◌-◌, ◌*◌, ◌%◌, ◌^◌, ◌≤◌, ◌≡◌, ◌≢◌, refl, inl, inr, true, Option, none, some,
  List, [], ◌∷◌, arith, length, Bool-cases, ≢→==false,
}
use gecko_os.Paging.{
  Tables, Memory, pte_is_present, follow, write_pte, alloc_table, descend, get_pte, vmm_map,
  map_pages, mmio_map, pages_for, page_size, mmio_flags, pml4_index, pdpt_index, pd_index,
}

-- None of the addresses is NULL.
abbrev pub HasNoNull : List ℕ → Type 0
HasNoNull [] = Unit {0}
HasNoNull (t ∷ ts) = (t ≢ 0) × HasNoNull ts

-- A walk that has found a table, with at least `k` tables left.
abbrev Reaches : ℕ → Option ℕ × Memory → Type 0
Reaches k r = (t : ℕ) × (r.0 ≡ some t) × (k ≤ length r.1.supply) × HasNoNull r.1.supply

descend-Reaches :
    (k t i : ℕ) (tables : Tables) (supply : List ℕ)
    → suc k ≤ length supply
    → HasNoNull supply
    → Reaches k (descend true t i (record { tables = tables; supply = supply }))
unfolding descend alloc_table
descend-Reaches k t i tables [] h ok = absurd (omega arith)
descend-Reaches k t i tables (s ∷ ss) h ok = elim (Bool-cases (pte_is_present (tables t i))) [
  | inl there ↦ rw there (_, refl, omega arith, ok)
  | inr new ↦ rw (new, ≢→==false s 0 ok.0) (_, refl, omega arith, ok.1)
]

follow-Reaches :
    (k i : ℕ) (o : Option ℕ) (m : Memory)
    → Reaches (suc k) (o, m)
    → Reaches k (follow (λ t m'. descend true t i m') (o, m))
follow-Reaches k i none m (t, found, left, ok) = cc
follow-Reaches k i (some u) m (t, found, left, ok) = descend-Reaches k u i m.tables m.supply left ok

write_pte-Reaches :
    (k virt e : ℕ) (o : Option ℕ) (m : Memory)
    → Reaches k (o, m)
    → ((write_pte virt e (o, m)).0 ≡ true)
      × (k ≤ length (write_pte virt e (o, m)).1.supply)
      × HasNoNull (write_pte virt e (o, m)).1.supply
write_pte-Reaches k virt e none m (t, found, left, ok) = cc
write_pte-Reaches k virt e (some u) m (t, found, left, ok) = (refl, left, ok)

-- With at least `k + 3` blocks to come, none of them NULL: `vmm_map` succeeds, and `k` of them are
-- left.
pub vmm_map_supply :
    (k pml4 phys virt flags : ℕ) (m : Memory)
    → k + 3 ≤ length m.supply
    → HasNoNull m.supply
    → ((vmm_map pml4 phys virt flags m).0 ≡ true)
      × (k ≤ length (vmm_map pml4 phys virt flags m).1.supply)
      × HasNoNull (vmm_map pml4 phys virt flags m).1.supply
unfolding vmm_map get_pte
vmm_map_supply k pml4 phys virt flags m h ok =
    let r1 = descend true pml4 (pml4_index virt) m in
    let w1 =
      descend-Reaches (suc (suc k)) pml4 (pml4_index virt) m.tables m.supply (omega arith) ok in
    let r2 = follow (λ t m'. descend true t (pdpt_index virt) m') r1 in
    let w2 = follow-Reaches (suc k) (pdpt_index virt) r1.0 r1.1 w1 in
    let r3 = follow (λ t m'. descend true t (pd_index virt) m') r2 in
    let w3 = follow-Reaches k (pd_index virt) r2.0 r2.1 w2 in
    write_pte-Reaches k virt _ r3.0 r3.1 w3

-- With at least `k` blocks to come besides three for each page, none of them NULL: all the pages are
-- mapped, and `k` blocks are left.
pub map_pages_supply :
    (pages k pml4 phys virt flags : ℕ) (m : Memory)
    → k + 3 * pages ≤ length m.supply
    → HasNoNull m.supply
    → ((map_pages pages pml4 phys virt flags m).0 ≡ true)
      × (k ≤ length (map_pages pages pml4 phys virt flags m).1.supply)
      × HasNoNull (map_pages pages pml4 phys virt flags m).1.supply
unfolding map_pages
map_pages_supply zero k pml4 phys virt flags m h ok = (refl, omega arith, ok)
map_pages_supply (suc pages) k pml4 phys virt flags m h ok =
    let (mapped, left, ok') =
      vmm_map_supply (k + 3 * pages) pml4 phys virt flags m (omega arith) ok in
    rw mapped (map_pages_supply pages k pml4 _ _ flags (vmm_map pml4 phys virt flags m).1 left ok')

-- With a table that is not NULL, and at least three blocks to come for each page of the region, none
-- of them NULL: `mmio_map` gives the next free address plus the offset in the page, and the next free
-- address moves behind the region's pages.
pub mmio_map_supply :
    (pml4 phys size next : ℕ) (m : Memory)
    → pml4 ≢ 0
    → 3 * pages_for size (phys % page_size) ≤ length m.supply
    → HasNoNull m.supply
    → ((mmio_map pml4 phys size next m).0 ≡ (next + phys % page_size) % 2 ^ 64)
      × ((mmio_map pml4 phys size next m).1
          ≡ (next + pages_for size (phys % page_size) * page_size) % 2 ^ 64)
unfolding mmio_map
mmio_map_supply pml4 phys size next m there h ok =
    let offset = phys % page_size in
    let pages = pages_for size offset in
    let (mapped, left, ok') =
      map_pages_supply pages 0 pml4 (phys - offset) next mmio_flags m (omega arith) ok in
    rw (≢→==false pml4 0 there, mapped) (refl, refl)
