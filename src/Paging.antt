-- ===== src/Paging.antt =====
-- kernel/mem/virtual_mem/paging.c: four-level page tables. Memory is a function from a table's address
-- and an index to an entry, and `supply` holds the addresses that `allocate_blocks(1)` will give, NULL
-- when none is left. The invalidation of the TLB is not modelled.
pub mod Supply
pub mod Tree
pub mod Lookup
mod Tests
use gecko_os.Prelude.{
  ℕ, zero, suc, ◌+◌, ◌-◌, ◌*◌, ◌/◌, ◌%◌, ◌^◌, Bool, true, false, not, ◌&&◌, ◌||◌, Option, none,
  some, List, [], ◌∷◌, ltb, leb, ◌==◌, if◌then◌else◌,
}

abbrev pub page_size : ℕ
page_size = 4096

abbrev pub pml4_index : ℕ → ℕ
pml4_index virt = virt / 2 ^ 39 % 512

abbrev pub pdpt_index : ℕ → ℕ
pdpt_index virt = virt / 2 ^ 30 % 512

abbrev pub pd_index : ℕ → ℕ
pd_index virt = virt / 2 ^ 21 % 512

abbrev pub pt_index : ℕ → ℕ
pt_index virt = virt / 2 ^ 12 % 512

-- `e & PTE_ADDR_MASK`, bits 12 to 51.
abbrev pub pte_get_phys : ℕ → ℕ
pte_get_phys e = e / 2 ^ 12 % 2 ^ 40 * 2 ^ 12

abbrev pub pte_is_present : ℕ → Bool
pte_is_present e = e % 2 == 1

-- `flags & ~PTE_ADDR_MASK | PTE_PRESENT`: bits 52 to 63, 1 to 11, and bit 0 set.
abbrev pub entry_flags : ℕ → ℕ
entry_flags flags = flags / 2 ^ 52 % 2 ^ 12 * 2 ^ 52 + flags % 2 ^ 12 / 2 * 2 + 1

abbrev pub Tables : Type 0
Tables = ℕ → ℕ → ℕ

pub record Memory : Type 0 where
  pub tables : Tables
  pub supply : List ℕ

-- `pml4->entries[i] = e`
abbrev pub write : (table i e : ℕ) → Tables → Tables
write table i e m t j = if t == table && j == i then e else m t j

-- The table cleared by `memset`.
abbrev pub clear : ℕ → Tables → Tables
clear table m t j = if t == table then 0 else m t j

-- The result 0 is NULL.
unfoldable pub alloc_table : Memory → ℕ × Memory
alloc_table m = elim m.supply [
  | [] ↦ (0, m)
  | t ∷ ts ↦ (t, record m { tables = if t == 0 then m.tables else clear t m.tables; supply = ts })
]

-- `(uint64_t)table | PTE_PRESENT | PTE_WRITABLE`
abbrev pub table_entry : ℕ → ℕ
table_entry table = table / 4 * 4 + 3

-- A level of `get_pte`: the table that the entry leads to, which is made where there is none and
-- `create` is set.
unfoldable pub descend : (create : Bool) (table i : ℕ) → Memory → Option ℕ × Memory
descend create table i m =
    let made = alloc_table m in
    if pte_is_present (m.tables table i)
    then (some (pte_get_phys (m.tables table i)), m)
    else if not create
    then (none, m)
    else if made.0 == 0
    then (none, made.1)
    else (
      some (pte_get_phys (table_entry made.0)),
      record made.1 { tables = write table i (table_entry made.0) made.1.tables },
    )

-- Continues a walk with the table that was found.
abbrev pub follow : (ℕ → Memory → Option ℕ × Memory) → Option ℕ × Memory → Option ℕ × Memory
follow f r = elim r.0 [ none ↦ (none, r.1) | some t ↦ f t r.1 ]

-- The last level's table; the entry is the one at `pt_index virt` in it.
unfoldable pub get_pte : (pml4 virt : ℕ) (create : Bool) → Memory → Option ℕ × Memory
get_pte pml4 virt create m =
    follow (λ pd m2. descend create pd (pd_index virt) m2)
      (follow (λ pdpt m1. descend create pdpt (pdpt_index virt) m1)
        (descend create pml4 (pml4_index virt) m))

-- `*pte = e`
abbrev pub write_pte : (virt e : ℕ) → Option ℕ × Memory → Bool × Memory
write_pte virt e r = elim r.0 [
  | none ↦ (false, r.1)
  | some pt ↦ (true, record r.1 { tables = write pt (pt_index virt) e r.1.tables })
]

unfoldable pub vmm_map : (pml4 phys virt flags : ℕ) → Memory → Bool × Memory
vmm_map pml4 phys virt flags m =
    write_pte virt (pte_get_phys phys + entry_flags flags) (get_pte pml4 virt true m)

unfoldable pub vmm_unmap : (pml4 virt : ℕ) → Memory → Memory
vmm_unmap pml4 virt m = (write_pte virt 0 (get_pte pml4 virt false m)).1

unfoldable pub vmm_get_phys : (pml4 virt : ℕ) → Memory → ℕ
vmm_get_phys pml4 virt m = elim (get_pte pml4 virt false m).0 [
  | none ↦ 0
  | some pt ↦ let e = m.tables pt (pt_index virt) in if pte_is_present e then pte_get_phys e else 0
]

-- The loops that map `pages` pages from `phys` to `virt`; `false` at the first failure.
unfoldable pub map_pages : (pages pml4 phys virt flags : ℕ) → Memory → Bool × Memory
map_pages zero pml4 phys virt flags m = (true, m)
map_pages (suc pages) pml4 phys virt flags m =
    let (ok, m') = vmm_map pml4 phys virt flags m in
    let rest =
      map_pages pages pml4 ((phys + page_size) % 2 ^ 64) ((virt + page_size) % 2 ^ 64) flags m' in
    if ok then rest else (false, m')

-- `PTE_PRESENT | PTE_WRITABLE`, and with `PTE_CACHE_DISABLE`
abbrev pub kernel_flags : ℕ
kernel_flags = 3

abbrev pub mmio_flags : ℕ
mmio_flags = 19

-- The number of pages for a region.
abbrev pub pages_for : (size offset : ℕ) → ℕ
pages_for size offset = (size + offset + page_size - 1) % 2 ^ 64 / page_size

-- With a current table; the next free address is a part of the state, and 0 the result of a failure.
unfoldable pub mmio_map : (pml4 phys size next : ℕ) → Memory → ℕ × ℕ × Memory
mmio_map pml4 phys size next m =
    let offset = phys % page_size in
    let pages = pages_for size offset in
    let next' = (next + pages * page_size) % 2 ^ 64 in
    let (ok, m') = map_pages pages pml4 (phys - offset) next mmio_flags m in
    if pml4 == 0
    then (0, next, m)
    else if ok
    then ((next + offset) % 2 ^ 64, next', m')
    else (0, next', m')

unfoldable pub unmap_pages : (pages pml4 virt : ℕ) → Memory → Memory
unmap_pages zero pml4 virt m = m
unmap_pages (suc pages) pml4 virt m =
    unmap_pages pages pml4 ((virt + page_size) % 2 ^ 64) (vmm_unmap pml4 virt m)

-- `false` is the result -1.
unfoldable pub mmio_unmap : (pml4 virt size : ℕ) → Memory → Bool × Memory
mmio_unmap pml4 virt size m =
    let offset = virt % page_size in
    if pml4 == 0
    then (false, m)
    else (true, unmap_pages (pages_for size offset) pml4 (virt - offset) m)

-- The identity map of the first 16 MB, the framebuffer, and the kernel's own addresses; the result is
-- the new current table, `none` for `false`.
unfoldable pub vmm_init : (fb_addr fb_height fb_pitch : ℕ) → Memory → Option ℕ × Memory
vmm_init fb_addr fb_height fb_pitch m =
    let (pml4, m1) = alloc_table m in
    let start = fb_addr / page_size * page_size in
    let fb_pages = (fb_height * fb_pitch + page_size - 1) / page_size + 1 in
    let (ok1, m2) = map_pages 4096 pml4 0 0 kernel_flags m1 in
    let (ok2, m3) =
      if fb_addr == 0 then (true, m2) else map_pages fb_pages pml4 start start mmio_flags m2 in
    let (ok3, m4) = map_pages 1024 pml4 0x100000 0xFFFFFFFF80100000 kernel_flags m3 in
    if pml4 == 0
    then (none, m1)
    else if not ok1
    then (none, m2)
    else if not ok2
    then (none, m3)
    else if not ok3
    then (none, m4)
    else (some pml4, m4)
