-- ===== src/Paging/Tests.antt =====
-- Runs of the page tables at a concrete memory.
use gecko_os.Prelude.{
  ℕ, ◌≢◌, ◌<◌, ◌==◌, if◌then◌else◌, ≢→==false, ◌+◌, ◌*◌, ◌%◌, ◌^◌, ◌≤◌, ◌≡◌, refl, true, false, [],
  ◌∷◌, arith, length,
}
use gecko_os.Paging.Supply.{HasNoNull, map_pages_supply, mmio_map_supply}
use gecko_os.Paging.Tree.{IsNew, IsTree}
use gecko_os.Paging.Lookup.{IsMapped, vmm_get_phys-vmm_map}
use gecko_os.Paging.{
  page_size, pages_for, Memory, alloc_table, descend, get_pte, vmm_map, vmm_unmap, vmm_get_phys,
  map_pages, mmio_map, unmap_pages, mmio_unmap,
}

abbrev empty : Memory
empty = record { tables = λ t i. 0; supply = 8192 ∷ 12288 ∷ 16384 ∷ [] }

abbrev mapped : Memory
mapped = (vmm_map 4096 20480 4194304 3 empty).1

mapped_test : vmm_get_phys 4096 4194304 mapped ≡ 20480
unfolding vmm_map vmm_get_phys get_pte descend alloc_table
mapped_test = refl

unmapped_test : vmm_get_phys 4096 4194304 (vmm_unmap 4096 4194304 mapped) ≡ 0
unfolding vmm_map vmm_unmap vmm_get_phys get_pte descend alloc_table
unmapped_test = refl

exhausted_test : (vmm_map 4096 20480 4194304 3 (record empty { supply = 8192 ∷ 0 ∷ [] })).0 ≡ false
unfolding vmm_map get_pte descend alloc_table
exhausted_test = refl

mmio_test : (mmio_map 4096 20481 4096 4194304 empty).0 ≡ 4194305
unfolding mmio_map map_pages vmm_map get_pte descend alloc_table
mmio_test = refl

mmio_unmap_test : vmm_get_phys 4096 4194304 (mmio_unmap 4096 4194305 4095 mapped).1 ≡ 0
unfolding mmio_unmap unmap_pages vmm_unmap vmm_map vmm_get_phys get_pte descend alloc_table
mmio_unmap_test = refl

empty-HasNoNull : HasNoNull empty.supply
empty-HasNoNull =
    (λ e. absurd (omega arith), (λ e. absurd (omega arith), (λ e. absurd (omega arith), tt)))

map_pages_supply_test :
    ((map_pages 1 4096 20480 4194304 3 empty).0 ≡ true)
    × (0 ≤ length (map_pages 1 4096 20480 4194304 3 empty).1.supply)
    × HasNoNull (map_pages 1 4096 20480 4194304 3 empty).1.supply
map_pages_supply_test =
    map_pages_supply 1 0 4096 20480 4194304 3 empty (omega arith) empty-HasNoNull

mmio_map_supply_test :
    ((mmio_map 4096 20481 4095 8192 empty).0 ≡ (8192 + 20481 % page_size) % 2 ^ 64)
    × ((mmio_map 4096 20481 4095 8192 empty).1
        ≡ (8192 + pages_for 4095 (20481 % page_size) * page_size) % 2 ^ 64)
mmio_map_supply_test =
    mmio_map_supply 4096 20481 4095 8192 empty (λ e. absurd (omega arith)) (omega arith)
      empty-HasNoNull

abbrev level : ℕ → ℕ
level q = if q == 4096 then 4 else 0

block-IsNew : (s : ℕ) → s ≢ 4096 → s ≢ 0 → s % 4096 ≡ 0 → s < 2 ^ 52 → IsNew level s
block-IsNew s other not_null aligned small = record {
  unused = rw (≢→==false s 4096 other) refl;
  not_null = not_null;
  aligned = aligned;
  small = small;
}

empty-IsTree : IsTree level empty
empty-IsTree = record {
  down = λ t i high there. absurd (ground (arith, there));
  new = (
    block-IsNew 8192 (λ e. absurd (omega (arith, e))) (λ e. absurd (omega (arith, e))) refl
        (omega arith),
    (λ e. absurd (omega (arith, e)), (λ e. absurd (omega (arith, e)), tt)),
    (
      block-IsNew 12288 (λ e. absurd (omega (arith, e))) (λ e. absurd (omega (arith, e))) refl
          (omega arith),
      (λ e. absurd (omega (arith, e)), tt),
      (
        block-IsNew 16384 (λ e. absurd (omega (arith, e))) (λ e. absurd (omega (arith, e))) refl
            (omega arith),
        tt,
        tt,
      ),
    ),
  );
}

vmm_get_phys-vmm_map_example :
    (level' : ℕ → ℕ) × (m' : Memory) × (vmm_map 4096 20480 4194304 3 empty ≡ (true, m'))
    × IsMapped 4194304 20480 0 4096 level' m'
vmm_get_phys-vmm_map_example =
    vmm_get_phys-vmm_map 0 4096 20480 4194304 3 level empty empty-IsTree refl (omega arith) refl
      (omega arith)
