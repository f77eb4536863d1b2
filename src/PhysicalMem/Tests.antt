-- ===== src/PhysicalMem/Tests.antt =====
-- Runs of the block allocator, and its theorems at concrete maps.
use gecko_os.Prelude.{
  ℕ, zero, suc, ◌+◌, ◌-◌, ◌*◌, ◌/◌, ◌^◌, ◌≤◌, ◌<◌, ◌≡◌, refl, true, false, Option, none, some, [],
  ◌∷◌, arith,
}
use gecko_os.PhysicalMem.{
  Pmm, block_size, is_used, set_block, unset_block, count_free, scan_word, scan_words,
  find_first_free_blocks, reserve_region, free_region, set_blocks, unset_blocks, allocate_blocks,
  free_blocks, blocks_for,
}
use gecko_os.PhysicalMem.Bitmap.{IsValid}
use gecko_os.PhysicalMem.Count.{count_below, IsAccounted}
use gecko_os.PhysicalMem.Search.{IsFirstRun, found, find_first_free_blocks_lem}
use gecko_os.PhysicalMem.Allocate.{Granted, allocate_blocks-Granted}
use gecko_os.PhysicalMem.Free.{
  free_blocks-IsAccounted, free_blocks_twice, free_blocks-allocate_blocks,
}
use gecko_os.PhysicalMem.Regions.{
  IsReserved, IsReleased, reserve_region-IsReserved, free_region-IsReleased, reserve_region_misses,
}

-- 64 blocks, the first three of which are used, and the last 32.
abbrev map : Pmm
map = record {
  memory_map = 7 ∷ (2 ^ 32 - 1) ∷ [];
  max_blocks = 64;
  used_blocks = 35;
  bitmap_base = 0;
  bitmap_size_blocks = 1;
}

-- The same with blocks 3 to 6 used.
abbrev map_after : Pmm
map_after = record map { memory_map = 127 ∷ (2 ^ 32 - 1) ∷ []; used_blocks = 39 }

-- What the allocator's operations call.
granted_run : allocate_blocks map 4 ≡ (some 0x3000, map_after)
unfolding allocate_blocks find_first_free_blocks scan_words scan_word count_free set_blocks
    set_block is_used
granted_run = refl

freed_run : free_blocks map_after 0x3000 4 ≡ map
unfolding free_blocks unset_blocks unset_block
freed_run = refl

no_room_run : allocate_blocks map 29 ≡ (none, map)
unfolding allocate_blocks find_first_free_blocks scan_words scan_word count_free set_blocks
    set_block is_used
no_room_run = refl

map-IsValid : IsValid map
map-IsValid = omega arith

map-IsAccounted : IsAccounted map
unfolding count_below is_used
map-IsAccounted = refl

find_first_free_blocks_lem_example :
    (o : Option ℕ) × (find_first_free_blocks map 4 ≡ found o) × IsFirstRun map 4 0 64 o
find_first_free_blocks_lem_example = find_first_free_blocks_lem map 4 map-IsValid (omega arith)

allocate_blocks-Granted_example : Granted map 4 (allocate_blocks map 4)
allocate_blocks-Granted_example = allocate_blocks-Granted map map-IsValid map-IsAccounted 4

free_blocks-allocate_blocks_example :
    ((x : ℕ) → is_used (free_blocks map_after 0x3000 4) x ≡ is_used map x)
    × ((free_blocks map_after 0x3000 4).used_blocks ≡ 35)
free_blocks-allocate_blocks_example =
    free_blocks-allocate_blocks map 4 0x3000 map_after map-IsValid map-IsAccounted granted_run

first_three : (x : ℕ) → 0 ≤ x → x < 0 + 3 → is_used map x ≡ true
unfolding is_used
first_three zero l u = refl
first_three (suc zero) l u = refl
first_three (suc (suc zero)) l u = refl
first_three (suc (suc (suc x))) l u = absurd (omega arith)

free_blocks-IsAccounted_test : IsAccounted (free_blocks map (0 * block_size) 3)
free_blocks-IsAccounted_test =
    free_blocks-IsAccounted map map-IsValid 0 3 (omega arith) (omega arith) map-IsAccounted
      first_three

fourth : (x : ℕ) → 3 ≤ x → x < 3 + 1 → is_used map x ≡ false
unfolding is_used
fourth x l u = let e : x ≡ 3 = omega arith in rw e

free_blocks_twice_test :
    ((x : ℕ) → is_used (free_blocks map (3 * block_size) 1) x ≡ is_used map x)
    × ¬ IsAccounted (free_blocks map (3 * block_size) 1)
free_blocks_twice_test =
    free_blocks_twice map map-IsValid 3 1 (omega arith) (omega arith) map-IsAccounted fourth

reserve_region-IsReserved_example :
    IsReserved map
      (reserve_region map 0x8000 0x1000)
      (0x8000 / block_size)
      (0x8000 / block_size + blocks_for 0x1000)
reserve_region-IsReserved_example = reserve_region-IsReserved map 0x8000 0x1000 map-IsValid

free_region-IsReleased_example :
    IsReleased map
      (free_region map 0x1000 0x800)
      (0x1000 / block_size)
      (0x1000 / block_size + blocks_for 0x800)
free_region-IsReleased_example = free_region-IsReleased map 0x1000 0x800 map-IsValid

-- 0x20 bytes from 0x8ff0 on lie in blocks 8 and 9; only block 8 is reserved.
reserve_region_misses_test :
    is_used (reserve_region map 0x8ff0 0x20) ((0x8ff0 + 0x20 - 1) / block_size)
    ≡ is_used map ((0x8ff0 + 0x20 - 1) / block_size)
reserve_region_misses_test =
    reserve_region_misses map 0x8ff0 0x20 map-IsValid (omega arith) (omega arith) (omega arith)
      (omega arith)
