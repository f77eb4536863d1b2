-- ===== src/PhysicalMem/Boot/Tests.antt =====
-- The initialisation on a small machine: 256 KiB, with one memory map entry that covers it all.
use gecko_os.Prelude.{
  ℕ, ◌+◌, ◌-◌, ◌^◌, ◌<◌, ◌≡◌, refl, ◌⊎◌, inl, inr, ◌||◌, some, List, [], ◌∷◌, arith, get_or, ◌==◌,
}
use gecko_os.PhysicalMem.{
  Pmm, to_u64, is_used, set_block, unset_block, reserve_loop, reserve_region, free_loop,
  free_region,
}
use gecko_os.PhysicalMem.Bitmap.{IsValid}
use gecko_os.PhysicalMem.Count.{count_below, IsAccounted}
use gecko_os.PhysicalMem.Regions.{IsOver}
use gecko_os.PhysicalMem.Boot.{
  Ram, BootInfo, read_u32, fill_ones, free_entries, free_tag, free_tags, cleared, reserve_boot,
  reserve_low, bitmap_bytes_for, initialize_memory_manager_from_mbi, ap_trampoline_addr,
  ap_trampoline_size,
}
use gecko_os.PhysicalMem.Boot.Tags.{IsTag, first_tag, later_tag, IsWellFormed}
use gecko_os.PhysicalMem.Boot.Freed.{region}
use gecko_os.PhysicalMem.Boot.Accounting.{
  surplus, reserve_low_lem, IsBooted, initialize_memory_manager_from_mbi_lem,
}

abbrev info : BootInfo
info = record {
  kernel_start = 0x10000;
  kernel_end = 0x11000;
  max_addr_used = 0x40000;
  mbi_addr = 0x20000;
}

-- The header, a memory map tag of one available entry of 0x40000 bytes from 0 on, and the end tag.
abbrev bytes : List ℕ
bytes =
    56 ∷ 0 ∷ 0 ∷ 0 ∷ 0 ∷ 0 ∷ 0 ∷ 0 ∷ 6 ∷ 0 ∷ 0 ∷ 0 ∷ 40 ∷ 0 ∷ 0 ∷ 0 ∷ 24 ∷ 0 ∷ 0 ∷ 0 ∷ 0 ∷ 0 ∷ 0 ∷ 0
    ∷ 0 ∷ 0 ∷ 0 ∷ 0 ∷ 0 ∷ 0 ∷ 0 ∷ 0 ∷ 0 ∷ 0 ∷ 4 ∷ 0 ∷ 0 ∷ 0 ∷ 0 ∷ 0 ∷ 1 ∷ 0 ∷ 0 ∷ 0 ∷ 0 ∷ 0 ∷ 0 ∷ 0
    ∷ 0 ∷ 0 ∷ 0 ∷ 0 ∷ 8 ∷ 0 ∷ 0 ∷ 0 ∷ []

abbrev ram : Ram
ram a = get_or bytes (a - 0x20000) 0

abbrev old_words : List ℕ
old_words = 0 ∷ 0xabcd ∷ []

abbrev stop : ℕ
stop = to_u64 (0x20000 + read_u32 ram 0x20000)

abbrev start : ℕ
start = to_u64 (0x20000 + 8)

-- Blocks 0, 8, 16, 17 and 32 are used at the end: block 17 holds the bitmap.
booted_map :
    initialize_memory_manager_from_mbi 49 ram info old_words
    ≡ some (record {
      memory_map = 0x30101 ∷ 1 ∷ [];
      max_blocks = 64;
      used_blocks = 5;
      bitmap_base = 0x11000;
      bitmap_size_blocks = 1;
    })
unfolding initialize_memory_manager_from_mbi cleared fill_ones free_tags free_tag free_entries
    reserve_boot reserve_low reserve_region reserve_loop free_region free_loop set_block unset_block
    is_used
booted_map = refl

tags : (tag : ℕ) → IsTag ram stop start tag → (tag ≡ 0x20008) ⊎ (tag ≡ 0x20030)
tags _ first_tag = inl refl
tags _ (later_tag {tag} r lt real) = elim (tags tag r) [
  | inl e ↦ inr (rw e refl)
  | inr e ↦ absurd (real (rw e refl))
]

ram-IsWellFormed : IsWellFormed ram stop start
ram-IsWellFormed = record {
  end = omega arith;
  inside = λ tag r lt real. elim (tags tag r) [
    | inl e ↦ rw e (omega arith)
    | inr e ↦ absurd (real (rw e refl))
  ];
  entries = λ tag r lt map. elim (tags tag r) [
    | inl e ↦ rw e (omega arith)
    | inr e ↦ absurd (omega (arith, rw e at map))
  ];
}

initialize_memory_manager_from_mbi_lem_example :
    (s : Pmm) × (free_tags 49 ram stop start (cleared info old_words) ≡ some s)
    × (initialize_memory_manager_from_mbi 49 ram info old_words
        ≡ some (
            reserve_low (
              reserve_boot info 56
                (cleared info old_words).bitmap_base
                (bitmap_bytes_for (cleared info old_words).max_blocks)
                s)))
    × IsBooted ram info 56
        (cleared info old_words)
        (reserve_boot info 56
          (cleared info old_words).bitmap_base
          (bitmap_bytes_for (cleared info old_words).max_blocks)
          s)
        (reserve_low (
          reserve_boot info 56
            (cleared info old_words).bitmap_base
            (bitmap_bytes_for (cleared info old_words).max_blocks)
            s))
initialize_memory_manager_from_mbi_lem_example =
    initialize_memory_manager_from_mbi_lem 49 ram info old_words (omega arith) (omega arith)
      ram-IsWellFormed (omega arith)

-- 32 blocks that are all used, and counted.
abbrev full : Pmm
full = record {
  memory_map = (2 ^ 32 - 1) ∷ [];
  max_blocks = 32;
  used_blocks = 32;
  bitmap_base = 0;
  bitmap_size_blocks = 1;
}

full-IsAccounted : IsAccounted full
unfolding count_below is_used
full-IsAccounted = refl

reserve_low_lem_test :
    IsValid (reserve_low full)
    × ((reserve_low full).max_blocks ≡ 32)
    × IsOver (surplus full) (reserve_low full)
    × ((x : ℕ)
        → x < 32
        → is_used (reserve_low full) x
          ≡ (region ap_trampoline_addr ap_trampoline_size x || ((x == 0) || is_used full x)))
reserve_low_lem_test = reserve_low_lem full (omega arith) (omega arith) full-IsAccounted
