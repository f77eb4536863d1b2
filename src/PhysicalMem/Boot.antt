-- ===== src/PhysicalMem/Boot.antt =====
-- `initialize_memory_manager_from_mbi`: the bitmap is built behind the kernel, the available
-- regions of the Multiboot2 memory map are freed, and what is in use is reserved.
-- `Ram` reads the Multiboot2 structure; the words at `bitmap_base` before the call are `old_words`.
-- The structure is taken not to lie where the bitmap is built. A loop gets `fuel` rounds.
pub mod Cleared
pub mod Tags
pub mod Freed
pub mod Walk
pub mod Accounting
mod Tests
use gecko_os.Prelude.{
  ℕ, zero, suc, ◌+◌, ◌-◌, ◌*◌, ◌/◌, ◌%◌, ◌^◌, bit_and, bit_or, ◌&&◌, not, Option, none, some, List,
  [], ◌∷◌, ltb, leb, ◌==◌, if◌then◌else◌,
}
use gecko_os.Prelude.Bits.{complement}
use gecko_os.PhysicalMem.{
  Pmm, block_size, to_u32, to_u64, sub_u64, set_block, reserve_region, free_region,
}

-- The byte at an address.
abbrev pub Ram : Type 0
Ram = ℕ → ℕ

abbrev pub read_u32 : Ram → ℕ → ℕ
read_u32 m a = m a + 256 * m (a + 1) + 65536 * m (a + 2) + 16777216 * m (a + 3)

abbrev pub read_u64 : Ram → ℕ → ℕ
read_u64 m a = read_u32 m a + 2 ^ 32 * read_u32 m (a + 4)

-- `multiboot2_tag_t`, `multiboot2_tag_mmap_t` and `multiboot2_mmap_entry_t`, all packed.
abbrev pub tag_type : Ram → ℕ → ℕ
tag_type m tag = read_u32 m tag

abbrev pub tag_size : Ram → ℕ → ℕ
tag_size m tag = read_u32 m (tag + 4)

abbrev pub mmap_entry_size : Ram → ℕ → ℕ
mmap_entry_size m tag = read_u32 m (tag + 8)

abbrev pub entry_base_addr : Ram → ℕ → ℕ
entry_base_addr m entry = read_u64 m entry

abbrev pub entry_length : Ram → ℕ → ℕ
entry_length m entry = read_u64 m (entry + 8)

abbrev pub entry_type : Ram → ℕ → ℕ
entry_type m entry = read_u32 m (entry + 16)

abbrev pub tag_type_end : ℕ
tag_type_end = 0

abbrev pub tag_type_mmap : ℕ
tag_type_mmap = 6

abbrev pub memory_available : ℕ
memory_available = 1

-- `memset(memory_map, 0xFF, bytes)` over words.
pub fill_ones : List ℕ → ℕ → List ℕ
fill_ones [] bytes = []
fill_ones (w ∷ ws) bytes =
    (if leb 4 bytes then 2 ^ 32 - 1 else bit_or w (2 ^ (8 * bytes) - 1)) ∷ fill_ones ws (bytes - 4)

-- The inner loop, over the entries of a memory map tag.
pub free_entries : (fuel : ℕ) → Ram → (limit entry_size entry : ℕ) → Pmm → Option Pmm
free_entries zero m limit entry_size entry s = none
free_entries (suc fuel) m limit entry_size entry s =
    let s' =
      if entry_type m entry == memory_available
      then free_region s (entry_base_addr m entry) (entry_length m entry)
      else s in
    let rest = free_entries fuel m limit entry_size (to_u64 (entry + entry_size)) s' in
    if ltb entry limit then rest else some s

-- The start of the tag behind `tag`: `(tag->size + 7) & ~7` bytes on.
abbrev pub next_tag : Ram → ℕ → ℕ
next_tag m tag = to_u64 (tag + bit_and (to_u32 (tag_size m tag + 7)) (complement 32 7))

-- The body of the loop over the tags.
pub free_tag : (fuel : ℕ) → Ram → (tag : ℕ) → Pmm → Option Pmm
free_tag fuel m tag s =
    if tag_type m tag == tag_type_mmap
    then free_entries fuel m (to_u64 (tag + tag_size m tag)) (mmap_entry_size m tag)
        (to_u64 (tag + 16)) s
    else some s

pub free_tags : (fuel : ℕ) → Ram → (mbi_end tag : ℕ) → Pmm → Option Pmm
free_tags zero m mbi_end tag s = none
free_tags (suc fuel) m mbi_end tag s =
    let rest : Option Pmm = elim (free_tag fuel m tag s) [
      | none ↦ none
      | some s' ↦ free_tags fuel m mbi_end (next_tag m tag) s'
    ] in
    if ltb tag mbi_end && not (tag_type m tag == tag_type_end) then rest else some s

-- What the linker script and the boot code hand over.
pub record BootInfo : Type 0 where
  pub kernel_start : ℕ
  pub kernel_end : ℕ
  pub max_addr_used : ℕ
  pub mbi_addr : ℕ

abbrev pub ap_trampoline_addr : ℕ
ap_trampoline_addr = 0x8000

abbrev pub ap_trampoline_size : ℕ
ap_trampoline_size = 0x1000

abbrev pub blocks_of : ℕ → ℕ
blocks_of bytes = to_u64 (bytes + block_size - 1) / block_size

abbrev pub bitmap_bytes_for : ℕ → ℕ
bitmap_bytes_for blocks = (blocks + 8 - 1) / 8

-- The allocator with every block in use.
pub cleared : BootInfo → List ℕ → Pmm
cleared b old_words =
    let blocks = blocks_of b.max_addr_used in
    let bytes = bitmap_bytes_for blocks in
    record {
      memory_map = fill_ones old_words bytes;
      max_blocks = blocks;
      used_blocks = blocks;
      bitmap_base =
          bit_and (to_u64 (b.kernel_end + block_size - 1)) (complement 64 (block_size - 1));
      bitmap_size_blocks = blocks_of bytes;
    }

-- The kernel, the boot information and the bitmap are reserved.
pub reserve_boot : BootInfo → (total_size bitmap_base bitmap_bytes : ℕ) → Pmm → Pmm
reserve_boot b total_size bitmap_base bitmap_bytes s =
    let s1 = reserve_region s b.kernel_start (sub_u64 b.kernel_end b.kernel_start) in
    let s2 = reserve_region s1 b.mbi_addr total_size in reserve_region s2 bitmap_base bitmap_bytes

-- The first block, which is counted without a look at its bit, and the trampoline.
pub reserve_low : Pmm → Pmm
reserve_low s =
    let s0 = set_block s 0 in
    reserve_region (record s0 { used_blocks = to_u64 (s0.used_blocks + 1) }) ap_trampoline_addr
      ap_trampoline_size

pub initialize_memory_manager_from_mbi : (fuel : ℕ) → Ram → BootInfo → List ℕ → Option Pmm
initialize_memory_manager_from_mbi fuel m b old_words =
    let total_size = read_u32 m b.mbi_addr in
    let c = cleared b old_words in
    elim (free_tags fuel m (to_u64 (b.mbi_addr + total_size)) (to_u64 (b.mbi_addr + 8)) c) [
      | none ↦ none
      | some s ↦
          some (
            reserve_low (reserve_boot b total_size c.bitmap_base (bitmap_bytes_for c.max_blocks) s))
    ]
