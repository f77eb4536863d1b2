-- ===== src/PhysicalMem.antt =====
-- kernel/mem/physical_mem/physical_mem.c: the bitmap allocator of 4 KiB physical blocks.
-- The file's static variables are one record. A word of the bitmap is an element of `memory_map`;
-- bit `b` of the map is digit `b % 32` of word `b / 32`, and a set bit is a block in use.
pub mod Bitmap
pub mod Count
pub mod Blocks
pub mod Search
pub mod Allocate
pub mod Free
pub mod Regions
pub mod Boot
mod Tests
use gecko_os.Prelude.{
  ℕ, zero, suc, ◌+◌, ◌-◌, ◌*◌, ◌/◌, ◌%◌, ◌^◌, bit_and, bit_or, Bool, not, Option, none, some, List,
  ltb, leb, ◌==◌, if◌then◌else◌, set, get_or,
}
use gecko_os.Prelude.Bits.{complement}

abbrev pub block_size : ℕ
block_size = 4096

-- `memory_map` ends where the bitmap's memory ends; `PhysicalMem.Valid.in_map` rules out an access
-- behind it.
pub record Pmm : Type 0 where
  pub memory_map : List ℕ
  pub max_blocks : ℕ
  pub used_blocks : ℕ
  pub bitmap_base : ℕ
  pub bitmap_size_blocks : ℕ

-- Conversions to and arithmetic on machine words.
abbrev pub to_u32 : ℕ → ℕ
to_u32 x = x % 2 ^ 32

abbrev pub to_u64 : ℕ → ℕ
to_u64 x = x % 2 ^ 64

abbrev pub sub_u64 : ℕ → ℕ → ℕ
sub_u64 a b = (a + 2 ^ 64 - b) % 2 ^ 64

-- The bit pattern of the `int32_t` value -1.
abbrev pub minus_one : ℕ
minus_one = 2 ^ 32 - 1

-- `(uint64_t)` of an `int32_t` with this bit pattern.
abbrev pub extend_i32 : ℕ → ℕ
extend_i32 w = if ltb w (2 ^ 31) then w else w + (2 ^ 64 - 2 ^ 32)

-- `word & (1u << j)`
abbrev pub test_bit : ℕ → ℕ → Bool
test_bit word j = not (bit_and word (2 ^ j) == 0)

abbrev pub word : Pmm → ℕ → ℕ
word s i = get_or s.memory_map i 0

-- `memory_map[bit / 32] & (1u << (bit % 32))`
pub is_used : Pmm → ℕ → Bool
is_used s bit = test_bit (word s (bit / 32)) (bit % 32)

pub set_block : Pmm → ℕ → Pmm
set_block s bit =
    if ltb bit s.max_blocks
    then record s {
      memory_map = set s.memory_map (bit / 32) (bit_or (word s (bit / 32)) (2 ^ (bit % 32)));
    }
    else s

pub unset_block : Pmm → ℕ → Pmm
unset_block s bit =
    if ltb bit s.max_blocks
    then record s {
      memory_map =
          set s.memory_map (bit / 32)
            (bit_and (word s (bit / 32)) (complement 32 (2 ^ (bit % 32))));
    }
    else s

-- The loop over `k`: the blocks from `bit` on that are free, `rounds` of them at most.
pub count_free : Pmm → (bit rounds free_count : ℕ) → ℕ
count_free s bit zero free_count = free_count
count_free s bit (suc rounds) free_count =
    let rest = count_free s (bit + 1) rounds (free_count + 1) in
    if leb s.max_blocks bit then free_count else if not (is_used s bit) then rest else free_count

-- The loop over `j`, with `rounds` rounds left.
pub scan_word : Pmm → (num_blocks i rounds j : ℕ) → Option ℕ
scan_word s num_blocks i zero j = none
scan_word s num_blocks i (suc rounds) j =
    let rest = scan_word s num_blocks i rounds (j + 1) in
    if not (test_bit (word s i) j)
    then (if count_free s (i * 32 + j) num_blocks 0 == num_blocks then some (i * 32 + j) else rest)
    else rest

-- The loop over `i`.
pub scan_words : Pmm → (num_blocks rounds i : ℕ) → Option ℕ
scan_words s num_blocks zero i = none
scan_words s num_blocks (suc rounds) i =
    let rest = scan_words s num_blocks rounds (i + 1) in
    if not (word s i == 2 ^ 32 - 1)
    then elim (scan_word s num_blocks i 32 0) [ some b ↦ some b | none ↦ rest ]
    else rest

-- The result is the bit pattern of the `int32_t`.
pub find_first_free_blocks : Pmm → ℕ → ℕ
find_first_free_blocks s num_blocks =
    if num_blocks == 0 then minus_one else elim (scan_words s num_blocks (s.max_blocks / 32) 0) [
      | some b ↦ to_u32 b
      | none ↦ minus_one
    ]

-- The loop of `reserve_region`; the test of the source reads the whole 64-bit index, and
-- `set_block` gets its low 32 bits.
pub reserve_loop : Pmm → (rounds bit : ℕ) → Pmm
reserve_loop s zero bit = s
reserve_loop s (suc rounds) bit =
    let s' = set_block s (to_u32 bit) in
    let marked =
      reserve_loop (record s' { used_blocks = to_u64 (s.used_blocks + 1) }) rounds (bit + 1) in
    let kept = reserve_loop s rounds (bit + 1) in
    if ltb bit s.max_blocks then (if not (is_used s bit) then marked else kept) else s

abbrev pub blocks_for : ℕ → ℕ
blocks_for size = to_u64 (size + block_size - 1) / block_size

pub reserve_region : Pmm → (base size : ℕ) → Pmm
reserve_region s base size = reserve_loop s (blocks_for size) (base / block_size)

pub free_loop : Pmm → (rounds bit : ℕ) → Pmm
free_loop s zero bit = s
free_loop s (suc rounds) bit =
    let s' = unset_block s (to_u32 bit) in
    let marked = free_loop (record s' { used_blocks = sub_u64 s.used_blocks 1 }) rounds (bit + 1) in
    let kept = free_loop s rounds (bit + 1) in
    if ltb bit s.max_blocks then (if is_used s bit then marked else kept) else s

pub free_region : Pmm → (base size : ℕ) → Pmm
free_region s base size = free_loop s (blocks_for size) (base / block_size)

pub deinitialize_memory_region : Pmm → (base_address size : ℕ) → Pmm
deinitialize_memory_region = reserve_region

-- The loops of `allocate_blocks` and `free_blocks`.
pub set_blocks : Pmm → (start rounds i : ℕ) → Pmm
set_blocks s start zero i = s
set_blocks s start (suc rounds) i =
    set_blocks (set_block s (to_u32 (start + i))) start rounds (i + 1)

pub unset_blocks : Pmm → (start rounds i : ℕ) → Pmm
unset_blocks s start zero i = s
unset_blocks s start (suc rounds) i =
    unset_blocks (unset_block s (to_u32 (start + i))) start rounds (i + 1)

-- The pointer that is returned, `none` for `NULL`.
pub allocate_blocks : Pmm → ℕ → Option ℕ × Pmm
allocate_blocks s num_blocks =
    let start = find_first_free_blocks s num_blocks in
    let s' = set_blocks s start num_blocks 0 in
    if leb (sub_u64 s.max_blocks s.used_blocks) num_blocks
    then (none, s)
    else if start == minus_one
    then (none, s)
    else (
      some (to_u64 (extend_i32 start * block_size)),
      record s' { used_blocks = to_u64 (s.used_blocks + num_blocks) },
    )

pub free_blocks : Pmm → (address num_blocks : ℕ) → Pmm
free_blocks s address num_blocks =
    let start = to_u32 (address / block_size) in
    let s' = unset_blocks s start num_blocks 0 in
    if leb (2 ^ 31) start
    then s
    else if ltb s.max_blocks (start + num_blocks)
    then s
    else record s' { used_blocks = sub_u64 s.used_blocks num_blocks }
