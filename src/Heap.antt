-- ===== src/Heap.antt =====
-- kernel/mem.c: the kernel heap, a bump allocator with a list of freed blocks.
-- Headers are separate objects of a store from addresses; what the owners write between them is not
-- modelled. The loop over the list runs on fuel: `none` is a loop that has not ended.
pub mod Find
pub mod Malloc
pub mod Free
mod Tests
use gecko_os.Prelude.{
  ℕ, zero, suc, ◌+◌, ◌-◌, ◌*◌, ◌/◌, ◌%◌, ◌^◌, Bool, true, false, not, ◌&&◌, ◌||◌, Option, none,
  some, ltb, leb, ◌==◌, if◌then◌else◌,
}

-- `block`; `size` is an `int`, as its 32 bits.
pub record Block : Type 0 where
  pub size : ℕ
  pub free : Bool
  pub next : ℕ

abbrev pub block_bytes : ℕ
block_bytes = 16

pub record Heap : Type 0 where
  pub heap_ptr : ℕ
  pub heap_end : ℕ
  pub free_list_head : ℕ
  pub store : ℕ → Block

-- `ALIGN8` in 64 bits
abbrev pub align8 : ℕ → ℕ
align8 x = (x + 7) % 2 ^ 64 / 8 * 8

abbrev pub to_int : ℕ → ℕ
to_int x = x % 2 ^ 32

-- An `int` converted to `unsigned long`.
abbrev pub widen : ℕ → ℕ
widen x = if ltb x (2 ^ 31) then x else x + 2 ^ 64 - 2 ^ 32

-- A header written at an address.
abbrev pub put : ℕ → Block → (ℕ → Block) → ℕ → Block
put p b store q = if q == p then b else store q

unfoldable pub kalloc_init : Heap → Heap
kalloc_init h = record h { heap_ptr = 0x200000; heap_end = 0x500000; free_list_head = 0 }

-- From the block `p` on; the result is an address, 0 for NULL.
unfoldable pub find_free_block : (fuel size p : ℕ) → (ℕ → Block) → Option ℕ
find_free_block zero size p store = none
find_free_block (suc fuel) size p store =
    let rest = find_free_block fuel size (store p).next store in
    if p == 0
    then some 0
    else if (store p).free && leb size (widen (store p).size)
    then some p
    else rest

-- The new block's address, 0 for NULL.
unfoldable pub create_block : (size : ℕ) → Heap → ℕ × Heap
create_block size h =
    if ltb h.heap_end ((h.heap_ptr + block_bytes + size) % 2 ^ 64) then (0, h) else (
      h.heap_ptr,
      record h {
        heap_ptr = (h.heap_ptr + align8 (block_bytes + size)) % 2 ^ 64;
        store = put h.heap_ptr (record { size = to_int size; free = false; next = 0 }) h.store;
      },
    )

unfoldable pub split_block : (b size : ℕ) → (ℕ → Block) → ℕ → Block
split_block b size store =
    let old = store b in
    let new_block = b + block_bytes + size in
    if leb (widen old.size) ((size + block_bytes) % 2 ^ 64)
    then store
    else put b (record old { size = to_int size; next = new_block })
        (put new_block
          (record {
            size = to_int (widen old.size - size - block_bytes);
            free = true;
            next = old.next;
          })
          store)

-- `kmalloc` behind the search, whose result is the first argument; the pointer is behind the header.
unfoldable pub serve : Option ℕ → (size : ℕ) → Heap → Option (ℕ × Heap)
serve none size h = none
serve (some zero) size h =
    let (b, h') = create_block size h in some (if b == 0 then 0 else b + block_bytes, h')
serve (some (suc b)) size h =
    let used = put (suc b) (record (h.store (suc b)) { free = false }) h.store in
    some (suc b + block_bytes, record h { store = split_block (suc b) size used })

unfoldable pub kmalloc : (fuel size : ℕ) → Heap → Option (ℕ × Heap)
kmalloc fuel size h =
    serve (find_free_block fuel (align8 size) h.free_list_head h.store) (align8 size) h

unfoldable pub kfree : (ptr : ℕ) → Heap → Heap
kfree ptr h =
    let b = ptr - block_bytes in
    if ptr == 0 then h else record h {
      store = put b (record (h.store b) { free = true; next = h.free_list_head }) h.store;
      free_list_head = b;
    }

-- The loop of `combine_blocks` from the block `b` on.
unfoldable pub combine : (fuel b : ℕ) → (ℕ → Block) → Option (ℕ → Block)
combine zero b store = none
combine (suc fuel) b store =
    let c = store b in
    let n = store c.next in
    let merged =
      put b (record c { size = to_int (c.size + block_bytes + n.size); next = n.next }) store in
    let stay = combine fuel b merged in
    let step = combine fuel c.next store in
    if b == 0 || c.next == 0
    then some store
    else if c.next == (b + block_bytes + widen c.size) % 2 ^ 64 && n.free
    then stay
    else step

unfoldable pub combine_blocks : (fuel : ℕ) → Heap → Option Heap
combine_blocks fuel h = elim (combine fuel h.free_list_head h.store) [
  | none ↦ none
  | some store ↦ some (record h { store = store })
]
