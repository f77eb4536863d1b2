-- ===== src/Heap/Malloc.antt =====
-- `kmalloc` on every branch.
use gecko_os.Prelude.{
  ℕ, zero, suc, ◌+◌, ◌-◌, ◌%◌, ◌^◌, ◌≤◌, ◌<◌, ◌≡◌, ◌≢◌, subst, refl, ◌∙◌, sym, ap, ◌⊎◌, inl, inr,
  false, Option, some, arith, ltb, leb, ◌==◌, if◌then◌else◌, Bool-cases, ≢→==false, tests, ==-refl,
}
use gecko_os.Heap.{
  Block, Heap, widen, to_int, align8, put, block_bytes, create_block, split_block, serve, kmalloc,
}
use gecko_os.Heap.Find.{IsChain, HasNoFit, IsFirstFit, find_free_block_lem}

-- The bounds of the unused part, aligned and below 2^31.
pub record IsArena (h : Heap) : Type 0 where
  pub aligned : h.heap_ptr % 8 ≡ 0
  pub end_aligned : h.heap_end % 8 ≡ 0
  pub not_null : 0 < h.heap_ptr
  pub below : h.heap_ptr ≤ h.heap_end
  pub small : h.heap_end < 2 ^ 31

-- A block in use of at least `size` bytes behind the header.
pub record IsGranted (size ptr : ℕ) (h : Heap) : Type 0 where
  pub not_null : block_bytes < ptr
  pub used : (h.store (ptr - block_bytes)).free ≡ false
  pub fits : size ≤ widen (h.store (ptr - block_bytes)).size

-- NULL: no block of the list fits, the unused part has no room, and nothing changes.
abbrev pub Refused : (n size ptr : ℕ) → Heap → Heap → Type 0
Refused n size ptr h h' =
    HasNoFit n size h.free_list_head h.store
    × (ptr ≡ 0)
    × (h' ≡ h)
    × (h.heap_end < h.heap_ptr + block_bytes + size)

-- The first block of the list that fits.
abbrev pub FromList : (n size ptr : ℕ) → Heap → Heap → Type 0
FromList n size ptr h h' =
    (r : ℕ) × (ptr ≡ r + block_bytes)
    × IsFirstFit n size h.free_list_head h.store r
    × (h'.heap_ptr ≡ h.heap_ptr)

-- A new block where the unused part began, which now begins behind it.
abbrev pub IsMade : (size b : ℕ) → Heap → Heap → Type 0
IsMade size b h h' =
    (b ≡ h.heap_ptr)
    × (h'.heap_ptr ≡ h.heap_ptr + block_bytes + size)
    × (h'.heap_ptr ≤ h.heap_end)
    × ((q : ℕ) → q ≢ h.heap_ptr → h'.store q ≡ h.store q)

abbrev pub FromUnused : (n size ptr : ℕ) → Heap → Heap → Type 0
FromUnused n size ptr h h' =
    HasNoFit n size h.free_list_head h.store
    × (b : ℕ) × (ptr ≡ b + block_bytes)
    × IsMade size b h h'

-- What `kmalloc` returns over a list of `n` blocks, for an aligned size.
abbrev pub IsAnswer : (n size ptr : ℕ) → Heap → Heap → Type 0
IsAnswer n size ptr h h' =
    Refused n size ptr h h'
    ⊎ ((FromList n size ptr h h' ⊎ FromUnused n size ptr h h') × IsGranted size ptr h')

pub put_self : (p : ℕ) (b : Block) (store : ℕ → Block) → put p b store p ≡ b
put_self p b store = rw (==-refl p) refl

widen-to_int : (x : ℕ) → x < 2 ^ 31 → widen (to_int x) ≡ x
widen-to_int x h = ground arith

-- The part that is kept fits the request.
split_block-at :
    (b size : ℕ) (store : ℕ → Block)
    → size < 2 ^ 31
    → size ≤ widen (store b).size
    → ((split_block b size store b).free ≡ (store b).free)
      × (size ≤ widen (split_block b size store b).size)
unfolding split_block
split_block-at b size store h fits =
    elim (Bool-cases (leb (widen (store b).size) ((size + block_bytes) % 2 ^ 64))) [
      | inl whole ↦ rw whole (refl, fits)
      | inr split ↦ rw (split, ==-refl b, widen-to_int size h) (refl, omega arith)
    ]

leb-of-ltb : (a b : ℕ) → ltb a b ≡ false → b ≤ a
leb-of-ltb a b h = ground arith

-- A block of an aligned size that fits leaves the rest aligned.
grown_ptr :
    (p size e : ℕ)
    → p % 8 ≡ 0
    → e % 8 ≡ 0
    → size % 8 ≡ 0
    → e < 2 ^ 31
    → p + block_bytes + size ≤ e
    → (p + align8 (block_bytes + size)) % 2 ^ 64 ≡ p + block_bytes + size
grown_ptr p size e hp he hs top fits = omega arith

grown :
    (h : Heap) (size : ℕ)
    → IsArena h
    → size % 8 ≡ 0
    → h.heap_ptr + block_bytes + size ≤ h.heap_end
    → IsArena (record h {
      heap_ptr = (h.heap_ptr + align8 (block_bytes + size)) % 2 ^ 64;
      store = put h.heap_ptr (record { size = to_int size; free = false; next = 0 }) h.store;
    })
grown h size arena aligned fits =
    let p = arena.aligned in
    let e = arena.end_aligned in
    let top = arena.small in
    let ptr = grown_ptr h.heap_ptr size h.heap_end p e aligned top fits in
    let positive = arena.not_null in
    record {
      aligned = omega (arith, ptr);
      end_aligned = e;
      not_null = omega (arith, ptr);
      below = omega (arith, ptr);
      small = top;
    }

create_block_lem :
    (size : ℕ) (h : Heap)
    → IsArena h
    → size < 2 ^ 31
    → size % 8 ≡ 0
    → (b : ℕ) × (h' : Heap) × (create_block size h ≡ (b, h'))
      × IsArena h'
      × (((b ≡ 0) × (h' ≡ h) × (h.heap_end < h.heap_ptr + block_bytes + size))
          ⊎ ((0 < b)
              × ((h'.store b).free ≡ false)
              × (size ≤ widen (h'.store b).size)
              × IsMade size b h h'))
unfolding create_block
create_block_lem size h arena small aligned =
    let low = arena.below in
    let top = arena.small in
    let wrap : (h.heap_ptr + block_bytes + size) % 2 ^ 64 ≡ h.heap_ptr + block_bytes + size =
      omega arith in
    elim (Bool-cases (ltb h.heap_end ((h.heap_ptr + block_bytes + size) % 2 ^ 64))) [
      | inl full ↦ (0, h, rw full refl, arena, inl (refl, refl, omega (tests, full, wrap)))
      | inr room ↦
          let fits : h.heap_ptr + block_bytes + size ≤ h.heap_end =
            omega
              (arith, leb-of-ltb h.heap_end ((h.heap_ptr + block_bytes + size) % 2 ^ 64) room) in
          let ptr =
            grown_ptr h.heap_ptr size h.heap_end arena.aligned arena.end_aligned aligned top fits in
          (
            h.heap_ptr,
            _,
            rw room refl,
            grown h size arena aligned fits,
            inr (
              arena.not_null,
              ap (λ c. c.free) (put_self h.heap_ptr _ h.store),
              rw (==-refl h.heap_ptr, widen-to_int size small) (omega arith),
              (
                refl,
                ptr,
                omega (arith, ptr, fits),
                λ q other. rw (≢→==false q h.heap_ptr other) refl,
              ),
            ),
          )
    ]

granted :
    (b size : ℕ) (h : Heap)
    → 0 < b
    → (h.store b).free ≡ false
    → size ≤ widen (h.store b).size
    → IsGranted size (b + block_bytes) h
granted b size h there used big =
    let back : b + block_bytes - block_bytes ≡ b = omega arith in
    record {
      not_null = omega arith;
      used = ap (λ p. (h.store p).free) back ∙ used;
      fits = subst (λ p. size ≤ widen (h.store p).size) (sym back) big;
    }

serve_lem :
    (n r size : ℕ) (h : Heap)
    → IsArena h
    → size < 2 ^ 31
    → size % 8 ≡ 0
    → ((r ≡ 0) × HasNoFit n size h.free_list_head h.store)
      ⊎ IsFirstFit n size h.free_list_head h.store r
    → (ptr : ℕ) × (h' : Heap) × (serve (some r) size h ≡ some (ptr, h'))
      × IsArena h'
      × IsAnswer n size ptr h h'
unfolding serve
serve_lem n zero size h arena small aligned search =
    let none_fits : HasNoFit n size h.free_list_head h.store = elim search [
      | inl (null, none_fits) ↦ none_fits
      | inr (k, less, at, (there, free, room), before) ↦ absurd (there refl)
    ] in
    let (b, h', made, arena', answer) = create_block_lem size h arena small aligned in
    let pack : ℕ × Heap → Option (ℕ × Heap) =
      λ c. some (if c.0 == 0 then 0 else c.0 + block_bytes, c.1) in
    let served : serve (some 0) size h ≡ pack (b, h') = ap pack made in
    elim answer [
      | inl (null, same, full) ↦
          (0, h', served ∙ rw null refl, arena', inl (none_fits, refl, same, full))
      | inr (there, used, big, new) ↦ (
        b + block_bytes,
        h',
        served ∙ rw (≢→==false b 0 (λ e. absurd (omega (arith, e)))) refl,
        arena',
        inr (inr (none_fits, b, refl, new), granted b size h' there used big),
      )
    ]
serve_lem n (suc b) size h arena small aligned search =
    let block = h.store (suc b) in
    let mark = put (suc b) (record block { free = false }) h.store in
    let self = put_self (suc b) (record block { free = false }) h.store in
    let first : IsFirstFit n size h.free_list_head h.store (suc b) = elim search [
      | inl (null, none_fits) ↦ absurd (omega (arith, null))
      | inr first ↦ first
    ] in
    let big : size ≤ widen block.size = first.3.2 in
    let (kept, room) = split_block-at (suc b) size mark small (rw self big) in
    let h' = record h { store = split_block (suc b) size mark } in
    (
      suc b + block_bytes,
      h',
      refl,
      record {
        aligned = arena.aligned;
        end_aligned = arena.end_aligned;
        not_null = arena.not_null;
        below = arena.below;
        small = arena.small;
      },
      inr (
        inl (suc b, refl, first, refl),
        granted (suc b) size h' (omega arith) (kept ∙ ap (λ c. c.free) self) room,
      ),
    )

-- For a heap whose free list has `n` blocks, with aligned bounds below 2^31, and a size of at most
-- 2^31 - 8, `kmalloc` ends, the bounds stay aligned, and the result is one of these:
-- NULL, with the heap as it was, if no block of the list fits the aligned size and the unused part has
-- no room for it and a header; or the first block of the list that fits, with the unused part as it
-- was; or, if none fits, a new block at the start of the unused part, which then starts behind the new
-- block and within the heap, while no other header changes. What is returned is the address behind the
-- block's header, and the block is in use and has at least the aligned size.
pub kmalloc-IsAnswer :
    (n size : ℕ) (h : Heap)
    → IsChain n h.free_list_head h.store
    → IsArena h
    → size ≤ 2 ^ 31 - 8
    → (ptr : ℕ) × (h' : Heap) × (kmalloc (suc n) size h ≡ some (ptr, h'))
      × IsArena h'
      × IsAnswer n (align8 size) ptr h h'
unfolding kmalloc
kmalloc-IsAnswer n size h chain arena small =
    let (r, found, search) = find_free_block_lem n (align8 size) h.free_list_head h.store chain in
    let (ptr, h', served, arena', answer) =
      serve_lem n r (align8 size) h arena (omega arith) (omega arith) search in
    (ptr, h', ap (λ o. serve o (align8 size) h) found ∙ served, arena', answer)
