-- ===== src/Heap/Free.antt =====
-- `kfree` and the free list.
use gecko_os.Prelude.{
  ℕ, zero, suc, ◌-◌, ◌<◌, ◌≡◌, ◌≢◌, refl, ◌∙◌, sym, ap, subst, true, none, arith, leb, ≢→==false,
  lt→leb_false, &&-false,
}
use gecko_os.Heap.{Block, Heap, widen, put, block_bytes, find_free_block, kfree}
use gecko_os.Heap.Find.{IsChain}
use gecko_os.Heap.Malloc.{put_self}

-- The address is none of the `n` blocks from `p` on.
abbrev pub IsOff : ℕ → ℕ → ℕ → (ℕ → Block) → Type 0
IsOff b zero p store = Unit {0}
IsOff b (suc n) p store = (p ≢ b) × IsOff b n (store p).next store

put_ne : (p q : ℕ) (b : Block) (store : ℕ → Block) → q ≢ p → put p b store q ≡ store q
put_ne p q b store h = rw (≢→==false q p h) refl

put-IsChain :
    (b : ℕ) (c : Block) (n p : ℕ) (store : ℕ → Block)
    → IsOff b n p store
    → IsChain n p store
    → IsChain n p (put b c store)
put-IsChain b c zero p store off h = h
put-IsChain b c (suc n) p store off h =
    let same = put_ne b p c store off.0 in
    (
      h.0,
      subst (λ q. IsChain n q (put b c store)) (sym (ap (λ x. x.next) same))
          (put-IsChain b c n (store p).next store off.1 h.1),
    )

-- The heap after `kfree` of a block that is not NULL.
abbrev freed : ℕ → Heap → Heap
freed b h = record h {
  store = put b (record (h.store b) { free = true; next = h.free_list_head }) h.store;
  free_list_head = b;
}

kfree-freed : (ptr : ℕ) (h : Heap) → block_bytes < ptr → kfree ptr h ≡ freed (ptr - block_bytes) h
unfolding kfree
kfree-freed ptr h big = rw (≢→==false ptr 0 (λ e. absurd (omega arith))) refl

-- For a list of `n` blocks that does not hold the block of the pointer, which lies behind a header
-- not at NULL: `kfree` makes a list of `n + 1` blocks, with the block free at its head.
pub kfree-IsChain :
    (n ptr : ℕ) (h : Heap)
    → IsChain n h.free_list_head h.store
    → IsOff (ptr - block_bytes) n h.free_list_head h.store
    → block_bytes < ptr
    → IsChain (suc n) (kfree ptr h).free_list_head (kfree ptr h).store
      × (((kfree ptr h).store (kfree ptr h).free_list_head).free ≡ true)
kfree-IsChain n ptr h chain off big =
    let b = ptr - block_bytes in
    let c = record (h.store b) { free = true; next = h.free_list_head } in
    let self = put_self b c h.store in
    subst (λ g. IsChain (suc n) g.free_list_head g.store × ((g.store g.free_list_head).free ≡ true))
      (sym (kfree-freed ptr h big))
      (
        (
          λ e. absurd (omega arith),
          subst (λ q. IsChain n q (put b c h.store)) (sym (ap (λ x. x.next) self))
              (put-IsChain b c n h.free_list_head h.store off chain),
        ),
        ap (λ x. x.free) self,
      )

-- A block whose `next` is itself and that is too small: the walk does not end, whatever the fuel.
find_free_block-loop :
    (fuel size b : ℕ) (store : ℕ → Block)
    → b ≢ 0
    → (store b).next ≡ b
    → widen (store b).size < size
    → find_free_block fuel size b store ≡ none
unfolding find_free_block
find_free_block-loop zero size b store h self small = refl
find_free_block-loop (suc fuel) size b store h self small =
    rw
      (
        ≢→==false b 0 h,
        &&-false (store b).free (leb size (widen (store b).size))
            (lt→leb_false size (widen (store b).size) small),
        self,
      )
      (find_free_block-loop fuel size b store h self small)

-- For a block that is still the head of the list, as one that `kmalloc` reused from there is: after
-- `kfree` of it, the search for any larger size never ends.
pub kfree-loop :
    (ptr size : ℕ) (h : Heap)
    → block_bytes < ptr
    → h.free_list_head ≡ ptr - block_bytes
    → widen (h.store (ptr - block_bytes)).size < size
    → (fuel : ℕ) → find_free_block fuel size (kfree ptr h).free_list_head (kfree ptr h).store ≡ none
kfree-loop ptr size h big head small fuel =
    let b = ptr - block_bytes in
    let c = record (h.store b) { free = true; next = h.free_list_head } in
    let self = put_self b c h.store in
    subst (λ g. find_free_block fuel size g.free_list_head g.store ≡ none)
      (sym (kfree-freed ptr h big))
      (find_free_block-loop fuel size b (put b c h.store) (λ e. absurd (omega arith))
        (ap (λ x. x.next) self ∙ head) (subst (λ x. widen x.size < size) (sym self) small))
