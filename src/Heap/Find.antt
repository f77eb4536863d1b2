-- ===== src/Heap/Find.antt =====
-- The walk over the free list: it ends on a chain, and what it finds fits.
use gecko_os.Prelude.{
  ℕ, zero, suc, ◌≤◌, ◌<◌, false, ◌≡◌, ◌≢◌, refl, ◌⊎◌, inl, inr, true, ◌&&◌, some, arith, leb,
  Bool-cases, ≢→==false,
}
use gecko_os.Heap.{Block, widen, find_free_block}

-- The list from `p` has `n` blocks and then ends.
abbrev pub IsChain : ℕ → ℕ → (ℕ → Block) → Type 0
IsChain zero p store = p ≡ 0
IsChain (suc n) p store = (p ≢ 0) × IsChain n (store p).next store

-- A block of the list that satisfies the request.
abbrev pub Fits : ℕ → ℕ → (ℕ → Block) → Type 0
Fits size p store = (p ≢ 0) × ((store p).free ≡ true) × (size ≤ widen (store p).size)

-- The block `k` links behind `p`.
abbrev pub linked : (k p : ℕ) → (ℕ → Block) → ℕ
linked zero p store = p
linked (suc k) p store = linked k (store p).next store

-- None of the first `n` blocks from `p` satisfies the request.
abbrev pub HasNoFit : (n size p : ℕ) → (ℕ → Block) → Type 0
HasNoFit n size p store = (k : ℕ) → k < n → ¬ Fits size (linked k p store) store

-- `r` is the first of the `n` blocks from `p` that satisfies the request.
abbrev pub IsFirstFit : (n size p : ℕ) → (ℕ → Block) → (r : ℕ) → Type 0
IsFirstFit n size p store r =
    (k : ℕ) × (k < n) × (r ≡ linked k p store) × Fits size r store × HasNoFit k size p store

unfit :
    (size p : ℕ) (store : ℕ → Block)
    → ((store p).free && leb size (widen (store p).size)) ≡ false
    → ¬ Fits size p store
unfit size p store h (there, free, room) = ground (arith, h, free, room)

HasNoFit-suc :
    (n size p : ℕ) (store : ℕ → Block)
    → ¬ Fits size p store
    → HasNoFit n size (store p).next store
    → HasNoFit (suc n) size p store
HasNoFit-suc n size p store here behind zero less = here
HasNoFit-suc n size p store here behind (suc k) less = behind k (omega arith)

pub find_free_block_lem :
    (n size p : ℕ) (store : ℕ → Block)
    → IsChain n p store
    → (r : ℕ) × (find_free_block (suc n) size p store ≡ some r)
      × (((r ≡ 0) × HasNoFit n size p store) ⊎ IsFirstFit n size p store r)
unfolding find_free_block
find_free_block_lem zero size p store h =
    (0, ground (arith, h), inl (refl, λ k less. absurd (omega arith)))
find_free_block_lem (suc n) size p store h =
    let (r, found, answer) = find_free_block_lem n size (store p).next store h.1 in
    elim (Bool-cases ((store p).free && leb size (widen (store p).size))) [
      | inl here ↦ (
        p,
        rw (≢→==false p 0 h.0, here) refl,
        inr (
          0,
          omega arith,
          refl,
          (h.0, ground arith, ground arith),
          λ k less. absurd (omega arith),
        ),
      )
      | inr there ↦
          let passed = unfit size p store there in
          (
            r,
            rw (≢→==false p 0 h.0, there) found,
            elim answer [
              | inl (null, none) ↦ inl (null, HasNoFit-suc n size p store passed none)
              | inr (k, less, at, fits, before) ↦
                  inr (suc k, omega arith, at, fits, HasNoFit-suc k size p store passed before)
            ],
          )
    ]
