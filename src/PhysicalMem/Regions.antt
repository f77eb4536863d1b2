-- ===== src/PhysicalMem/Regions.antt =====
-- `reserve_region` and `free_region`, which mark and unmark the blocks of a range of bytes.
use gecko_os.Prelude.{
  ℕ, zero, suc, ◌+◌, ◌-◌, ◌*◌, ◌/◌, ◌%◌, ◌^◌, ◌≤◌, ◌<◌, ◌≡◌, refl, ◌∙◌, inl, inr, true, false, not,
  ◌&&◌, ◌||◌, arith, ltb, Bool-cases, ltb→lt,
}
use gecko_os.PhysicalMem.{
  Pmm, block_size, blocks_for, sub_u64, to_u32, to_u64, is_used, set_block, unset_block,
  reserve_loop, reserve_region, free_loop, free_region,
}
use gecko_os.PhysicalMem.Bitmap.{
  IsValid, is_used-set_block, is_used-unset_block, max_blocks-set_block, max_blocks-unset_block,
  set_block-IsValid, unset_block-IsValid,
}
use gecko_os.PhysicalMem.Count.{in_range, count_below, count_below-le, count_below_mark}

-- `used_blocks` is the number of used blocks and `d` more.
abbrev pub IsOver : ℕ → Pmm → Type 0
IsOver d s = s.used_blocks ≡ count_below (is_used s) s.max_blocks + d

-- `t` is `s` with the blocks `lo` to `hi - 1` below `max_blocks` marked, each newly marked one
-- counted.
pub record IsReserved (s t : Pmm) (lo hi : ℕ) : Type 0 where
  pub valid : IsValid t
  pub max : t.max_blocks ≡ s.max_blocks
  pub marked : (x : ℕ) → x < s.max_blocks → is_used t x ≡ (in_range lo hi x || is_used s x)
  pub counted : (d : ℕ) → d ≤ 1 → IsOver d s → IsOver d t

-- The same with the blocks unmarked.
pub record IsReleased (s t : Pmm) (lo hi : ℕ) : Type 0 where
  pub valid : IsValid t
  pub max : t.max_blocks ≡ s.max_blocks
  pub marked : (x : ℕ) → x < s.max_blocks → is_used t x ≡ (not (in_range lo hi x) && is_used s x)
  pub counted : (d : ℕ) → d ≤ 1 → IsOver d s → IsOver d t

-- Ranges side by side make one range.
IsReserved-join :
    {s t u : Pmm} (lo mid hi : ℕ)
    → lo ≤ mid
    → mid ≤ hi
    → IsReserved s t lo mid
    → IsReserved t u mid hi
    → IsReserved s u lo hi
IsReserved-join {s} {t} lo mid hi l h f g =
    let kept = f.max in
    record {
      valid = g.valid;
      max = g.max ∙ f.max;
      marked = λ x lt. ground (arith, f.marked x lt, g.marked x (omega arith));
      counted = λ d small o. g.counted d small (f.counted d small o);
    }

IsReleased-join :
    {s t u : Pmm} (lo mid hi : ℕ)
    → lo ≤ mid
    → mid ≤ hi
    → IsReleased s t lo mid
    → IsReleased t u mid hi
    → IsReleased s u lo hi
IsReleased-join {s} {t} lo mid hi l h f g =
    let kept = f.max in
    record {
      valid = g.valid;
      max = g.max ∙ f.max;
      marked = λ x lt. ground (arith, f.marked x lt, g.marked x (omega arith));
      counted = λ d small o. g.counted d small (f.counted d small o);
    }

module _ (s : Pmm) (v : IsValid s) where
  IsReserved-same :
      (lo hi : ℕ)
      → ((x : ℕ) → x < s.max_blocks → lo ≤ x → x < hi → is_used s x ≡ true)
      → IsReserved s s lo hi
  IsReserved-same lo hi used = record {
    valid = v;
    max = refl;
    marked = λ x lt. ground (arith, used x lt);
    counted = λ d small o. o;
  }

  IsReleased-same :
      (lo hi : ℕ)
      → ((x : ℕ) → x < s.max_blocks → lo ≤ x → x < hi → is_used s x ≡ false)
      → IsReleased s s lo hi
  IsReleased-same lo hi free = record {
    valid = v;
    max = refl;
    marked = λ x lt. ground (arith, free x lt);
    counted = λ d small o. o;
  }

  -- One round that marks a free block, or unmarks a used one.
  module _ (b : ℕ) (lt : b < s.max_blocks) where
    abbrev marked_one : Pmm
    marked_one = record (set_block s (to_u32 b)) { used_blocks = to_u64 (s.used_blocks + 1) }

    abbrev unmarked_one : Pmm
    unmarked_one = record (unset_block s (to_u32 b)) { used_blocks = sub_u64 s.used_blocks 1 }

    small_b : to_u32 b ≡ b
    small_b = omega (arith, v.small)

    marked_one-IsReserved : is_used s b ≡ false → IsReserved s marked_one b (b + 1)
    unfolding is_used
    marked_one-IsReserved free = rw small_b (
        let t = set_block s b in
        let marks : (x : ℕ) → is_used t x ≡ (in_range b (b + 1) x || is_used s x) =
          λ x. ground (arith, is_used-set_block s v b lt x) in
        let grown =
          count_below_mark (is_used s) (is_used t) b (b + 1) s.max_blocks (omega arith)
            (λ x h. marks x) (λ x l u h. let e : x ≡ b = omega arith in rw e free) in
        let few = count_below-le (is_used t) s.max_blocks in
        let same = set_block-IsValid s b v in
        record {
          valid = record { in_map = same.in_map; small = same.small };
          max = max_blocks-set_block s b;
          marked = λ x h. marks x;
          counted = λ d small o. rw (max_blocks-set_block s b) (omega (arith, v.small));
        })

    unmarked_one-IsReleased : is_used s b ≡ true → IsReleased s unmarked_one b (b + 1)
    unfolding is_used
    unmarked_one-IsReleased used = rw small_b (
        let t = unset_block s b in
        let marks : (x : ℕ) → is_used t x ≡ (not (in_range b (b + 1) x) && is_used s x) =
          λ x. ground (arith, is_used-unset_block s v b lt x) in
        let grown =
          count_below_mark (is_used t) (is_used s) b (b + 1) s.max_blocks (omega arith)
            (λ x h. ground (arith, marks x, used)) (λ x l u h. ground (arith, marks x)) in
        let few = count_below-le (is_used s) s.max_blocks in
        let same = unset_block-IsValid s b v in
        record {
          valid = record { in_map = same.in_map; small = same.small };
          max = max_blocks-unset_block s b;
          marked = λ x h. marks x;
          counted = λ d small o. rw (max_blocks-unset_block s b) (omega (arith, v.small));
        })

reserve_loop-IsReserved :
    (s : Pmm) (r b : ℕ) → IsValid s → IsReserved s (reserve_loop s r b) b (b + r)
unfolding reserve_loop
reserve_loop-IsReserved s zero b v = IsReserved-same s v b (b + 0) (λ x h l u. absurd (omega arith))
reserve_loop-IsReserved s (suc r) b v = elim (Bool-cases (ltb b s.max_blocks)) [
  | inr out ↦ rw out (IsReserved-same s v b (b + suc r) (λ x h l u. ground arith))
  | inl inside ↦
      let lt = ltb→lt b s.max_blocks inside in
      let end : b + 1 + r ≡ b + suc r = omega arith in
      elim (Bool-cases (is_used s b)) [
        | inl used ↦
            rw (inside, used, ← end)
              (IsReserved-join b (b + 1) (b + 1 + r) (omega arith) (omega arith)
                (IsReserved-same s v b (b + 1)
                  (λ x h l u. let e : x ≡ b = omega arith in rw e used))
                (reserve_loop-IsReserved s r (b + 1) v))
        | inr free ↦
            rw (inside, free, ← end)
              (let one = marked_one-IsReserved s v b lt free in
                IsReserved-join b (b + 1) (b + 1 + r) (omega arith) (omega arith) one
                  (reserve_loop-IsReserved (marked_one s v b lt) r (b + 1) one.valid))
      ]
]

free_loop-IsReleased : (s : Pmm) (r b : ℕ) → IsValid s → IsReleased s (free_loop s r b) b (b + r)
unfolding free_loop
free_loop-IsReleased s zero b v = IsReleased-same s v b (b + 0) (λ x h l u. absurd (omega arith))
free_loop-IsReleased s (suc r) b v = elim (Bool-cases (ltb b s.max_blocks)) [
  | inr out ↦ rw out (IsReleased-same s v b (b + suc r) (λ x h l u. ground arith))
  | inl inside ↦
      let lt = ltb→lt b s.max_blocks inside in
      let end : b + 1 + r ≡ b + suc r = omega arith in
      elim (Bool-cases (is_used s b)) [
        | inr free ↦
            rw (inside, free, ← end)
              (IsReleased-join b (b + 1) (b + 1 + r) (omega arith) (omega arith)
                (IsReleased-same s v b (b + 1)
                  (λ x h l u. let e : x ≡ b = omega arith in rw e free))
                (free_loop-IsReleased s r (b + 1) v))
        | inl used ↦
            rw (inside, used, ← end)
              (let one = unmarked_one-IsReleased s v b lt used in
                IsReleased-join b (b + 1) (b + 1 + r) (omega arith) (omega arith) one
                  (free_loop-IsReleased (unmarked_one s v b lt) r (b + 1) one.valid))
      ]
]

-- On a valid map `reserve_region` marks the blocks from that of `base` on, as many as `size` bytes
-- fill, and no other; the map stays valid, and `used_blocks` stays as far over the number of used
-- blocks as it was, if that is at most one.
pub reserve_region-IsReserved :
    (s : Pmm) (base size : ℕ)
    → IsValid s
    → IsReserved s
        (reserve_region s base size)
        (base / block_size)
        (base / block_size + blocks_for size)
unfolding reserve_region
reserve_region-IsReserved s base size v =
    reserve_loop-IsReserved s (blocks_for size) (base / block_size) v

-- On a valid map `free_region` unmarks the blocks from that of `base` on, as many as `size` bytes
-- fill with a part of a block counted as one, and no other; the map stays valid, and `used_blocks`
-- stays as far over the number of used blocks as it was, if that is at most one.
pub free_region-IsReleased :
    (s : Pmm) (base size : ℕ)
    → IsValid s
    → IsReleased s
        (free_region s base size)
        (base / block_size)
        (base / block_size + blocks_for size)
unfolding free_region
free_region-IsReleased s base size v =
    free_loop-IsReleased s (blocks_for size) (base / block_size) v

-- A region with an aligned start is reserved whole.
pub reserve_region_covers :
    (s : Pmm) (base size a : ℕ)
    → IsValid s
    → base % block_size ≡ 0
    → size < 2 ^ 63
    → base ≤ a
    → a < base + size
    → a / block_size < s.max_blocks
    → is_used (reserve_region s base size) (a / block_size) ≡ true
reserve_region_covers s base size a v aligned fits lo hi in_map =
    ground (arith, (reserve_region-IsReserved s base size v).marked (a / block_size) in_map)

-- On a valid map, where the bytes of a region reach over one block more than `size` alone fills,
-- `reserve_region` leaves the block of the last byte as it was.
pub reserve_region_misses :
    (s : Pmm) (base size : ℕ)
    → IsValid s
    → 0 < size
    → size < 2 ^ 63
    → blocks_for size * block_size < base % block_size + size
    → (base + size - 1) / block_size < s.max_blocks
    → is_used (reserve_region s base size) ((base + size - 1) / block_size)
      ≡ is_used s ((base + size - 1) / block_size)
reserve_region_misses s base size v pos fits over in_map = ground (
  arith,
  (reserve_region-IsReserved s base size v).marked ((base + size - 1) / block_size) in_map,
)
