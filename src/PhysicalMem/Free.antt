-- ===== src/PhysicalMem/Free.antt =====
-- `free_blocks`: what it gives back, and what it does to blocks that are free already.
use gecko_os.Prelude.{
  ℕ, ◌+◌, ◌-◌, ◌*◌, ◌/◌, ◌^◌, ◌≤◌, ◌<◌, ◌≡◌, ◌∙◌, sym, true, false, not, ◌&&◌, some, arith, ltb,
  leb, min,
}
use gecko_os.PhysicalMem.{
  Pmm, block_size, sub_u64, to_u32, is_used, unset_blocks, allocate_blocks, free_blocks,
}
use gecko_os.PhysicalMem.Bitmap.{IsValid}
use gecko_os.PhysicalMem.Count.{
  in_range, IsAccounted, IsAccounted-at, count_below, count_below-le, count_below_mark,
  count_below_ext,
}
use gecko_os.PhysicalMem.Blocks.{unset_blocks-IsSameBut, is_used-unset_blocks}
use gecko_os.PhysicalMem.Allocate.{Granted, allocate_blocks-Granted, run_end}

module _ (s : Pmm) (v : IsValid s) (b n : ℕ) (pos : 0 < n) (fits : b + n ≤ s.max_blocks) where
  -- What `free_blocks` computes where its guards pass.
  free_blocks-eq :
      free_blocks s (b * block_size) n
      ≡ record (unset_blocks s b n 0) { used_blocks = sub_u64 s.used_blocks n }
  unfolding free_blocks
  free_blocks-eq =
      let start : to_u32 (b * block_size / block_size) ≡ b = omega (arith, v.small) in
      let low : leb (2 ^ 31) b ≡ false = ground (arith, v.small, fits) in
      let inside : ltb s.max_blocks (b + n) ≡ false = ground (arith, fits) in
      rw (start, low, inside)

  marks : (x : ℕ) → is_used (unset_blocks s b n 0) x ≡ (not (in_range b (b + n) x) && is_used s x)
  marks x =
      let e : b + 0 ≡ b = omega arith in rw e at (is_used-unset_blocks b s n 0 v (omega arith) x)

  -- `free_blocks` clears the bits of the blocks that it is given, and no other.
  pub is_used-free_blocks :
      (x : ℕ)
      → is_used (free_blocks s (b * block_size) n) x ≡ (not (in_range b (b + n) x) && is_used s x)
  unfolding is_used
  is_used-free_blocks x = rw free_blocks-eq (marks x)

  pub max_blocks-free_blocks : (free_blocks s (b * block_size) n).max_blocks ≡ s.max_blocks
  max_blocks-free_blocks = rw free_blocks-eq (unset_blocks-IsSameBut b s n 0 v).max

  pub free_blocks-IsValid : IsValid (free_blocks s (b * block_size) n)
  free_blocks-IsValid =
      let same = (unset_blocks-IsSameBut b s n 0 v).valid in
      rw free_blocks-eq (record { in_map = same.in_map; small = same.small })

  pub used_blocks-free_blocks :
      (free_blocks s (b * block_size) n).used_blocks ≡ sub_u64 s.used_blocks n
  used_blocks-free_blocks = rw free_blocks-eq

  -- On a valid map with a right count, freeing one or more blocks below `max_blocks` that are all
  -- in use leaves the count right.
  pub free_blocks-IsAccounted :
      IsAccounted s
      → ((x : ℕ) → b ≤ x → x < b + n → is_used s x ≡ true)
      → IsAccounted (free_blocks s (b * block_size) n)
  free_blocks-IsAccounted acc used =
      let t = free_blocks s (b * block_size) n in
      let grown : count_below (is_used s) s.max_blocks
          ≡ count_below (is_used t) s.max_blocks + (min s.max_blocks (b + n) - min s.max_blocks b) =
        count_below_mark (is_used t) (is_used s) b (b + n) s.max_blocks (omega arith)
          (λ x h. ground (arith, is_used-free_blocks x, used x))
          (λ x l u h. ground (arith, is_used-free_blocks x)) in
      let few = count_below-le (is_used s) s.max_blocks in
      (IsAccounted-at t max_blocks-free_blocks).1 (omega (arith, v.small, used_blocks-free_blocks))

  -- On a valid map with a right count, freeing one or more blocks below `max_blocks` that are all
  -- free already leaves every bit as it is and makes the count wrong.
  pub free_blocks_twice :
      IsAccounted s
      → ((x : ℕ) → b ≤ x → x < b + n → is_used s x ≡ false)
      → ((x : ℕ) → is_used (free_blocks s (b * block_size) n) x ≡ is_used s x)
        × ¬ IsAccounted (free_blocks s (b * block_size) n)
  free_blocks_twice acc clear =
      let t = free_blocks s (b * block_size) n in
      let same : (x : ℕ) → is_used t x ≡ is_used s x =
        λ x. ground (arith, is_used-free_blocks x, clear x) in
      let count : count_below (is_used t) s.max_blocks ≡ count_below (is_used s) s.max_blocks =
        count_below_ext (is_used s) (is_used t) s.max_blocks (λ x h. same x) in
      let few = count_below-le (is_used s) s.max_blocks in
      (
        same,
        λ bad. omega (
          arith,
          (IsAccounted-at t max_blocks-free_blocks).0 bad,
          used_blocks-free_blocks,
          v.small,
        ),
      )

-- On a valid map with a right count, freeing what `allocate_blocks` granted gives back every bit of
-- the map and the count of before.
pub free_blocks-allocate_blocks :
    (s : Pmm) (n a : ℕ) (t : Pmm)
    → IsValid s
    → IsAccounted s
    → allocate_blocks s n ≡ (some a, t)
    → ((x : ℕ) → is_used (free_blocks t a n) x ≡ is_used s x)
      × ((free_blocks t a n).used_blocks ≡ s.used_blocks)
free_blocks-allocate_blocks s n a t v acc e =
    let (pos, more, b, at, first, g) = grant in
    let run = first.2 in
    let end = run_end s v acc b n pos run in
    let top : b + n ≤ t.max_blocks = omega (arith, g.max) in
    let clear : (x : ℕ) → b ≤ x → x < b + n → is_used s x ≡ false =
      λ x l u. let p : b + (x - b) ≡ x = omega arith in rw p at ((run (x - b) (omega arith)).1) in
    let bits = is_used-free_blocks t g.valid b n pos top in
    let back =
      free_blocks-IsAccounted t g.valid b n pos top g.counted
        (λ x l u. ground (arith, g.marked x)) in
    let same : (x : ℕ) → is_used (free_blocks t (b * block_size) n) x ≡ is_used s x =
      λ x. ground (arith, bits x, g.marked x, clear x) in
    let count =
      count_below_ext (is_used s) (is_used (free_blocks t (b * block_size) n)) s.max_blocks
        (λ x h. same x) in
    let blocks = max_blocks-free_blocks t g.valid b n pos top ∙ g.max in
    let total =
      (IsAccounted-at (free_blocks t (b * block_size) n) blocks).0 back ∙ count ∙ sym acc in
    rw at (same, total)
  where
    grant : Granted s n (some a, t)
    grant = rw e at (allocate_blocks-Granted s v acc n)
