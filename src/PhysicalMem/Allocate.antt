-- ===== src/PhysicalMem/Allocate.antt =====
-- `allocate_blocks` and `free_blocks`.
use gecko_os.Prelude.{
  ℕ, zero, suc, ◌+◌, ◌-◌, ◌*◌, ◌/◌, ◌^◌, ◌≤◌, ◌<◌, ◌≡◌, refl, ◌⊎◌, inl, inr, Bool, true, false,
  ◌||◌, Option, none, some, arith, leb, ◌==◌, Bool-cases, min, ≢→==false, leb→le, lt→ltb, ltb→lt,
  ltb,
}
use gecko_os.PhysicalMem.{
  Pmm, block_size, minus_one, sub_u64, to_u64, is_used, find_first_free_blocks, set_blocks,
  allocate_blocks,
}
use gecko_os.PhysicalMem.Bitmap.{IsValid}
use gecko_os.PhysicalMem.Count.{
  in_range, IsAccounted, count_below, count_below-le, count_below_mark,
}
use gecko_os.PhysicalMem.Blocks.{set_blocks-IsSameBut, is_used-set_blocks}
use gecko_os.PhysicalMem.Search.{IsFreeRun, IsFirstRun, found, find_first_free_blocks_lem}

-- `t` is `s` with the blocks `b` to `b + n - 1` marked, and counted.
pub record IsGranted (s t : Pmm) (b n : ℕ) : Type 0 where
  pub valid : IsValid t
  pub max : t.max_blocks ≡ s.max_blocks
  pub marked : (x : ℕ) → is_used t x ≡ (in_range b (b + n) x || is_used s x)
  pub counted : IsAccounted t

-- What the caller of `allocate_blocks` gets: `NULL` from an unchanged allocator that has no room,
-- or the address of the first run of free blocks, now marked. It counts as no room when exactly
-- `n` blocks are free.
abbrev pub Granted : Pmm → ℕ → Option ℕ × Pmm → Type 0
Granted s n (none, t) =
    (t ≡ s)
    × ((n ≡ 0)
        ⊎ (s.max_blocks ≤ s.used_blocks + n)
        ⊎ IsFirstRun s n 0 (s.max_blocks / 32 * 32) none)
Granted s n (some a, t) =
    (0 < n)
    × (s.used_blocks + n < s.max_blocks)
    × (b : ℕ) × (a ≡ b * block_size)
    × IsFirstRun s n 0 (s.max_blocks / 32 * 32) (some b)
    × IsGranted s t b n

room_left : (a b : ℕ) → leb a b ≡ false → ltb b a ≡ true
room_left a b h = ground arith

module _ (s : Pmm) (v : IsValid s) (acc : IsAccounted s) where
  used-le : s.used_blocks ≤ s.max_blocks
  used-le = omega (arith, count_below-le (is_used s) s.max_blocks)

  pub run_end : (b n : ℕ) → 0 < n → IsFreeRun s b n → b + n ≤ s.max_blocks
  run_end b zero h run = elim h [ ]
  run_end b (suc n) h run = omega (arith, (run n (omega arith)).0)

  -- The state that `allocate_blocks` leaves.
  abbrev granted : (b n : ℕ) → Pmm
  granted b n = record (set_blocks s b n 0) { used_blocks = to_u64 (s.used_blocks + n) }

  grant : (b n : ℕ) → 0 < n → IsFreeRun s b n → IsGranted s (granted b n) b n
  unfolding is_used
  grant b n pos run =
      let end : b + n ≤ s.max_blocks = run_end b n pos run in
      let end' : b + 0 + n ≤ s.max_blocks = omega arith in
      let same = set_blocks-IsSameBut b s n 0 v in
      let max' = same.max in
      let marks : (x : ℕ) → is_used (set_blocks s b n 0) x ≡ (in_range b (b + n) x || is_used s x) =
        λ x. let e : b + 0 ≡ b = omega arith in rw e at (is_used-set_blocks b s n 0 v end' x) in
      let grown : count_below (is_used (set_blocks s b n 0)) s.max_blocks
          ≡ count_below (is_used s) s.max_blocks + (min s.max_blocks (b + n) - min s.max_blocks b) =
        count_below_mark (is_used s) (is_used (set_blocks s b n 0)) b (b + n) s.max_blocks
          (omega arith) (λ x h. marks x)
          (λ x l u h.
            let e : b + (x - b) ≡ x = omega arith in rw e at ((run (x - b) (omega arith)).1)) in
      let few = count_below-le (is_used (set_blocks s b n 0)) s.max_blocks in
      record {
        valid = record { in_map = same.valid.in_map; small = same.valid.small };
        max = same.max;
        marked = marks;
        counted = rw max' (omega (arith, v.small));
      }

  none_of_zero :
      (b : Bool)
      → leb (sub_u64 s.max_blocks s.used_blocks) 0 ≡ b
      → Granted s 0 (allocate_blocks s 0)
  unfolding allocate_blocks find_first_free_blocks
  none_of_zero true e = rw e (refl, inl refl)
  none_of_zero false e = rw e (refl, inl refl)

  no_room :
      (n : ℕ)
      → leb (sub_u64 s.max_blocks s.used_blocks) (suc n) ≡ true
      → Granted s (suc n) (allocate_blocks s (suc n))
  unfolding allocate_blocks
  no_room n few = rw few (refl, inr (inl (omega (arith, leb→le _ _ few, used-le, v.small))))

  searched :
      (n : ℕ)
      → leb (sub_u64 s.max_blocks s.used_blocks) (suc n) ≡ false
      → (o : Option ℕ) → find_first_free_blocks s (suc n) ≡ found o
      → IsFirstRun s (suc n) 0 (s.max_blocks / 32 * 32) o
      → Granted s (suc n) (allocate_blocks s (suc n))
  unfolding allocate_blocks
  searched n room none e f = rw (room, e) (refl, inr (inr f))
  searched n room (some b) e f =
      let low : b < 2 ^ 31 = omega (arith, f.1, v.small) in
      let more : s.used_blocks + suc n < s.max_blocks =
        omega (arith, ltb→lt _ _ (room_left _ _ room), used-le, v.small) in
      let there : (b == minus_one) ≡ false = ≢→==false b minus_one (omega arith) in
      rw (room, e, there, lt→ltb _ _ low)
        (omega arith, more, b, omega arith, f, grant b (suc n) (omega arith) f.2)

  -- On a valid map with a right count `allocate_blocks` either returns `NULL` and changes nothing,
  -- and then no block was asked for, at most `n` blocks are free, or no whole word holds the start of
  -- a run of `n` free blocks; or more than `n` > 0 blocks are free, and it returns the address of the
  -- first such run, has marked exactly
  -- these blocks, and keeps the map valid and the count right.
  pub allocate_blocks-Granted : (n : ℕ) → Granted s n (allocate_blocks s n)
  allocate_blocks-Granted zero = none_of_zero (leb (sub_u64 s.max_blocks s.used_blocks) 0) refl
  allocate_blocks-Granted (suc n) =
      let (o, e, f) = find_first_free_blocks_lem s (suc n) v (omega arith) in
      elim (Bool-cases (leb (sub_u64 s.max_blocks s.used_blocks) (suc n))) [
        | inl few ↦ no_room n few
        | inr room ↦ searched n room o e f
      ]
