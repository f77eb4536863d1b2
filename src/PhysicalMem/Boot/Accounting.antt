-- ===== src/PhysicalMem/Boot/Accounting.antt =====
-- What the allocator holds after `initialize_memory_manager_from_mbi`.
use gecko_os.Prelude.{
  ℕ, ◌+◌, ◌-◌, ◌≤◌, ◌<◌, ◌≡◌, refl, ◌∙◌, inl, inr, Bool, true, false, some, List, arith, ◌==◌,
  if◌then◌else◌, Bool-cases, ◌||◌,
}
use gecko_os.PhysicalMem.{Pmm, sub_u64, to_u64, is_used, set_block, reserve_region}
use gecko_os.PhysicalMem.Bitmap.{
  IsValid, is_used-set_block, max_blocks-set_block, used_blocks-set_block, set_block-IsValid,
}
use gecko_os.PhysicalMem.Count.{IsAccounted, count_below-le, count_below_mark, count_below_ext}
use gecko_os.PhysicalMem.Regions.{IsOver, reserve_region-IsReserved}
use gecko_os.PhysicalMem.Boot.{
  Ram, read_u32, BootInfo, cleared, blocks_of, bitmap_bytes_for, free_tags, reserve_boot,
  reserve_low, ap_trampoline_addr, ap_trampoline_size, initialize_memory_manager_from_mbi,
}
use gecko_os.PhysicalMem.Boot.Cleared.{
  IsRoomy, is_used-cleared, cleared-IsValid, cleared-IsAccounted,
}
use gecko_os.PhysicalMem.Boot.Freed.{region, IsAvailable, IsFreed}
use gecko_os.PhysicalMem.Boot.Walk.{free_tags-Frees}
use gecko_os.PhysicalMem.Boot.Tags.{
  IsKept, free_tags-Keeps, IsWellFormed, first_tag, free_tags-Ends,
}

abbrev kernel_region : BootInfo → ℕ → Bool
kernel_region b = region b.kernel_start (sub_u64 b.kernel_end b.kernel_start)

-- What a reservation keeps: the blocks that were in use, and its own.
record IsGrown (s t : Pmm) (mine : ℕ → Bool) : Type 0 where
  valid : IsValid t
  max : t.max_blocks ≡ s.max_blocks
  used : (x : ℕ) → x < s.max_blocks → is_used t x ≡ (mine x || is_used s x)
  counted : (d : ℕ) → d ≤ 1 → IsOver d s → IsOver d t

reserve_region-IsGrown :
    (s : Pmm) (base size : ℕ)
    → IsValid s
    → IsGrown s (reserve_region s base size) (region base size)
reserve_region-IsGrown s base size v =
    let r = reserve_region-IsReserved s base size v in
    record { valid = r.valid; max = r.max; used = r.marked; counted = r.counted }

IsGrown-trans :
    {s t u : Pmm} {p q : ℕ → Bool} → IsGrown s t p → IsGrown t u q → IsGrown s u (λ x. q x || p x)
IsGrown-trans {s} {t} f g =
    let kept = f.max in
    record {
      valid = g.valid;
      max = g.max ∙ f.max;
      used = λ x h. ground (arith, f.used x h, g.used x (omega arith));
      counted = λ d h o. g.counted d h (f.counted d h o);
    }

reserve_boot-IsGrown :
    (b : BootInfo) (size base bytes : ℕ) (s : Pmm)
    → IsValid s
    → IsGrown s
        (reserve_boot b size base bytes s)
        (λ x. region base bytes x || (region b.mbi_addr size x || kernel_region b x))
unfolding reserve_boot
reserve_boot-IsGrown b size base bytes s v =
    let r1 = reserve_region-IsGrown s b.kernel_start (sub_u64 b.kernel_end b.kernel_start) v in
    let r2 = reserve_region-IsGrown _ b.mbi_addr size r1.valid in
    IsGrown-trans (IsGrown-trans r1 r2) (reserve_region-IsGrown _ base bytes r2.valid)

-- Whether block 0 is counted once too often.
abbrev pub surplus : Pmm → ℕ
surplus s = if is_used s 0 then 1 else 0

module _ (s : Pmm) (v : IsValid s) (some_block : 0 < s.max_blocks) (acc : IsAccounted s) where
  abbrev first_reserved : Pmm
  first_reserved = record (set_block s 0) { used_blocks = to_u64 ((set_block s 0).used_blocks + 1) }

  marks : (x : ℕ) → is_used first_reserved x ≡ ((x == 0) || is_used s x)
  unfolding is_used
  marks x = is_used-set_block s v 0 some_block x

  first_reserved-IsValid : IsValid first_reserved
  first_reserved-IsValid =
      let same = set_block-IsValid s 0 v in record { in_map = same.in_map; small = same.small }

  first_reserved-IsOver : IsOver (surplus s) first_reserved
  unfolding is_used
  first_reserved-IsOver =
      let few = count_below-le (is_used s) s.max_blocks in
      rw (max_blocks-set_block s 0, used_blocks-set_block s 0)
        (elim (Bool-cases (is_used s 0)) [
          | inl was ↦ rw was (
              omega (
                arith,
                v.small,
                count_below_ext (is_used s) (is_used first_reserved) s.max_blocks
                    (λ x h. ground (arith, marks x, was)),
              ))
          | inr free ↦ rw free (
              omega (
                arith,
                v.small,
                count_below_mark (is_used s) (is_used first_reserved) 0 1 s.max_blocks (omega arith)
                    (λ x h. ground (arith, marks x))
                    (λ x l u h. let e : x ≡ 0 = omega arith in rw e free),
              ))
        ])

  surplus-le : surplus s ≤ 1
  surplus-le = ground arith

  reserve_low-IsGrown :
      IsGrown first_reserved (reserve_low s) (region ap_trampoline_addr ap_trampoline_size)
  unfolding reserve_low
  reserve_low-IsGrown =
      reserve_region-IsGrown first_reserved ap_trampoline_addr ap_trampoline_size
        first_reserved-IsValid

  -- On a valid map of at least one block with a right count, the first block and the trampoline's are
  -- marked and no other; the map stays valid, and the count is right if the first block was free
  -- before, and one too many if it was in use.
  pub reserve_low_lem :
      IsValid (reserve_low s)
      × ((reserve_low s).max_blocks ≡ s.max_blocks)
      × IsOver (surplus s) (reserve_low s)
      × ((x : ℕ)
          → x < s.max_blocks
          → is_used (reserve_low s) x
            ≡ (region ap_trampoline_addr ap_trampoline_size x || ((x == 0) || is_used s x)))
  reserve_low_lem =
      let g = reserve_low-IsGrown in
      let same = max_blocks-set_block s 0 in
      (
        g.valid,
        g.max ∙ same,
        g.counted (surplus s) surplus-le first_reserved-IsOver,
        λ x h. ground (arith, g.used x (omega (arith, same)), marks x),
      )

-- What the allocator is after the boot, from the state `s` that the memory map leaves: `before` is
-- the state with the kernel, the boot information and the bitmap reserved.
pub record IsBooted (m : Ram) (b : BootInfo) (total_size : ℕ) (c before t : Pmm) : Type 0 where
  pub valid : IsValid t
  pub max : t.max_blocks ≡ c.max_blocks
  pub counted : IsOver (surplus before) t
  pub kernel : (x : ℕ) → x < c.max_blocks → kernel_region b x ≡ true → is_used t x ≡ true
  pub boot_info :
      (x : ℕ) → x < c.max_blocks → region b.mbi_addr total_size x ≡ true → is_used t x ≡ true
  pub bitmap :
      (x : ℕ)
      → x < c.max_blocks
      → region c.bitmap_base (bitmap_bytes_for c.max_blocks) x ≡ true
      → is_used t x ≡ true
  pub trampoline :
      (x : ℕ)
      → x < c.max_blocks
      → region ap_trampoline_addr ap_trampoline_size x ≡ true
      → is_used t x ≡ true
  pub first : is_used t 0 ≡ true
  pub only_available :
      (x : ℕ)
      → x < c.max_blocks
      → is_used t x ≡ false
      → IsAvailable m (to_u64 (b.mbi_addr + total_size)) (to_u64 (b.mbi_addr + 8)) x
  pub available :
      (x : ℕ)
      → x < c.max_blocks
      → IsAvailable m (to_u64 (b.mbi_addr + total_size)) (to_u64 (b.mbi_addr + 8)) x
      → kernel_region b x ≡ false
      → region b.mbi_addr total_size x ≡ false
      → region c.bitmap_base (bitmap_bytes_for c.max_blocks) x ≡ false
      → region ap_trampoline_addr ap_trampoline_size x ≡ false
      → (x == 0) ≡ false
      → is_used t x ≡ false

module _ (fuel : ℕ) (m : Ram) (b : BootInfo) (old_words : List ℕ) (room : IsRoomy b old_words)
    (some_block : 0 < blocks_of b.max_addr_used)
    (w : IsWellFormed m (to_u64 (b.mbi_addr + read_u32 m b.mbi_addr)) (to_u64 (b.mbi_addr + 8)))
    (enough : to_u64 (b.mbi_addr + read_u32 m b.mbi_addr) - to_u64 (b.mbi_addr + 8) < fuel) where
  abbrev c : Pmm
  c = cleared b old_words

  abbrev size : ℕ
  size = read_u32 m b.mbi_addr

  abbrev reserved : Pmm → Pmm
  reserved = reserve_boot b size c.bitmap_base (bitmap_bytes_for c.max_blocks)

  max_blocks-cleared : c.max_blocks ≡ blocks_of b.max_addr_used
  unfolding cleared
  max_blocks-cleared = refl

  abbrev Available : ℕ → Type 0
  Available = IsAvailable m (to_u64 (b.mbi_addr + size)) (to_u64 (b.mbi_addr + 8))

  booted :
      (s : Pmm)
      → IsKept c s
      → ((x : ℕ) → x < c.max_blocks → IsFreed (Available x) c s x)
      → IsBooted m b size c (reserved s) (reserve_low (reserved s))
  booted s k freed =
      let g = reserve_boot-IsGrown b size c.bitmap_base (bitmap_bytes_for c.max_blocks) s k.valid in
      let max : (reserved s).max_blocks ≡ c.max_blocks = g.max ∙ k.max in
      let acc : IsAccounted (reserved s) = omega (
        arith,
        g.counted 0 (omega arith)
            (k.counted 0 (omega arith) (omega (arith, cleared-IsAccounted b old_words room))),
      ) in
      let some' : 0 < (reserved s).max_blocks = omega (arith, max, max_blocks-cleared) in
      let low = reserve_low_lem (reserved s) g.valid some' acc in
      let grown = g.used in
      let kept = k.max in
      record {
        valid = low.0;
        max = low.1 ∙ max;
        counted = low.2;
        kernel = λ x h e. ground (arith, low.3 x (omega arith), grown x (omega arith), e);
        boot_info = λ x h e. ground (arith, low.3 x (omega arith), grown x (omega arith), e);
        bitmap = λ x h e. ground (arith, low.3 x (omega arith), grown x (omega arith), e);
        trampoline = λ x h e. ground (arith, low.3 x (omega arith), e);
        first = ground (arith, low.3 0 some');
        only_available = λ x h free.
            let was_free : is_used s x ≡ false =
              ground (arith, low.3 x (omega arith), grown x (omega arith), free) in
            elim ((freed x h).only was_free) [
              | inl before ↦ absurd (
                  ground (
                    arith,
                    before,
                    is_used-cleared b old_words room x (omega (arith, max_blocks-cleared)),
                  ))
              | inr available ↦ available
            ];
        available = λ x h a k_out i_out m_out t_out not_first.
            let was_free = (freed x h).all a in
            ground (arith, low.3 x (omega arith), grown x (omega arith));
      }

  -- With at least one block, room for the bitmap, a well-formed boot information structure and a round for
  -- each of its bytes, the initialisation ends. In use are then the first block, the blocks that
  -- `reserve_region` takes, with its rounding of address and size, for the kernel, the boot information,
  -- the bitmap and the trampoline, and every block that is not in the region of an available entry of the
  -- memory map; all others are free. The count is right but for one more if the first block was still in
  -- use when it is reserved.
  pub initialize_memory_manager_from_mbi_lem :
      (s : Pmm) × (free_tags fuel m (to_u64 (b.mbi_addr + size)) (to_u64 (b.mbi_addr + 8)) c
        ≡ some s)
      × (initialize_memory_manager_from_mbi fuel m b old_words ≡ some (reserve_low (reserved s)))
      × IsBooted m b size c (reserved s) (reserve_low (reserved s))
  unfolding initialize_memory_manager_from_mbi
  initialize_memory_manager_from_mbi_lem =
      let start = to_u64 (b.mbi_addr + 8) in
      let stop = to_u64 (b.mbi_addr + size) in
      let (s, e) = free_tags-Ends m stop start w fuel start c first_tag enough in
      let k : IsKept c s =
        rw e at (free_tags-Keeps fuel m stop start c (cleared-IsValid b old_words room)) in
      let freed : (x : ℕ) → x < c.max_blocks → IsFreed (Available x) c s x = λ x h.
        rw e at (free_tags-Frees m x stop fuel start c (cleared-IsValid b old_words room) h) in
      (s, e, rw (e, initialize_memory_manager_from_mbi), booted s k freed)
