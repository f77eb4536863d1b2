-- ===== src/PhysicalMem/Blocks.antt =====
-- The loops that mark and unmark a range of blocks.
use gecko_os.Prelude.{ℕ, zero, suc, ◌+◌, ◌≤◌, ◌≡◌, refl, ◌∙◌, not, ◌&&◌, ◌||◌, arith}
use gecko_os.PhysicalMem.{Pmm, to_u32, is_used, set_block, unset_block, set_blocks, unset_blocks}
use gecko_os.PhysicalMem.Bitmap.{
  IsValid, is_used-set_block, is_used-unset_block, max_blocks-set_block, used_blocks-set_block,
  max_blocks-unset_block, used_blocks-unset_block, set_block-IsValid, unset_block-IsValid,
}
use gecko_os.PhysicalMem.Count.{in_range}

-- `t` is `s` with other bits, over as many blocks.
pub record IsSameBut (s t : Pmm) : Type 0 where
  pub valid : IsValid t
  pub max : t.max_blocks ≡ s.max_blocks
  pub used : t.used_blocks ≡ s.used_blocks

module _ (start : ℕ) where
  pub set_blocks-IsSameBut : (s : Pmm) (r i : ℕ) → IsValid s → IsSameBut s (set_blocks s start r i)
  unfolding set_blocks
  set_blocks-IsSameBut s zero i v = record { valid = v; max = refl; used = refl }
  set_blocks-IsSameBut s (suc r) i v =
      let b = to_u32 (start + i) in
      let later = set_blocks-IsSameBut (set_block s b) r (i + 1) (set_block-IsValid s b v) in
      record {
        valid = later.valid;
        max = later.max ∙ max_blocks-set_block s b;
        used = later.used ∙ used_blocks-set_block s b;
      }

  pub unset_blocks-IsSameBut :
      (s : Pmm) (r i : ℕ) → IsValid s → IsSameBut s (unset_blocks s start r i)
  unfolding unset_blocks
  unset_blocks-IsSameBut s zero i v = record { valid = v; max = refl; used = refl }
  unset_blocks-IsSameBut s (suc r) i v =
      let b = to_u32 (start + i) in
      let later = unset_blocks-IsSameBut (unset_block s b) r (i + 1) (unset_block-IsValid s b v) in
      record {
        valid = later.valid;
        max = later.max ∙ max_blocks-unset_block s b;
        used = later.used ∙ used_blocks-unset_block s b;
      }

  -- The loop of `allocate_blocks` marks the blocks of its range, and no other.
  pub is_used-set_blocks :
      (s : Pmm) (r i : ℕ)
      → IsValid s
      → start + i + r ≤ s.max_blocks
      → (x : ℕ)
      → is_used (set_blocks s start r i) x ≡ (in_range (start + i) (start + i + r) x || is_used s x)
  unfolding set_blocks
  is_used-set_blocks s zero i v h x = ground arith
  is_used-set_blocks s (suc r) i v h x =
      let b = start + i in
      let small : to_u32 b ≡ b = omega (arith, v.small) in
      let kept = max_blocks-set_block s b in
      rw small (
        ground (
          arith,
          is_used-set_blocks (set_block s b) r (i + 1) (set_block-IsValid s b v)
              (omega (arith, kept)) x,
          is_used-set_block s v b (omega arith) x,
        ))

  -- The loop of `free_blocks` unmarks the blocks of its range, and no other.
  pub is_used-unset_blocks :
      (s : Pmm) (r i : ℕ)
      → IsValid s
      → start + i + r ≤ s.max_blocks
      → (x : ℕ)
      → is_used (unset_blocks s start r i) x
        ≡ (not (in_range (start + i) (start + i + r) x) && is_used s x)
  unfolding unset_blocks
  is_used-unset_blocks s zero i v h x = ground arith
  is_used-unset_blocks s (suc r) i v h x =
      let b = start + i in
      let small : to_u32 b ≡ b = omega (arith, v.small) in
      let kept = max_blocks-unset_block s b in
      rw small (
        ground (
          arith,
          is_used-unset_blocks (unset_block s b) r (i + 1) (unset_block-IsValid s b v)
              (omega (arith, kept)) x,
          is_used-unset_block s v b (omega arith) x,
        ))
