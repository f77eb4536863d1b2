-- ===== src/PhysicalMem/Boot/Cleared.antt =====
-- Every block is in use before the memory map is read.
use gecko_os.Prelude.{
  ℕ, zero, suc, ◌+◌, ◌-◌, ◌*◌, ◌/◌, ◌%◌, ◌^◌, ◌≤◌, ◌<◌, ◌≡◌, refl, sym, inl, inr, true, List, [],
  ◌∷◌, arith, leb, Bool-cases, length, get_or,
}
use gecko_os.Prelude.Bits.{bit, bit-ones, bit-bit_or, bit-le-one}
use gecko_os.PhysicalMem.{is_used}
use gecko_os.PhysicalMem.Bitmap.{IsValid, test_bit-bit}
use gecko_os.PhysicalMem.Count.{IsAccounted, count_below_all}
use gecko_os.PhysicalMem.Boot.{BootInfo, fill_ones, cleared, blocks_of, bitmap_bytes_for}

pub length-fill_ones : (ws : List ℕ) (n : ℕ) → length (fill_ones ws n) ≡ length ws
unfolding fill_ones
length-fill_ones [] n = refl
length-fill_ones (w ∷ ws) n = omega (arith, length-fill_ones ws (n - 4))

-- A bit among the first `n` bytes is set.
bit-fill_ones :
    (ws : List ℕ) (n i j : ℕ)
    → j < 32
    → i < length ws
    → 32 * i + j < 8 * n
    → bit (get_or (fill_ones ws n) i 0) j ≡ 1
unfolding fill_ones
bit-fill_ones [] n i j h l lt = absurd (omega arith)
bit-fill_ones (w ∷ ws) n zero j h l lt = elim (Bool-cases (leb 4 n)) [
  | inl full ↦ rw full (bit-ones 32 j h)
  | inr part ↦ rw part (
      omega
        (arith, bit-bit_or w (2 ^ (8 * n) - 1) j, bit-ones (8 * n) j (omega arith), bit-le-one w j))
]
bit-fill_ones (w ∷ ws) n (suc i) j h l lt =
    bit-fill_ones ws (n - 4) i j h (omega arith) (omega arith)

-- The bitmap's memory has room for every block, and there are not too many of these.
pub record IsRoomy (b : BootInfo) (old_words : List ℕ) : Type 0 where
  pub fits : blocks_of b.max_addr_used ≤ 32 * length old_words
  pub small : blocks_of b.max_addr_used ≤ 2 ^ 31

module _ (b : BootInfo) (ws : List ℕ) (room : IsRoomy b ws) where
  pub cleared-IsValid : IsValid (cleared b ws)
  unfolding cleared
  cleared-IsValid = omega (
    arith,
    room.fits,
    room.small,
    length-fill_ones ws (bitmap_bytes_for (blocks_of b.max_addr_used)),
  )

  pub is_used-cleared : (x : ℕ) → x < blocks_of b.max_addr_used → is_used (cleared b ws) x ≡ true
  unfolding cleared is_used
  is_used-cleared x lt =
      let bytes = bitmap_bytes_for (blocks_of b.max_addr_used) in
      let one =
        bit-fill_ones ws bytes (x / 32) (x % 32) (omega arith) (omega (arith, room.fits))
          (omega arith) in
      rw (test_bit-bit, one)

  pub cleared-IsAccounted : IsAccounted (cleared b ws)
  unfolding cleared
  cleared-IsAccounted =
      sym (count_below_all (is_used (cleared b ws)) (blocks_of b.max_addr_used) is_used-cleared)
