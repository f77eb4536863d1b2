-- ===== src/PhysicalMem/Bitmap.antt =====
-- What `set_block` and `unset_block` do to each bit of the map.
use gecko_os.Prelude.{
  ℕ, ◌*◌, ◌/◌, ◌%◌, ◌^◌, ◌≤◌, ◌<◌, ◌≡◌, sym, ◌≢◌, inl, inr, not, ◌&&◌, ◌||◌, bit_and, bit_or, List,
  arith, ◌==◌, length, set, get_or, length-set, get_or-set_self, get_or-set_ne, Bool-cases, lt→ltb,
  ==_iff, ==false→≢,
}
use gecko_os.Prelude.Bits.{
  bit, complement, bit-le-one, bit-bit_or, bit-bit_and, bit-complement, bit-two_pow_self,
  bit-two_pow_ne, bit_and-two_pow,
}
use native.Mathlib.Nat.{one-le-pow, pow-le-pow_right}
use gecko_os.PhysicalMem.{Pmm, test_bit, word, is_used, set_block, unset_block}

-- The map holds a bit for every block, and block numbers fit `uint32_t` with -1 to spare.
pub record IsValid (s : Pmm) : Type 0 where
  pub in_map : s.max_blocks ≤ 32 * length s.memory_map
  pub small : s.max_blocks ≤ 2 ^ 31

pub test_bit-bit : (w j : ℕ) → test_bit w j ≡ (bit w j == 1)
test_bit-bit w j = grind (arith, bit_and-two_pow w j, bit-le-one w j, one-le-pow j 2 (omega arith))

-- Bit `x` of a list of words.
map_bit : List ℕ → ℕ → ℕ
map_bit xs x = bit (get_or xs (x / 32) 0) (x % 32)

is_used-map_bit : (s : Pmm) (x : ℕ) → is_used s x ≡ (map_bit s.memory_map x == 1)
unfolding is_used map_bit
is_used-map_bit s x = test_bit-bit (word s (x / 32)) (x % 32)

-- A write to the word of `b` that changes only the digit of `b`.
module _ (xs : List ℕ) (b value : ℕ) (lt : b / 32 < length xs) where
  map_bit-set_self : map_bit (set xs (b / 32) value) b ≡ bit value (b % 32)
  unfolding map_bit
  map_bit-set_self = rw (get_or-set_self xs (b / 32) value 0 lt)

  map_bit-set_ne :
      ((j : ℕ) → j < 32 → j ≢ b % 32 → bit value j ≡ bit (get_or xs (b / 32) 0) j)
      → (x : ℕ) → x ≢ b
      → map_bit (set xs (b / 32) value) x ≡ map_bit xs x
  unfolding map_bit
  map_bit-set_ne same x ne = elim (Bool-cases (x / 32 == b / 32)) [
    | inl e ↦
        let e' : x / 32 ≡ b / 32 = (==_iff _ _).0 e in
        rw (e', get_or-set_self xs (b / 32) value 0 lt) (same (x % 32) (omega arith) (omega arith))
    | inr d ↦ rw (get_or-set_ne xs (b / 32) (x / 32) value 0 (λ p. ==false→≢ _ _ d (sym p)))
  ]

-- `word |= 1u << k` and `word &= ~(1u << k)`, digit by digit.
or_ne : (w k j : ℕ) → j ≢ k → bit (bit_or w (2 ^ k)) j ≡ bit w j
or_ne w k j ne = omega (arith, bit-bit_or w (2 ^ k) j, bit-two_pow_ne k j (λ e. ne (sym e)))

or_self : (w k : ℕ) → bit (bit_or w (2 ^ k)) k ≡ 1
or_self w k = omega (arith, bit-bit_or w (2 ^ k) k, bit-two_pow_self k, bit-le-one w k)

two_pow-lt : (k : ℕ) → k < 32 → 2 ^ k < 2 ^ 32
two_pow-lt k h =
    let top : 2 ^ k ≤ 2 ^ 31 = pow-le-pow_right (omega arith) {j = 31} (omega arith) in
    omega (arith, top)

and_ne : (w k j : ℕ) → k < 32 → j < 32 → j ≢ k → bit (bit_and w (complement 32 (2 ^ k))) j ≡ bit w j
and_ne w k j hk hj ne = omega (
  arith,
  bit-bit_and w (complement 32 (2 ^ k)) j,
  bit-complement 32 (2 ^ k) j (two_pow-lt k hk) hj,
  bit-two_pow_ne k j (λ e. ne (sym e)),
  bit-le-one w j,
)

and_self : (w k : ℕ) → k < 32 → bit (bit_and w (complement 32 (2 ^ k))) k ≡ 0
and_self w k hk = omega (
  arith,
  bit-bit_and w (complement 32 (2 ^ k)) k,
  bit-complement 32 (2 ^ k) k (two_pow-lt k hk) hk,
  bit-two_pow_self k,
)

module _ (s : Pmm) (v : IsValid s) (b : ℕ) (lt : b < s.max_blocks) where
  memory_map-set_block :
      (set_block s b).memory_map
      ≡ set s.memory_map (b / 32) (bit_or (word s (b / 32)) (2 ^ (b % 32)))
  unfolding set_block
  memory_map-set_block = rw (lt→ltb _ _ lt)

  memory_map-unset_block :
      (unset_block s b).memory_map
      ≡ set s.memory_map (b / 32) (bit_and (word s (b / 32)) (complement 32 (2 ^ (b % 32))))
  unfolding unset_block
  memory_map-unset_block = rw (lt→ltb _ _ lt)

  in_word : b / 32 < length s.memory_map
  in_word = omega (arith, v.in_map)

  -- `set_block` marks its block used and touches no other.
  pub is_used-set_block : (x : ℕ) → is_used (set_block s b) x ≡ ((x == b) || is_used s x)
  is_used-set_block x =
      let old = word s (b / 32) in
      let new = bit_or old (2 ^ (b % 32)) in
      rw (is_used-map_bit (set_block s b) x, is_used-map_bit s x, memory_map-set_block)
        (ground (
          arith,
          map_bit-set_self s.memory_map b new in_word,
          or_self old (b % 32),
          map_bit-set_ne s.memory_map b new in_word (λ j h ne. or_ne old (b % 32) j ne) x,
        ))

  -- `unset_block` marks its block free and touches no other.
  pub is_used-unset_block : (x : ℕ) → is_used (unset_block s b) x ≡ (not (x == b) && is_used s x)
  is_used-unset_block x =
      let old = word s (b / 32) in
      let new = bit_and old (complement 32 (2 ^ (b % 32))) in
      rw (is_used-map_bit (unset_block s b) x, is_used-map_bit s x, memory_map-unset_block)
        (ground (
          arith,
          map_bit-set_self s.memory_map b new in_word,
          and_self old (b % 32) (omega arith),
          map_bit-set_ne s.memory_map b new in_word
              (λ j h ne. and_ne old (b % 32) j (omega arith) h ne) x,
        ))

-- Neither changes anything but the map, or the size of the map.
module _ (s : Pmm) (b : ℕ) where
  pub max_blocks-set_block : (set_block s b).max_blocks ≡ s.max_blocks
  unfolding set_block
  max_blocks-set_block = ground arith

  pub used_blocks-set_block : (set_block s b).used_blocks ≡ s.used_blocks
  unfolding set_block
  used_blocks-set_block = ground arith

  pub max_blocks-unset_block : (unset_block s b).max_blocks ≡ s.max_blocks
  unfolding unset_block
  max_blocks-unset_block = ground arith

  pub used_blocks-unset_block : (unset_block s b).used_blocks ≡ s.used_blocks
  unfolding unset_block
  used_blocks-unset_block = ground arith

  pub set_block-IsValid : IsValid s → IsValid (set_block s b)
  unfolding set_block
  set_block-IsValid v =
      ground (arith, length-set s.memory_map (b / 32) (bit_or (word s (b / 32)) (2 ^ (b % 32))))

  pub unset_block-IsValid : IsValid s → IsValid (unset_block s b)
  unfolding unset_block
  unset_block-IsValid v = ground (
    arith,
    length-set s.memory_map (b / 32) (bit_and (word s (b / 32)) (complement 32 (2 ^ (b % 32)))),
  )
