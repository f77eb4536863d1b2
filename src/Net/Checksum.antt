-- ===== src/Net/Checksum.antt =====
-- `ip_checksum` of kernel/net/ip.c and `icmp_checksum` of kernel/net/icmp.c, which are the same
-- function: the one's complement sum of the 16-bit words.
use gecko_os.Prelude.{
  ℕ, zero, suc, ◌+◌, ◌-◌, ◌*◌, ◌/◌, ◌%◌, ◌^◌, ◌≤◌, ◌<◌, ◌≡◌, refl, ◌∙◌, List, [], ◌∷◌, true, false,
  arith, ◌==◌, length, ◌⊎◌, inl, inr,
}

-- The loop that adds the words, and the odd byte behind them, in a `uint32_t`.
unfoldable pub sum_words : (sum : ℕ) → List ℕ → ℕ
sum_words sum [] = sum
sum_words sum (a ∷ []) = (sum + a) % 2 ^ 32
sum_words sum (a ∷ b ∷ rest) = sum_words ((sum + (a + 256 * b)) % 2 ^ 32) rest

-- `while (sum >> 16) sum = (sum & 0xFFFF) + (sum >> 16);` with fuel.
unfoldable pub fold_carry : (fuel sum : ℕ) → ℕ
fold_carry zero sum = sum
fold_carry (suc fuel) sum = elim (sum / 2 ^ 16 == 0) [
  | true ↦ sum
  | false ↦ fold_carry fuel (sum % 2 ^ 16 + sum / 2 ^ 16)
]

-- Three rounds are enough for a `uint32_t`; the result is `(uint16_t)~sum`.
unfoldable pub checksum : List ℕ → ℕ
checksum bytes = 2 ^ 16 - 1 - fold_carry 3 (sum_words 0 bytes) % 2 ^ 16

-- The sum with no wrap.
unfoldable pub word_sum : List ℕ → ℕ
word_sum [] = 0
word_sum (a ∷ []) = a
word_sum (a ∷ b ∷ rest) = a + 256 * b + word_sum rest

abbrev pub AllBytes : List ℕ → Type 0
AllBytes [] = Unit {0}
AllBytes (a ∷ rest) = (a < 256) × AllBytes rest

-- A packet of at most 65535 bytes cannot overflow the sum.
pub sum_words-eq-word_sum :
    (sum k : ℕ) (bytes : List ℕ)
    → AllBytes bytes
    → length bytes ≤ k
    → sum + 65536 * k < 2 ^ 32
    → sum_words sum bytes ≡ sum + word_sum bytes
unfolding sum_words word_sum
sum_words-eq-word_sum sum k [] ok h l = omega arith
sum_words-eq-word_sum sum k (a ∷ []) ok h l = omega arith
sum_words-eq-word_sum sum k (a ∷ b ∷ rest) ok h l =
    let low : (sum + (a + 256 * b)) % 2 ^ 32 ≡ sum + (a + 256 * b) = omega arith in
    rw low (
      sum_words-eq-word_sum (sum + (a + 256 * b)) (k - 2) rest ok.1.1 (omega arith) (omega arith)
      ∙ omega arith)

pub word_sum-le :
    (k : ℕ) (bytes : List ℕ) → AllBytes bytes → length bytes ≤ k → word_sum bytes ≤ 65536 * k
unfolding word_sum
word_sum-le k [] ok h = omega arith
word_sum-le k (a ∷ []) ok h = omega arith
word_sum-le k (a ∷ b ∷ rest) ok h = omega (arith, word_sum-le (k - 2) rest ok.1.1 (omega arith))

-- A round keeps the remainder by 65535, and keeps a sum from becoming zero.
fold_carry_mod :
    (fuel sum : ℕ)
    → (fold_carry fuel sum % 65535 ≡ sum % 65535) × (0 < sum → 0 < fold_carry fuel sum)
unfolding fold_carry
fold_carry_mod zero sum = (refl, λ h. h)
fold_carry_mod (suc fuel) sum = ground (arith, fold_carry_mod fuel (sum % 2 ^ 16 + sum / 2 ^ 16))

-- The loop has ended after three rounds.
pub fold_carry-lt : (sum : ℕ) → sum < 2 ^ 32 → fold_carry 3 sum < 2 ^ 16
unfolding fold_carry
fold_carry-lt sum h = ground arith

fold_carry-zero : (sum : ℕ) → (fold_carry 3 sum ≡ 0) ⊎ (0 < sum)
unfolding fold_carry
fold_carry-zero zero = inl refl
fold_carry-zero (suc n) = inr (omega arith)

-- The checksum of a packet whose sum is `s`.
checksum-eq :
    (bytes : List ℕ)
    → AllBytes bytes
    → length bytes ≤ 65535
    → checksum bytes ≡ 65535 - fold_carry 3 (word_sum bytes)
unfolding checksum
checksum-eq bytes ok h =
    let sum = sum_words-eq-word_sum 0 65535 bytes ok h (omega arith) in
    let bound = word_sum-le 65535 bytes ok h in
    let e : 0 + word_sum bytes ≡ word_sum bytes = omega arith in
    rw (sum, e) (omega (arith, fold_carry-lt (word_sum bytes) (omega arith)))

-- For a packet of at most 65535 bytes and the same packet with its checksum added in: the checksum
-- of the second is zero, which is how a receiver verifies it.
pub checksum_verifies :
    (blank filled : List ℕ)
    → AllBytes blank
    → AllBytes filled
    → length blank ≤ 65535
    → length filled ≤ 65535
    → word_sum filled ≡ word_sum blank + checksum blank
    → checksum filled ≡ 0
checksum_verifies blank filled ok ok' h h' e =
    let s = word_sum blank in
    let s' = word_sum filled in
    let low = word_sum-le 65535 blank ok h in
    let low' = word_sum-le 65535 filled ok' h' in
    let c = checksum-eq blank ok h in
    let c' = checksum-eq filled ok' h' in
    let f = fold_carry_mod 3 s in
    let f' = fold_carry_mod 3 s' in
    let fit = fold_carry-lt s (omega arith) in
    let fit' = fold_carry-lt s' (omega arith) in
    let same = f.0 in
    let same' = f'.0 in
    let pos' : 0 < fold_carry 3 s' = f'.1 (omega (arith, fold_carry-zero s)) in omega arith

-- The checksum fits its field.
pub checksum-lt : (bytes : List ℕ) → checksum bytes < 2 ^ 16
unfolding checksum
checksum-lt bytes = omega arith
