-- ===== src/Prelude/Bits.antt =====
-- The binary digits of a number, and what `|`, `&` and `~` do to each of them.
use Prim.Native.Nat.{
  ℕ, zero, suc, ◌+◌, ◌-◌, ◌*◌, ◌/◌, ◌%◌, ◌^◌, ◌≤◌, ◌<◌, min, max, bit_and, bit_or, digits,
  bit_and-bitwise, bit_or-bitwise,
}
use mathlib.Core.Path.{◌≡◌, refl, ap, sym, ◌∙◌}
use mathlib.Core.Logic.{◌≢◌}
use native.Mathlib.Nat.{
  pow-suc, one-le-pow, mod-lt, mod-eq_of_lt, div-add-mod, mul-add-mod_self_left, div-div-eq-div-mul,
}
use native.Mathlib.Omega.{arith}

-- Digit `i` of `a`, 0 or 1.
pub bit : ℕ → ℕ → ℕ
bit a zero = a % 2
bit a (suc i) = bit (a / 2) i

-- `~a` on `w` bits.
abbrev pub complement : ℕ → ℕ → ℕ
complement w a = 2 ^ w - 1 - a

pub bit-le-one : (a i : ℕ) → bit a i ≤ 1
unfolding bit
bit-le-one a zero = omega arith
bit-le-one a (suc i) = bit-le-one (a / 2) i

pub bit-zero : (i : ℕ) → bit 0 i ≡ 0
unfolding bit
bit-zero zero = refl
bit-zero (suc i) = bit-zero i

-- The native operations stand for one recursion over the digits, with the first number as fuel; any
-- fuel that is as large gives the same.
module _ (base : ℕ → ℕ) (op : ℕ → ℕ → ℕ) where
  empty_digits : (n b : ℕ) → digits base op n 0 b ≡ base b
  empty_digits zero b = refl
  empty_digits (suc n) b = refl

  enough_digits :
      (k n m a b : ℕ) → a ≤ k → a ≤ n → a ≤ m → digits base op n a b ≡ digits base op m a b
  enough_digits k n m zero b hk hn hm = empty_digits n b ∙ sym (empty_digits m b)
  enough_digits (suc k) (suc n) (suc m) (suc a) b hk hn hm =
      ap (λ d. d * 2 + op (suc a % 2) (b % 2))
        (enough_digits k n m (suc a / 2) (b / 2) (omega arith) (omega arith) (omega arith))
  enough_digits zero n m (suc a) b hk hn hm = absurd (omega arith)
  enough_digits (suc k) zero m (suc a) b hk hn hm = absurd (omega arith)
  enough_digits (suc k) (suc n) zero (suc a) b hk hn hm = absurd (omega arith)

  -- One digit of it.
  split_digits :
      (a b : ℕ)
      → digits base op (suc a) (suc a) b
        ≡ digits base op (suc a / 2) (suc a / 2) (b / 2) * 2 + op (suc a % 2) (b % 2)
  split_digits a b =
      ap (λ d. d * 2 + op (suc a % 2) (b % 2))
        (enough_digits a a (suc a / 2) (suc a / 2) (b / 2) (omega arith) (omega arith)
          (omega arith))

or_halves : (a b : ℕ) → bit_or a b ≡ bit_or (a / 2) (b / 2) * 2 + max (a % 2) (b % 2)
or_halves zero b = omega (arith, bit_or-bitwise 0 b, bit_or-bitwise 0 (b / 2))
or_halves (suc a) b =
    bit_or-bitwise (suc a) b
    ∙ split_digits (λ c. c) max a b
    ∙ ap (λ d. d * 2 + max (suc a % 2) (b % 2)) (sym (bit_or-bitwise (suc a / 2) (b / 2)))

and_halves : (a b : ℕ) → bit_and a b ≡ bit_and (a / 2) (b / 2) * 2 + min (a % 2) (b % 2)
and_halves zero b = omega (arith, bit_and-bitwise 0 b, bit_and-bitwise 0 (b / 2))
and_halves (suc a) b =
    bit_and-bitwise (suc a) b
    ∙ split_digits (λ c. 0) min a b
    ∙ ap (λ d. d * 2 + min (suc a % 2) (b % 2)) (sym (bit_and-bitwise (suc a / 2) (b / 2)))

pub bit-bit_or : (a b i : ℕ) → bit (bit_or a b) i ≡ max (bit a i) (bit b i)
unfolding bit
bit-bit_or a b zero = omega (arith, or_halves a b)
bit-bit_or a b (suc i) =
    let half : bit_or a b / 2 ≡ bit_or (a / 2) (b / 2) = omega (arith, or_halves a b) in
    rw half (bit-bit_or (a / 2) (b / 2) i)

pub bit-bit_and : (a b i : ℕ) → bit (bit_and a b) i ≡ min (bit a i) (bit b i)
unfolding bit
bit-bit_and a b zero = omega (arith, and_halves a b)
bit-bit_and a b (suc i) =
    let half : bit_and a b / 2 ≡ bit_and (a / 2) (b / 2) = omega (arith, and_halves a b) in
    rw half (bit-bit_and (a / 2) (b / 2) i)

pub bit-complement : (w a i : ℕ) → a < 2 ^ w → i < w → bit (complement w a) i ≡ 1 - bit a i
unfolding bit
bit-complement zero a i h k = absurd (omega arith)
bit-complement (suc w) a zero h k = omega (arith, pow-suc 2 w, one-le-pow w 2)
bit-complement (suc w) a (suc i) h k =
    let half : complement (suc w) a / 2 ≡ complement w (a / 2) =
      omega (arith, pow-suc 2 w, one-le-pow w 2) in
    rw half (bit-complement w (a / 2) i (omega (arith, pow-suc 2 w)) (omega arith))

pub bit-two_pow_self : (i : ℕ) → bit (2 ^ i) i ≡ 1
unfolding bit
bit-two_pow_self zero = refl
bit-two_pow_self (suc i) =
    let half : 2 ^ suc i / 2 ≡ 2 ^ i = omega (arith, pow-suc 2 i) in rw half (bit-two_pow_self i)

pub bit-two_pow_ne : (i j : ℕ) → i ≢ j → bit (2 ^ i) j ≡ 0
unfolding bit
bit-two_pow_ne zero zero h = absurd (h refl)
bit-two_pow_ne zero (suc j) h = bit-zero j
bit-two_pow_ne (suc i) zero h = omega (arith, pow-suc 2 i)
bit-two_pow_ne (suc i) (suc j) h =
    let half : 2 ^ suc i / 2 ≡ 2 ^ i = omega (arith, pow-suc 2 i) in
    rw half (bit-two_pow_ne i j (λ e. h (ap suc e)))

bit_and-zero_bound : (n a : ℕ) → a ≤ n → bit_and a 0 ≡ 0
bit_and-zero_bound n zero h = refl
bit_and-zero_bound zero (suc a) h = absurd (omega arith)
bit_and-zero_bound (suc n) (suc a) h =
    omega (arith, and_halves (suc a) 0, bit_and-zero_bound n (suc a / 2) (omega arith))

-- A mask of one bit reads that bit.
pub bit_and-two_pow : (a i : ℕ) → bit_and a (2 ^ i) ≡ bit a i * 2 ^ i
unfolding bit
bit_and-two_pow a zero = omega (arith, and_halves a 1, bit_and-zero_bound (a / 2) (a / 2))
bit_and-two_pow a (suc i) =
    let half : 2 ^ suc i / 2 ≡ 2 ^ i = omega (arith, pow-suc 2 i) in
    let even : 2 ^ suc i % 2 ≡ 0 = omega (arith, pow-suc 2 i) in
    let rest : bit_and a (2 ^ suc i) ≡ bit_and (a / 2) (2 ^ i) * 2 =
      rw (and_halves a (2 ^ suc i), half, even) (omega arith) in
    grind (arith, rest, bit_and-two_pow (a / 2) i, pow-suc 2 i)

-- All digits of 2 ^ w - 1 are ones.
pub bit-ones : (w i : ℕ) → i < w → bit (2 ^ w - 1) i ≡ 1
bit-ones w i h =
    let e : 2 ^ w - 1 ≡ complement w 0 = omega arith in
    rw e (omega (arith, bit-complement w 0 i (one-le-pow w 2 (omega arith)) h, bit-zero i))

mod_double : (a p : ℕ) → 0 < p → a % (2 * p) ≡ (a / 2 % p) * 2 + a % 2
mod_double a p h =
    let q = a / 2 / p in
    let t = a / 2 % p in
    let split : a / 2 ≡ p * q + t = omega (arith, div-add-mod (a / 2) p) in
    let whole : a ≡ 2 * p * q + (t * 2 + a % 2) = omega arith in
    let small : t < p = mod-lt (a / 2) h in
    ap (λ (n : ℕ). n % (2 * p)) whole
    ∙ mul-add-mod_self_left (2 * p) q (t * 2 + a % 2)
    ∙ mod-eq_of_lt (omega arith)

-- A mask of the `k` low bits is the remainder by 2 ^ k.
pub bit_and_mask : (k a : ℕ) → bit_and a (2 ^ k - 1) ≡ a % 2 ^ k
bit_and_mask zero a = omega (arith, bit_and-zero_bound a a)
bit_and_mask (suc k) a =
    let double : 2 ^ suc k ≡ 2 * 2 ^ k = omega (arith, pow-suc 2 k) in
    let half : (2 ^ suc k - 1) / 2 ≡ 2 ^ k - 1 = omega (arith, one-le-pow k 2) in
    let odd : (2 ^ suc k - 1) % 2 ≡ 1 = omega (arith, one-le-pow k 2 (omega arith)) in
    rw
      (
        and_halves a (2 ^ suc k - 1),
        half,
        odd,
        bit_and_mask k (a / 2),
        double,
        mod_double a (2 ^ k) (one-le-pow k 2 (omega arith)),
      )
      (omega arith)

-- A mask of a multiple of 2 ^ k clears the `k` low bits.
pub bit_and_high : (k a m : ℕ) → bit_and a (m * 2 ^ k) ≡ bit_and (a / 2 ^ k) m * 2 ^ k
bit_and_high zero a m =
    let e : m * 2 ^ 0 ≡ m = omega arith in
    let d : a / 2 ^ 0 ≡ a = omega arith in rw (e, d) (omega arith)
bit_and_high (suc k) a m =
    let double : m * 2 ^ suc k ≡ 2 * (m * 2 ^ k) =
      omega (arith, ap (λ (t : ℕ). m * t) (pow-suc 2 k)) in
    let half : 2 * (m * 2 ^ k) / 2 ≡ m * 2 ^ k = omega arith in
    let even : 2 * (m * 2 ^ k) % 2 ≡ 0 = omega arith in
    let div : a / 2 ^ suc k ≡ a / 2 / 2 ^ k =
      ap (λ (t : ℕ). a / t) (omega (arith, pow-suc 2 k)) ∙ sym (div-div-eq-div-mul a 2 (2 ^ k)) in
    let c = bit_and (a / 2 / 2 ^ k) m in
    let twice : c * 2 ^ suc k ≡ 2 * (c * 2 ^ k) =
      omega (arith, ap (λ (t : ℕ). c * t) (pow-suc 2 k)) in
    rw (div, double, and_halves a (2 * (m * 2 ^ k)), half, even, bit_and_high k (a / 2) m)
      (omega (arith, twice))

-- `x & ~7` on 32 bits rounds down to a multiple of 8.
pub align_down8 : (x : ℕ) → x < 2 ^ 32 → bit_and x (complement 32 7) ≡ x / 8 * 8
align_down8 x h =
    bit_and_high 3 x (2 ^ 29 - 1)
    ∙ ap (λ (t : ℕ). t * 8) (bit_and_mask 29 (x / 8) ∙ mod-eq_of_lt (omega arith))
