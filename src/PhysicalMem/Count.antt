-- ===== src/PhysicalMem/Count.antt =====
-- The number of used blocks, which `used_blocks` keeps.
use gecko_os.Prelude.{
  ℕ, zero, suc, ◌+◌, ◌-◌, ◌≤◌, ◌<◌, ◌≡◌, refl, ◌∙◌, sym, ap, ◌↔◌, Bool, true, false, ◌&&◌, ◌||◌,
  arith, min, ltb, leb, if◌then◌else◌,
}
use gecko_os.PhysicalMem.{Pmm, is_used}

-- How many numbers below `n` pass the test.
unfoldable pub count_below : (ℕ → Bool) → ℕ → ℕ
count_below p zero = 0
count_below p (suc n) = (if p n then 1 else 0) + count_below p n

abbrev pub in_range : (lo hi x : ℕ) → Bool
in_range lo hi x = leb lo x && ltb x hi

-- `used_blocks` counts the blocks whose bit is set.
abbrev pub IsAccounted : Pmm → Type 0
IsAccounted s = s.used_blocks ≡ count_below (is_used s) s.max_blocks

pub IsAccounted-at :
    (s : Pmm) {m : ℕ}
    → s.max_blocks ≡ m
    → IsAccounted s ↔ (s.used_blocks ≡ count_below (is_used s) m)
IsAccounted-at s e =
    (λ acc. acc ∙ ap (count_below (is_used s)) e, λ at. at ∙ ap (count_below (is_used s)) (sym e))

pub count_below-le : (p : ℕ → Bool) (n : ℕ) → count_below p n ≤ n
unfolding count_below
count_below-le p zero = omega arith
count_below-le p (suc n) = ground (arith, count_below-le p n)

pub count_below_all : (p : ℕ → Bool) (n : ℕ) → ((x : ℕ) → x < n → p x ≡ true) → count_below p n ≡ n
unfolding count_below
count_below_all p zero all = refl
count_below_all p (suc n) all =
    ground (arith, all n (omega arith), count_below_all p n (λ x h. all x (omega arith)))

module _ (p q : ℕ → Bool) where
  -- Adding a range of numbers that did not pass adds its length.
  pub count_below_mark :
      (lo hi n : ℕ)
      → lo ≤ hi
      → ((x : ℕ) → x < n → q x ≡ (in_range lo hi x || p x))
      → ((x : ℕ) → lo ≤ x → x < hi → x < n → p x ≡ false)
      → count_below q n ≡ count_below p n + (min n hi - min n lo)
  unfolding count_below
  count_below_mark lo hi zero le same clear = omega arith
  count_below_mark lo hi (suc n) le same clear = ground (
    arith,
    same n (omega arith),
    clear n,
    count_below_mark lo hi n le (λ x h. same x (omega arith))
        (λ x l u h. clear x l u (omega arith)),
  )

  pub count_below_ext : (n : ℕ) → ((x : ℕ) → x < n → q x ≡ p x) → count_below q n ≡ count_below p n
  unfolding count_below
  count_below_ext zero same = refl
  count_below_ext (suc n) same =
      ground (arith, same n (omega arith), count_below_ext n (λ x h. same x (omega arith)))
