-- ===== src/PhysicalMem/Search.antt =====
-- `find_first_free_blocks` finds the first run of free blocks that starts in a whole word.
use gecko_os.Prelude.{
  ℕ, zero, suc, ◌+◌, ◌-◌, ◌*◌, ◌/◌, ◌%◌, ◌^◌, ◌≤◌, ◌<◌, ◌≡◌, refl, inl, inr, true, false, Option,
  none, some, arith, leb, ◌==◌, Bool-cases, ==_iff, ==false→≢, leb→le, leb_false→lt,
}
use gecko_os.Prelude.Bits.{bit-ones}
use gecko_os.PhysicalMem.{
  Pmm, minus_one, test_bit, word, is_used, count_free, scan_word, scan_words,
  find_first_free_blocks,
}
use gecko_os.PhysicalMem.Bitmap.{IsValid, test_bit-bit}

abbrev pub IsFree : Pmm → ℕ → Type 0
IsFree s x = (x < s.max_blocks) × (is_used s x ≡ false)

-- `n` free blocks from `p` on
abbrev pub IsFreeRun : Pmm → (p n : ℕ) → Type 0
IsFreeRun s p n = (k : ℕ) → k < n → IsFree s (p + k)

-- The first start of a run of `n` free blocks among `lo` to `hi - 1`, if there is one.
abbrev pub IsFirstRun : Pmm → (n lo hi : ℕ) → Option ℕ → Type 0
IsFirstRun s n lo hi none = (x : ℕ) → lo ≤ x → x < hi → ¬ IsFreeRun s x n
IsFirstRun s n lo hi (some b) =
    (lo ≤ b) × (b < hi) × IsFreeRun s b n × ((x : ℕ) → lo ≤ x → x < b → ¬ IsFreeRun s x n)

module _ (s : Pmm) where
  -- A free first block and a free rest are a run, and a run has both.
  run_cons : (p n : ℕ) → IsFree s p → IsFreeRun s (p + 1) n → IsFreeRun s p (suc n)
  run_cons p n h r zero lt = let e : p + zero ≡ p = omega arith in rw e h
  run_cons p n h r (suc k) lt =
      let e : p + suc k ≡ p + 1 + k = omega arith in rw e (r k (omega arith))

  run_head : (p n : ℕ) → 0 < n → IsFreeRun s p n → IsFree s p
  run_head p n h r = let e : p + 0 ≡ p = omega arith in rw e at (r 0 h)

  run_tail : (p n : ℕ) → IsFreeRun s p (suc n) → IsFreeRun s (p + 1) n
  run_tail p n r k lt =
      let e : p + suc k ≡ p + 1 + k = omega arith in rw e at (r (suc k) (omega arith))

  count_free-le : (p r c : ℕ) → count_free s p r c ≤ c + r
  unfolding count_free
  count_free-le p zero c = omega arith
  count_free-le p (suc r) c = ground (arith, count_free-le (p + 1) r (c + 1))

  count_free_step :
      (p r c : ℕ)
      → count_free s p (suc r) c ≡ c + suc r
      → IsFree s p × (count_free s (p + 1) r (c + 1) ≡ c + 1 + r)
  unfolding count_free
  count_free_step p r c h = ground arith

  count_free_sound : (p r c : ℕ) → count_free s p r c ≡ c + r → IsFreeRun s p r
  count_free_sound p zero c h = λ k lt. elim lt [ ]
  count_free_sound p (suc r) c h =
      let step = count_free_step p r c h in
      run_cons p r step.0 (count_free_sound (p + 1) r (c + 1) step.1)

  count_free_complete : (p r c : ℕ) → IsFreeRun s p r → count_free s p r c ≡ c + r
  unfolding count_free
  count_free_complete p zero c h = omega arith
  count_free_complete p (suc r) c h = ground (
    arith,
    run_head p (suc r) (omega arith) h,
    count_free_complete (p + 1) r (c + 1) (run_tail p r h),
  )

  module _ (n : ℕ) (pos : 0 < n) where
    -- No run starts between `lo` and `mid`.
    abbrev NoRun : ℕ → ℕ → Type 0
    NoRun lo mid = (x : ℕ) → lo ≤ x → x < mid → ¬ IsFreeRun s x n

    -- A search may skip blocks at which no run starts.
    skip :
        (lo mid hi : ℕ) (o : Option ℕ)
        → lo ≤ mid
        → NoRun lo mid
        → IsFirstRun s n mid hi o
        → IsFirstRun s n lo hi o
    skip lo mid hi none le gap f = λ x l u. elim (Bool-cases (leb mid x)) [
      | inl e ↦ f x (leb→le mid x e) u
      | inr e ↦ gap x l (leb_false→lt mid x e)
    ]
    skip lo mid hi (some b) le gap f = (
      omega arith,
      f.1,
      f.2,
      λ x l u. elim (Bool-cases (leb mid x)) [
        | inl e ↦ f.3 x (leb→le mid x e) u
        | inr e ↦ gap x l (leb_false→lt mid x e)
      ],
    )

    skip_one :
        (lo mid hi : ℕ) (o : Option ℕ)
        → mid ≡ lo + 1
        → ¬ IsFreeRun s lo n
        → IsFirstRun s n mid hi o
        → IsFirstRun s n lo hi o
    skip_one lo mid hi o e bad =
        skip lo mid hi o (omega arith) (λ x l u. let same : x ≡ lo = omega arith in rw same bad)

    -- The bit that the loop tests is that of the block.
    test_bit-is_used : (i j : ℕ) → j < 32 → test_bit (word s i) j ≡ is_used s (i * 32 + j)
    unfolding is_used
    test_bit-is_used i j h =
        let q : (i * 32 + j) / 32 ≡ i = omega arith in
        let r : (i * 32 + j) % 32 ≡ j = omega arith in rw (q, r)

    scan_word-IsFirstRun :
        (i r j : ℕ) → j + r ≡ 32 → IsFirstRun s n (i * 32 + j) (i * 32 + 32) (scan_word s n i r j)
    unfolding scan_word
    scan_word-IsFirstRun i zero j h = λ x l u. absurd (omega arith)
    scan_word-IsFirstRun i (suc r) j h =
        let p = i * 32 + j in
        let later = scan_word-IsFirstRun i r (j + 1) (omega arith) in
        let pass =
          skip_one p (i * 32 + (j + 1)) (i * 32 + 32) (scan_word s n i r (j + 1)) (omega arith) in
        elim (Bool-cases (test_bit (word s i) j)) [
          | inl used ↦ rw used (
              pass (λ run. cc ((run_head p n pos run).1, used, test_bit-is_used i j (omega arith)))
                later)
          | inr free ↦ elim (Bool-cases (count_free s p n 0 == n)) [
            | inl full ↦
                rw (free, full)
                  (
                    omega arith,
                    omega arith,
                    count_free_sound p n 0 (omega (arith, (==_iff _ _).0 full)),
                    λ x l u. absurd (omega arith),
                  )
            | inr short ↦
                rw (free, short)
                  (pass (λ run. ==false→≢ _ _ short (omega (arith, count_free_complete p n 0 run)))
                    later)
          ]
        ]

    -- A word of ones has no free block.
    full_word : (i : ℕ) → word s i ≡ 2 ^ 32 - 1 → NoRun (i * 32) ((i + 1) * 32)
    unfolding is_used
    full_word i e x l u run =
        let q : x / 32 ≡ i = omega arith in
        let used : test_bit (word s i) (x % 32) ≡ true =
          rw (e, test_bit-bit, bit-ones 32 (x % 32) (omega arith)) in
        let unused = (run_head x n pos run).1 in
        let unused' : test_bit (word s i) (x % 32) ≡ false = rw q at unused in cc (unused', used)

    join :
        (lo mid hi : ℕ) (o o' : Option ℕ)
        → lo ≤ mid
        → mid ≤ hi
        → IsFirstRun s n lo mid o
        → IsFirstRun s n mid hi o'
        → IsFirstRun s n lo hi (elim o [ some b ↦ some b | none ↦ o' ])
    join lo mid hi none o' l u f g = skip lo mid hi o' l f g
    join lo mid hi (some b) o' l u f g = (f.0, omega arith, f.2, f.3)

    scan_words-IsFirstRun : (r i : ℕ) → IsFirstRun s n (i * 32) ((i + r) * 32) (scan_words s n r i)
    unfolding scan_words
    scan_words-IsFirstRun zero i = λ x l u. absurd (omega arith)
    scan_words-IsFirstRun (suc r) i =
        let lo = i * 32 in
        let mid = (i + 1) * 32 in
        let hi = (i + suc r) * 32 in
        let top : (i + 1 + r) * 32 ≡ hi = omega arith in
        let later : IsFirstRun s n mid hi (scan_words s n r (i + 1)) =
          rw top at (scan_words-IsFirstRun r (i + 1)) in
        let end : i * 32 + 32 ≡ mid = omega arith in
        let start : i * 32 + 0 ≡ lo = omega arith in
        let this : IsFirstRun s n lo mid (scan_word s n i 32 0) =
          rw (end, start) at (scan_word-IsFirstRun i 32 0 refl) in
        elim (Bool-cases (word s i == 2 ^ 32 - 1)) [
          | inl full ↦
              rw full (skip lo mid hi _ (omega arith) (full_word i ((==_iff _ _).0 full)) later)
          | inr some_free ↦ rw some_free (join lo mid hi _ _ (omega arith) (omega arith) this later)
        ]

-- The bit pattern that stands for what a search found.
abbrev pub found : Option ℕ → ℕ
found none = minus_one
found (some b) = b

-- On a valid map, for one block or more, the result of `find_first_free_blocks` is the first run of
-- `num_blocks` free blocks, over the starts in the words that lie wholly below `max_blocks`, and -1
-- where there is none.
pub find_first_free_blocks_lem :
    (s : Pmm) (num_blocks : ℕ)
    → IsValid s
    → 0 < num_blocks
    → (o : Option ℕ) × (find_first_free_blocks s num_blocks ≡ found o)
      × IsFirstRun s num_blocks 0 (s.max_blocks / 32 * 32) o
unfolding find_first_free_blocks
find_first_free_blocks_lem s n v pos = go (scan_words s n (s.max_blocks / 32) 0) refl
  where
    first : IsFirstRun s n 0 (s.max_blocks / 32 * 32) (scan_words s n (s.max_blocks / 32) 0)
    first =
        let e : (0 + s.max_blocks / 32) * 32 ≡ s.max_blocks / 32 * 32 = omega arith in
        rw e at (scan_words-IsFirstRun s n pos (s.max_blocks / 32) 0)

    go :
        (o : Option ℕ)
        → scan_words s n (s.max_blocks / 32) 0 ≡ o
        → (r : Option ℕ) × (find_first_free_blocks s n ≡ found r)
          × IsFirstRun s n 0 (s.max_blocks / 32 * 32) r
    go none e = (none, ground arith, rw e at first)
    go (some b) e =
        let f : IsFirstRun s n 0 (s.max_blocks / 32 * 32) (some b) = rw e at first in
        (some b, ground (arith, f.1, v.small), f)
