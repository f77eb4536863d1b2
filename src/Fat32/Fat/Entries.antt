-- ===== src/Fat32/Fat/Entries.antt =====
-- Writing an entry of the table, seen from all entries.
use gecko_os.Prelude.{
  ℕ, ◌+◌, ◌*◌, ◌/◌, ◌%◌, ◌^◌, ◌≤◌, ◌<◌, ◌≡◌, ◌⊎◌, refl, ◌∙◌, List, arith, length, set, length-set,
  get_or-set_self, get_or-set_ne,
}
use gecko_os.Fat32.{byte, word, put_word}
use gecko_os.Fat32.Fat.{masked, put_entry}

module _ (i v : ℕ) (buf : List ℕ) where
  abbrev one : List ℕ
  one = set buf i (v % 2 ^ 8)

  abbrev two : List ℕ
  two = set one (i + 1) (v / 2 ^ 8 % 2 ^ 8)

  abbrev three : List ℕ
  three = set two (i + 2) (v / 2 ^ 16 % 2 ^ 8)

  length-three : length three ≡ length buf
  length-three =
      length-set two (i + 2) (v / 2 ^ 16 % 2 ^ 8)
      ∙ length-set one (i + 1) (v / 2 ^ 8 % 2 ^ 8)
      ∙ length-set buf i (v % 2 ^ 8)

  pub length-put_word : length (put_word i v buf) ≡ length buf
  unfolding put_word
  length-put_word = length-set three (i + 3) (v / 2 ^ 24 % 2 ^ 8) ∙ length-three

  byte-put_word_ne : (k : ℕ) → (k < i) ⊎ (i + 4 ≤ k) → byte (put_word i v buf) k ≡ byte buf k
  unfolding put_word
  byte-put_word_ne k h =
      get_or-set_ne three (i + 3) k (v / 2 ^ 24 % 2 ^ 8) 0 (omega arith)
      ∙ get_or-set_ne two (i + 2) k (v / 2 ^ 16 % 2 ^ 8) 0 (omega arith)
      ∙ get_or-set_ne one (i + 1) k (v / 2 ^ 8 % 2 ^ 8) 0 (omega arith)
      ∙ get_or-set_ne buf i k (v % 2 ^ 8) 0 (omega arith)

  -- The word is read back, and one that does not overlap is as it was.
  pub word-put_word : i + 3 < length buf → word (put_word i v buf) i ≡ v % 2 ^ 32
  unfolding word put_word
  word-put_word h =
      let b0 : byte (set three (i + 3) (v / 2 ^ 24 % 2 ^ 8)) i ≡ v % 2 ^ 8 =
        get_or-set_ne three (i + 3) i (v / 2 ^ 24 % 2 ^ 8) 0 (omega arith)
        ∙ get_or-set_ne two (i + 2) i (v / 2 ^ 16 % 2 ^ 8) 0 (omega arith)
        ∙ get_or-set_ne one (i + 1) i (v / 2 ^ 8 % 2 ^ 8) 0 (omega arith)
        ∙ get_or-set_self buf i (v % 2 ^ 8) 0 (omega arith) in
      let b1 : byte (set three (i + 3) (v / 2 ^ 24 % 2 ^ 8)) (i + 1) ≡ v / 2 ^ 8 % 2 ^ 8 =
        get_or-set_ne three (i + 3) (i + 1) (v / 2 ^ 24 % 2 ^ 8) 0 (omega arith)
        ∙ get_or-set_ne two (i + 2) (i + 1) (v / 2 ^ 16 % 2 ^ 8) 0 (omega arith)
        ∙ get_or-set_self one (i + 1) (v / 2 ^ 8 % 2 ^ 8) 0
            (omega (arith, length-set buf i (v % 2 ^ 8))) in
      let b2 : byte (set three (i + 3) (v / 2 ^ 24 % 2 ^ 8)) (i + 2) ≡ v / 2 ^ 16 % 2 ^ 8 =
        get_or-set_ne three (i + 3) (i + 2) (v / 2 ^ 24 % 2 ^ 8) 0 (omega arith)
        ∙ get_or-set_self two (i + 2) (v / 2 ^ 16 % 2 ^ 8) 0 (
            omega
              (arith, length-set buf i (v % 2 ^ 8), length-set one (i + 1) (v / 2 ^ 8 % 2 ^ 8))) in
      let b3 : byte (set three (i + 3) (v / 2 ^ 24 % 2 ^ 8)) (i + 3) ≡ v / 2 ^ 24 % 2 ^ 8 =
        get_or-set_self three (i + 3) (v / 2 ^ 24 % 2 ^ 8) 0 (omega (arith, length-three)) in
      rw (b0, b1, b2, b3) (omega arith)

  pub word-put_word_ne :
      (k : ℕ) → (k + 4 ≤ i) ⊎ (i + 4 ≤ k) → word (put_word i v buf) k ≡ word buf k
  unfolding word
  word-put_word_ne k h =
      rw
        (
          byte-put_word_ne k (omega arith),
          byte-put_word_ne (k + 1) (omega arith),
          byte-put_word_ne (k + 2) (omega arith),
          byte-put_word_ne (k + 3) (omega arith),
        )
        refl

module _ (i value : ℕ) (buf : List ℕ) where
  pub length-put_entry : length (put_entry i value buf) ≡ length buf
  unfolding put_entry
  length-put_entry = length-put_word i (word buf i / 2 ^ 28 * 2 ^ 28 + masked value) buf

  pub word-put_entry : i + 3 < length buf → masked (word (put_entry i value buf) i) ≡ masked value
  unfolding put_entry
  word-put_entry h =
      omega (arith, word-put_word i (word buf i / 2 ^ 28 * 2 ^ 28 + masked value) buf h)

  pub word-put_entry_ne :
      (k : ℕ) → (k + 4 ≤ i) ⊎ (i + 4 ≤ k) → word (put_entry i value buf) k ≡ word buf k
  unfolding put_entry
  word-put_entry_ne k h = word-put_word_ne i (word buf i / 2 ^ 28 * 2 ^ 28 + masked value) buf k h
