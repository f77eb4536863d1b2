-- ===== src/Interp/Decimal.antt =====
-- An int's text is read back by `int()`.
use gecko_os.Prelude.{
  ℕ, zero, suc, ◌+◌, ◌-◌, ◌*◌, ◌/◌, ◌%◌, ◌^◌, ◌<◌, ◌≡◌, ◌≢◌, refl, sym, ap, ◌∙◌, true, false,
  Bool-cases, inl, inr, none, some, List, [], ◌∷◌, ◌++◌, arith, leb, ◌==◌, ≢→==false, ==false→≢,
}
use gecko_os.Lexer.Scan.{is_digit}
use gecko_os.Interp.Values.{digits, backwards, int_to_str, digits_value, literal, negated, int_cast}

-- How many numbers have at most `n` digits.
abbrev powers : ℕ → ℕ
powers zero = 1
powers (suc n) = 10 * powers n

-- A digit is taken in.
digits_value_next :
    (v : ℕ) (buf : List ℕ)
    → v < 2 ^ 32
    → digits_value (v / 10) ((48 + v % 10) ∷ buf) ≡ digits_value v buf
unfolding digits_value
digits_value_next v buf h =
    let digit : is_digit (48 + v % 10) ≡ true = ground arith in
    let same : (v / 10 * 10 + (48 + v % 10 - 48)) % 2 ^ 32 ≡ v = ground arith in
    rw (digit, same) refl

digits_value-backwards :
    (fuel v : ℕ) (buf : List ℕ)
    → v < 2 ^ 32
    → v < powers fuel
    → digits_value 0 (backwards (digits fuel v) buf) ≡ digits_value v buf
unfolding backwards digits
digits_value-backwards zero v buf h enough =
    let none_left : v ≡ 0 = omega arith in rw none_left refl
digits_value-backwards (suc fuel) v buf h enough = elim (Bool-cases (v == 0)) [
  | inl over ↦ let none_left : v ≡ 0 = ground arith in rw (over, none_left) refl
  | inr more ↦ rw more (
      digits_value-backwards fuel (v / 10) ((48 + v % 10) ∷ buf) (omega arith) (omega arith)
      ∙ digits_value_next v buf h)
]

backwards-append :
    (tmp buf : List ℕ) (c : ℕ) → backwards (tmp ++ (c ∷ [])) buf ≡ c ∷ backwards tmp buf
unfolding backwards
backwards-append [] buf c = refl
backwards-append (d ∷ tmp) buf c = backwards-append tmp (d ∷ buf) c

literal_lem : (xs : List ℕ) (m : ℕ) → digits_value 0 xs ≡ some m → m ≢ 0 → literal xs ≡ some m
unfolding literal digits_value
literal_lem [] m h positive = absurd (positive cc)
literal_lem (c ∷ p) m h positive = h

digits_value-other : (c : ℕ) (p : List ℕ) → is_digit c ≡ false → digits_value 0 (c ∷ p) ≡ none
unfolding digits_value
digits_value-other c p h = rw h refl

int_cast_lem : (xs : List ℕ) (m : ℕ) → digits_value 0 xs ≡ some m → m ≢ 0 → int_cast xs ≡ some m
unfolding int_cast digits_value
int_cast_lem [] m h positive = absurd (positive cc)
int_cast_lem (c ∷ p) m h positive = elim (Bool-cases (c == b'-')) [
  | inl minus ↦
      let other : is_digit c ≡ false = ground arith in
      let failed = digits_value-other c p other in absurd (none_some m (sym failed ∙ h))
  | inr other ↦ rw other (literal_lem (c ∷ p) m h positive)
]
  where
    none_some : (m : ℕ) → none ≢ some m
    none_some m h = cc

-- The text of a positive int, with what is read back from it.
text_read : (m : ℕ) → m < 2 ^ 32 → digits_value 0 (backwards (digits 10 m) []) ≡ some m
unfolding digits_value
text_read m h = digits_value-backwards 10 m [] h (omega arith)

negative_read :
    (v : ℕ) → v < 2 ^ 32 → 0 < v → int_cast (b'-' ∷ backwards (digits 10 (2 ^ 32 - v)) []) ≡ some v
unfolding int_cast
negative_read v h positive =
    let m = 2 ^ 32 - v in
    let read =
      literal_lem (backwards (digits 10 m) []) m (text_read m (omega arith)) (λ e. omega arith) in
    let back : (2 ^ 32 - m) % 2 ^ 32 ≡ v = ground arith in ap negated read ∙ ap some back

zero_read : (v : ℕ) → (v == 0) ≡ true → int_cast (b'0' ∷ []) ≡ some v
unfolding int_cast literal digits_value
zero_read v h = let over : 0 ≡ v = ground arith in ap some over

-- For every int of 32 bits but the least one, `int_to_str` gives a text, and `int()` of the text is that int.
pub int_cast-int_to_str :
    (v : ℕ)
    → v < 2 ^ 32
    → v ≢ 2 ^ 31
    → (str : List ℕ) × (int_to_str v ≡ some str) × (int_cast str ≡ some v)
unfolding int_to_str
int_cast-int_to_str v h usual =
    let defined : (v == 2 ^ 31) ≡ false = ≢→==false v (2 ^ 31) usual in
    elim (Bool-cases (v == 0)) [
      | inl over ↦ rw over (b'0' ∷ [], refl, zero_read v over)
      | inr more ↦ elim (Bool-cases (leb (2 ^ 31) v)) [
        | inl negative ↦
            rw (more, defined, negative)
              (
                b'-' ∷ backwards (digits 10 (2 ^ 32 - v)) [],
                ap some (backwards-append (digits 10 (2 ^ 32 - v)) [] b'-'),
                negative_read v h (ground arith),
              )
        | inr positive ↦
            rw (more, defined, positive)
              (
                backwards (digits 10 v) [],
                refl,
                int_cast_lem (backwards (digits 10 v) []) v (text_read v h) (==false→≢ v 0 more),
              )
      ]
    ]
