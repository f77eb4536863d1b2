-- ===== src/Prelude/Parts.antt =====
-- Parts of lists, taken and dropped.
use gecko_os.Prelude.{
  ℕ, zero, suc, ◌+◌, ◌-◌, ◌≡◌, refl, ap, List, [], ◌∷◌, ◌++◌, arith, length, take, drop,
}

pub zero_add : (n : ℕ) → 0 + n ≡ n
zero_add n = omega arith

pub add_zero : (n : ℕ) → n + 0 ≡ n
add_zero n = omega arith

suc_add : (m n : ℕ) → suc m + n ≡ suc (m + n)
suc_add m n = omega arith

pub add_suc : (m n : ℕ) → m + suc n ≡ suc m + n
add_suc m n = omega arith

sub_zero : (n : ℕ) → n - 0 ≡ n
sub_zero n = omega arith

suc_sub : (m n : ℕ) → suc m - suc n ≡ m - n
suc_sub m n = omega arith

module _ {A : Type 0} where
  pub append-nil : (xs : List A) → xs ++ [] ≡ xs
  append-nil [] = refl
  append-nil (x ∷ xs) = ap (λ ys. x ∷ ys) (append-nil xs)

  pub append_assoc : (xs ys zs : List A) → (xs ++ ys) ++ zs ≡ xs ++ (ys ++ zs)
  append_assoc [] ys zs = refl
  append_assoc (x ∷ xs) ys zs = ap (λ ws. x ∷ ws) (append_assoc xs ys zs)

  pub take-nil : (n : ℕ) → take {A = A} n [] ≡ []
  take-nil zero = refl
  take-nil (suc n) = refl

  pub drop-drop : (a b : ℕ) (xs : List A) → drop (a + b) xs ≡ drop b (drop a xs)
  drop-drop zero b xs = rw (zero_add b) refl
  drop-drop (suc a) zero [] = rw (add_zero (suc a)) refl
  drop-drop (suc a) (suc b) [] = rw (suc_add a (suc b)) refl
  drop-drop (suc a) b (x ∷ xs) = rw (suc_add a b) (drop-drop a b xs)

  -- The first `n` elements, in two parts, the first of at most `m`.
  pub take_parts :
      (n m : ℕ) (xs : List A)
      → take n (take m xs) ++ take (n - length (take n (take m xs))) (drop (length (take m xs)) xs)
        ≡ take n xs
  take_parts zero m xs = refl
  take_parts (suc n) zero xs = rw (sub_zero (suc n)) refl
  take_parts (suc n) (suc m) [] = rw (sub_zero (suc n)) refl
  take_parts (suc n) (suc m) (x ∷ xs) =
      rw (suc_sub n (length (take n (take m xs)))) (ap (λ ys. x ∷ ys) (take_parts n m xs))
