-- ===== src/Fat32/Names/RoundTrip.antt =====
-- A name in its raw form, and back.
use gecko_os.Prelude.{
  ℕ, zero, suc, ◌+◌, ◌≤◌, ◌≡◌, refl, sym, ap, ◌∙◌, inl, inr, Bool-cases, Bool, true, false, ◌&&◌,
  not, Option, none, some, List, [], ◌∷◌, ◌++◌, map, arith, length, take, drop, ◌==◌, if◌then◌else◌,
}
use gecko_os.Prelude.Parts.{zero_add}
use gecko_os.Fat32.Names.{
  before_space, has_ext, format_83_name, last_dot, upper, filled, encode_83_name,
}

-- The character does not occur.
unfoldable pub without : (c : ℕ) → List ℕ → Bool
without c [] = true
without c (x ∷ xs) = not (x == c) && without c xs

without_first :
    (c x : ℕ) (xs : List ℕ) → without c (x ∷ xs) ≡ true → ((x == c) ≡ false) × (without c xs ≡ true)
unfolding without
without_first c x xs h = elim (Bool-cases (x == c)) [
  | inl e ↦ cc (rw e at h)
  | inr e ↦ (e, rw e at h)
]

upper_space : (c : ℕ) → (c == b' ') ≡ false → (upper c == b' ') ≡ false
upper_space c h = ground arith

before_space-filled :
    (n : ℕ) (name : List ℕ)
    → length name ≤ n
    → without b' ' name ≡ true
    → before_space (filled n name) ≡ map upper name
unfolding before_space filled
before_space-filled zero [] fits clean = refl
before_space-filled zero (c ∷ name) fits clean = absurd (omega (arith, fits))
before_space-filled (suc n) [] fits clean = refl
before_space-filled (suc n) (c ∷ name) fits clean =
    let (here, rest) = without_first b' ' c name clean in
    rw (upper_space c here)
      (ap (λ t. upper c ∷ t) (before_space-filled n name (omega (arith, fits)) rest))

has_ext-filled :
    (n c : ℕ) (ext : List ℕ)
    → without b' ' (c ∷ ext) ≡ true
    → has_ext (filled (suc n) (c ∷ ext)) ≡ true
unfolding has_ext filled
has_ext-filled n c ext clean = rw (upper_space c (without_first b' ' c ext clean).0) refl

no_ext : has_ext (filled 3 []) ≡ false
unfolding has_ext filled
no_ext = refl

-- Where no dot follows, the last dot is the one seen.
last_dot-without :
    (i : ℕ) (dot : Option ℕ) (name : List ℕ) → without b'.' name ≡ true → last_dot i dot name ≡ dot
unfolding last_dot
last_dot-without i dot [] clean = refl
last_dot-without i dot (c ∷ name) clean =
    let (here, rest) = without_first b'.' c name clean in
    rw here (last_dot-without (suc i) dot name rest)

last_dot-append :
    (i : ℕ) (dot : Option ℕ) (base ext : List ℕ)
    → without b'.' ext ≡ true
    → last_dot i dot (base ++ b'.' ∷ ext) ≡ some (i + length base)
unfolding last_dot
last_dot-append i dot [] ext clean =
    last_dot-without (suc i) (some i) ext clean ∙ ap some (omega arith)
last_dot-append i dot (c ∷ base) ext clean =
    last_dot-append (suc i) (if c == b'.' then some i else dot) base ext clean
    ∙ ap some (omega arith)

take-base : (base rest : List ℕ) → take (length base) (base ++ rest) ≡ base
take-base [] rest = refl
take-base (c ∷ base) rest = ap (λ t. c ∷ t) (take-base base rest)

drop-base : (base ext : List ℕ) → drop (suc (length base)) (base ++ b'.' ∷ ext) ≡ ext
drop-base [] ext = refl
drop-base (c ∷ base) ext = drop-base base ext

map_append : (f : ℕ → ℕ) (xs ys : List ℕ) → map f (xs ++ ys) ≡ map f xs ++ map f ys
map_append f [] ys = refl
map_append f (x ∷ xs) ys = ap (λ t. f x ∷ t) (map_append f xs ys)

-- A name of at most 8 characters, a dot and an extension of 1 to 3, with no space and with no dot in the extension,
-- comes back in capital letters from its raw form.
pub format_83_name-encode_83_name :
    (base : List ℕ) (c : ℕ) (ext : List ℕ)
    → length base ≤ 8
    → length (c ∷ ext) ≤ 3
    → without b' ' base ≡ true
    → without b' ' (c ∷ ext) ≡ true
    → without b'.' (c ∷ ext) ≡ true
    → format_83_name
        (encode_83_name (base ++ b'.' ∷ c ∷ ext)).raw8
        (encode_83_name (base ++ b'.' ∷ c ∷ ext)).raw3
      ≡ map upper (base ++ b'.' ∷ c ∷ ext)
unfolding format_83_name encode_83_name
format_83_name-encode_83_name base c ext short_base short_ext clean_base clean_ext one_dot =
    rw (last_dot-append 0 none base (c ∷ ext) one_dot) (
      rw
        (
          zero_add (length base),
          take-base base (b'.' ∷ c ∷ ext),
          drop-base base (c ∷ ext),
          has_ext-filled 2 c ext clean_ext,
          before_space-filled 8 base short_base clean_base,
          before_space-filled 3 (c ∷ ext) short_ext clean_ext,
        )
        (sym (map_append upper base (b'.' ∷ c ∷ ext))))
