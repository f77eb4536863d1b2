-- ===== src/Interp/Values.antt =====
-- Values as texts and as numbers.
use gecko_os.Prelude.{
  ℕ, zero, suc, ◌+◌, ◌-◌, ◌*◌, ◌/◌, ◌%◌, ◌^◌, Bool, true, false, not, Option, none, some, List, [],
  ◌∷◌, ◌++◌, leb, ◌==◌, if◌then◌else◌, take, length,
}
use gecko_os.Lexer.Scan.{is_digit}
use gecko_os.Interp.{Value, val_int, val_bool, val_str, val_none}

unfoldable pub streq : (a b : List ℕ) → Bool
streq [] [] = true
streq [] (y ∷ b) = false
streq (x ∷ a) [] = false
streq (x ∷ a) (y ∷ b) = let rest = streq a b in if x == y then rest else false

-- As much of `src` as fits behind `dst` in 255 characters.
unfoldable pub strcat_s : (dst src : List ℕ) → List ℕ
strcat_s dst src = dst ++ take (255 - length dst) src

-- The loop over the digits, from the last.
unfoldable pub digits : (fuel v : ℕ) → List ℕ
digits zero v = []
digits (suc fuel) v = let rest = digits fuel (v / 10) in if v == 0 then [] else (48 + v % 10) ∷ rest

-- The loop that copies `tmp` backwards, in front of `buf`.
unfoldable pub backwards : (tmp buf : List ℕ) → List ℕ
backwards [] buf = buf
backwards (c ∷ tmp) buf = backwards tmp (c ∷ buf)

-- `none` is the least int, whose negation is undefined. An int has at most ten digits.
unfoldable pub int_to_str : (v : ℕ) → Option (List ℕ)
int_to_str v =
    if v == 0
    then some (b'0' ∷ [])
    else if v == 2 ^ 31
    then none
    else if leb (2 ^ 31) v
    then some (backwards (digits 10 (2 ^ 32 - v) ++ (b'-' ∷ [])) [])
    else some (backwards (digits 10 v) [])

unfoldable pub is_truthy : Value → Bool
is_truthy (val_bool b) = b
is_truthy (val_int v) = not (v == 0)
is_truthy (val_str []) = false
is_truthy (val_str (c ∷ cs)) = true
is_truthy val_none = false

unfoldable pub val_to_str : Value → Option (List ℕ)
val_to_str (val_int v) = int_to_str v
val_to_str (val_bool b) =
    some (if b then b'T' ∷ b'r' ∷ b'u' ∷ b'e' ∷ [] else b'F' ∷ b'a' ∷ b'l' ∷ b's' ∷ b'e' ∷ [])
val_to_str (val_str str) = some str
val_to_str val_none = some (b'N' ∷ b'o' ∷ b'n' ∷ b'e' ∷ [])

-- The loop of `int()` over the digits, in 32 bits. `none` is an invalid literal.
unfoldable pub digits_value : (result : ℕ) → List ℕ → Option ℕ
digits_value result [] = some result
digits_value result (c ∷ p) =
    let rest = digits_value ((result * 10 + (c - 48)) % 2 ^ 32) p in
    if is_digit c then rest else none

unfoldable pub literal : List ℕ → Option ℕ
literal [] = none
literal (c ∷ p) = digits_value 0 (c ∷ p)

abbrev pub negated : Option ℕ → Option ℕ
negated none = none
negated (some result) = some ((2 ^ 32 - result) % 2 ^ 32)

-- `int()` of a text.
unfoldable pub int_cast : List ℕ → Option ℕ
int_cast [] = none
int_cast (c ∷ p) = if c == b'-' then negated (literal p) else literal (c ∷ p)
