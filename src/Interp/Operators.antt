-- ===== src/Interp/Operators.antt =====
-- What an operator does with the values of its operands.
use gecko_os.Prelude.{
  ℕ, ◌+◌, ◌-◌, ◌*◌, ◌/◌, ◌%◌, ◌^◌, Bool, true, false, not, ◌&&◌, Option, none, some, List, leb, ltb,
  ◌==◌, if◌then◌else◌,
}
use gecko_os.Lexer.{
  TokenType, tok_plus, tok_minus, tok_star, tok_slash, tok_percent, tok_eq, tok_neq, tok_lt, tok_le,
  tok_gt, tok_ge, tok_not,
}
use gecko_os.Parser.{is}
use gecko_os.Interp.{Value, val_int, val_bool, val_str, val_none}
use gecko_os.Interp.Values.{streq, strcat_s, is_truthy, val_to_str}

pub data OperatorError : Type 0 where
  unary_minus_requires_integer operator_requires_integers division_by_zero modulo_by_zero :
      OperatorError
  unknown_operator : OperatorError

-- `undefined` is the negation of the least int, or its quotient by -1.
pub data Result : Type 0 where
  value : Value → Result
  error : OperatorError → Result
  undefined : Result

abbrev pub is_negative : ℕ → Bool
is_negative v = leb (2 ^ 31) v

abbrev pub magnitude : ℕ → ℕ
magnitude v = if is_negative v then 2 ^ 32 - v else v

abbrev pub with_sign : Bool → ℕ → ℕ
with_sign true m = (2 ^ 32 - m) % 2 ^ 32
with_sign false m = m

-- Signed division of 32 bits, towards zero, and its remainder.
unfoldable pub divide : (a b : ℕ) → ℕ
divide a b =
    with_sign (if is_negative a then not (is_negative b) else is_negative b)
      (magnitude a / magnitude b)

unfoldable pub modulo : (a b : ℕ) → ℕ
modulo a b = with_sign (is_negative a) (magnitude a % magnitude b)

-- `a < b` of signed words.
abbrev pub less : (a b : ℕ) → Bool
less a b = ltb ((a + 2 ^ 31) % 2 ^ 32) ((b + 2 ^ 31) % 2 ^ 32)

abbrev pub traps : (a b : ℕ) → Bool
traps a b = a == 2 ^ 31 && b == 2 ^ 32 - 1

abbrev pub negate : Value → Result
negate (val_int v) = if v == 2 ^ 31 then undefined else value (val_int (with_sign true v))
negate _ = error unary_minus_requires_integer

unfoldable pub unop : Option TokenType → Value → Result
unop none operand = value val_none
unop (some op) operand =
    if is tok_minus op
    then negate operand
    else if is tok_not op
    then value (val_bool (not (is_truthy operand)))
    else value val_none

abbrev pub same_bool : Bool → Bool → Bool
same_bool true b = b
same_bool false b = not b

unfoldable pub equal : Value → Value → Bool
equal (val_int a) (val_int b) = a == b
equal (val_bool a) (val_bool b) = same_bool a b
equal (val_str a) (val_str b) = streq a b
equal _ _ = false

-- The operators on two ints, in 32 bits.
unfoldable pub int_op : TokenType → (a b : ℕ) → Result
int_op op a b =
    if is tok_plus op
    then value (val_int ((a + b) % 2 ^ 32))
    else if is tok_minus op
    then value (val_int ((a + (2 ^ 32 - b)) % 2 ^ 32))
    else if is tok_star op
    then value (val_int (a * b % 2 ^ 32))
    else if is tok_slash op
    then if b == 0
      then error division_by_zero
      else if traps a b
      then undefined
      else value (val_int (divide a b))
    else if is tok_percent op
    then if b == 0
      then error modulo_by_zero
      else if traps a b
      then undefined
      else value (val_int (modulo a b))
    else if is tok_lt op
    then value (val_bool (less a b))
    else if is tok_le op
    then value (val_bool (not (less b a)))
    else if is tok_gt op
    then value (val_bool (less b a))
    else if is tok_ge op
    then value (val_bool (not (less a b)))
    else error unknown_operator

unfoldable pub int_values : TokenType → (l r : Value) → Result
int_values op (val_int a) (val_int b) = int_op op a b
int_values op _ _ = error operator_requires_integers

abbrev pub joined : List ℕ → Option (List ℕ) → Result
joined str none = undefined
joined str (some rest) = value (val_str (strcat_s str rest))

-- `==` and `!=`, and the rest on ints.
unfoldable pub compared : TokenType → (l r : Value) → Result
compared op l r =
    if is tok_eq op
    then value (val_bool (equal l r))
    else if is tok_neq op
    then value (val_bool (not (equal l r)))
    else int_values op l r

-- Behind `and` and `or`, which evaluate their operands one by one.
unfoldable pub binop : TokenType → (l r : Value) → Result
binop op (val_str str) r =
    if is tok_plus op then joined str (val_to_str r) else compared op (val_str str) r
binop op l r = compared op l r
