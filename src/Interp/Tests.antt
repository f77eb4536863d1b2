-- ===== src/Interp/Tests.antt =====
-- Values and variables at concrete names.
use gecko_os.Prelude.{ℕ, ◌-◌, ◌^◌, ◌≡◌, refl, some, List, [], ◌∷◌, arith}
use gecko_os.Lexer.{tok_plus, tok_slash, tok_percent}
use gecko_os.Interp.{val_int, val_str, Var}
use gecko_os.Interp.Values.{streq, strcat_s, digits, backwards, int_to_str, val_to_str, int_cast}
use gecko_os.Interp.Vars.{assign, set_var, stored, pop_scope}
use gecko_os.Interp.Operators.{value, divide, modulo, int_op, binop}
use gecko_os.Interp.Decimal.{int_cast-int_to_str}
use gecko_os.Interp.Scopes.{Sets, stop, then_set, pop_scope-Sets}
use gecko_os.Interp.Lookup.{IsStored, set_var-IsStored}

-- -12 is a word of 32 bits.
minus_test : int_to_str (2 ^ 32 - 12) ≡ some (b'-' ∷ b'1' ∷ b'2' ∷ [])
unfolding int_to_str digits backwards
minus_test = refl

divide_test : int_op tok_slash (2 ^ 32 - 7) 2 ≡ value (val_int (2 ^ 32 - 3))
unfolding int_op divide
divide_test = refl

modulo_test : int_op tok_percent (2 ^ 32 - 7) 2 ≡ value (val_int (2 ^ 32 - 1))
unfolding int_op modulo
modulo_test = refl

join_test : binop tok_plus (val_str (b'a' ∷ [])) (val_int 5) ≡ value (val_str (b'a' ∷ b'5' ∷ []))
unfolding binop val_to_str int_to_str digits backwards strcat_s
join_test = refl

int_cast-int_to_str_example :
    (str : List ℕ) × (int_to_str (2 ^ 32 - 12) ≡ some str) × (int_cast str ≡ some (2 ^ 32 - 12))
int_cast-int_to_str_example = int_cast-int_to_str (2 ^ 32 - 12) (omega arith) (λ e. omega arith)

abbrev variable : (name value scope : ℕ) → Var
variable name v scope = record { name = name ∷ []; val = val_int v; scope = scope }

abbrev globals : List Var
globals = variable b'x' 1 0 ∷ variable b'y' 2 0 ∷ []

-- A local `x` hides the global one.
hides : set_var 1 (b'x' ∷ []) (val_int 3) globals ≡ stored (variable b'x' 3 1 ∷ globals)
unfolding set_var assign
hides = refl

again :
    set_var 1 (b'x' ∷ []) (val_int 4) (variable b'x' 3 1 ∷ globals)
    ≡ stored (variable b'x' 4 1 ∷ globals)
unfolding set_var assign streq
again = refl

set_var-IsStored_example : IsStored (b'x' ∷ []) (val_int 3) globals (variable b'x' 3 1 ∷ globals)
set_var-IsStored_example =
    set_var-IsStored 1 (b'x' ∷ []) (val_int 3) globals (variable b'x' 3 1 ∷ globals) hides

sets : Sets 1 globals (variable b'x' 4 1 ∷ globals)
sets = then_set (b'x' ∷ []) (val_int 3) hides (then_set (b'x' ∷ []) (val_int 4) again stop)

pop_scope-Sets_example : pop_scope 1 (variable b'x' 4 1 ∷ globals) ≡ globals
pop_scope-Sets_example =
    pop_scope-Sets 1 globals (variable b'x' 4 1 ∷ globals) (omega arith, (omega arith, tt)) sets
