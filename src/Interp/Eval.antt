-- ===== src/Interp/Eval.antt =====
-- `eval`: the value of a node. A node that is not there and a child that is not there are what C leaves undefined.
pub mod Script
pub mod Scoped
pub mod Keeps
pub mod Calls
use gecko_os.Prelude.{
  ℕ, zero, suc, ◌-◌, ◌^◌, min, Bool, true, false, not, ◌&&◌, ◌||◌, Option, none, some, List, [],
  ◌∷◌, ◌++◌, length, take, drop, leb, ◌==◌, if◌then◌else◌,
}
use gecko_os.Lexer.{TokenType, tok_and, tok_or}
use gecko_os.Parser.{
  Node, NodeType, node_int, node_str, node_bool, node_var, node_assign, node_binop, node_unop,
  node_call, node_if, node_while, node_for, node_def, node_return, node_break, node_continue,
  node_block, node_print, node_range, node_input, node_int_cast, is,
}
use gecko_os.Interp.{Value, val_int, val_bool, val_str, val_none, FuncDef}
use gecko_os.Interp.Values.{is_truthy, val_to_str, int_cast}
use gecko_os.Interp.Vars.{find_var, find_func, pop_scope}
use gecko_os.Interp.Operators.{unop, binop, is_negative}
use gecko_os.Interp.State.{
  Gk, GkError, Ran, ran, stuck, out_of_fuel, Eval, and_then, has_error, checked, fail, gk_print,
  setting, unchanged, settled, printing, leaves, ends_block, undefined_variable, undefined_function,
  int_takes_one_argument, int_requires_string, int_invalid_literal, range_needs_argument,
  range_argument_must_be_integer, for_requires_integer, too_many_functions,
  wrong_number_of_arguments, call_depth_exceeded, unknown_node_type,
}

abbrev pub gk_max_funcs : ℕ
gk_max_funcs = 64

abbrev pub gk_max_params : ℕ
gk_max_params = 8

abbrev pub gk_max_call_depth : ℕ
gk_max_call_depth = 32

unfoldable pub get_elem? : {A : Type 0} → List A → ℕ → Option A
get_elem? [] i = none
get_elem? (x ∷ xs) zero = some x
get_elem? (x ∷ xs) (suc i) = get_elem? xs i

abbrev pub eval_at : Eval → Option ℕ → Gk → Ran
eval_at ev none s = stuck
eval_at ev (some c) s = ev c s

-- `eval(s, n->child[i])`
abbrev pub eval_child : Eval → Node → (i : ℕ) → Gk → Ran
eval_child ev n i s = eval_at ev (get_elem? n.child i) s

abbrev pub var_value : (name : List ℕ) → Option Value → Gk → Ran
var_value name none s = fail (undefined_variable name) s
var_value name (some v) s = ran v s

unfoldable pub eval_assign : Eval → Node → Gk → Ran
eval_assign ev n s =
    checked (eval_child ev n 0 s) (λ val s. setting n.str_val val unchanged (λ s. ran val s) s)

abbrev pub truth : Value → Gk → Ran
truth v s = ran (val_bool (is_truthy v)) s

abbrev pub operands : Eval → Node → TokenType → Gk → Ran
operands ev n op s =
    checked (eval_child ev n 0 s)
      (λ l s. checked (eval_child ev n 1 s) (λ r s. settled (binop op l r) s))

-- The second operand of `and` and `or` is evaluated only where it is needed.
abbrev pub eval_operator : Eval → Node → Option TokenType → Gk → Ran
eval_operator ev n none s = stuck
eval_operator ev n (some op) s =
    if is tok_and op
    then and_then (eval_child ev n 0 s) (λ l s.
      if is_truthy l then and_then (eval_child ev n 1 s) truth else ran (val_bool false) s)
    else if is tok_or op
    then and_then (eval_child ev n 0 s)
        (λ l s. if is_truthy l then ran (val_bool true) s else and_then (eval_child ev n 1 s) truth)
    else operands ev n op s

-- The loop over the arguments of `print`, with a space between them.
abbrev pub spaced : List ℕ → Gk → Gk
spaced [] s = s
spaced (c ∷ cs) s = gk_print (b' ' ∷ []) s

unfoldable pub eval_print : Eval → (children : List ℕ) → Gk → Ran
eval_print ev [] s = ran val_none (gk_print (b'\n' ∷ []) s)
eval_print ev (c ∷ cs) s =
    checked (ev c s) (λ v s. printing (val_to_str v) (λ s. eval_print ev cs (spaced cs s)) s)

abbrev pub next_line : (lines : List (List ℕ)) → Gk → Ran
next_line [] s = stuck
next_line (line ∷ lines) s = ran (val_str line) (gk_print (b'\n' ∷ []) (record s { lines = lines }))

abbrev pub eval_input : Eval → (children : List ℕ) → Gk → Ran
eval_input ev [] s = next_line s.lines s
eval_input ev (c ∷ cs) s =
    checked (ev c s) (λ prompt s. printing (val_to_str prompt) (λ s. next_line s.lines s) s)

abbrev pub cast_text : Option ℕ → Gk → Ran
cast_text none s = fail int_invalid_literal s
cast_text (some v) s = ran (val_int v) s

abbrev pub cast : Value → Gk → Ran
cast (val_int v) s = ran (val_int v) s
cast (val_str p) s = cast_text (int_cast p) s
cast v s = fail int_requires_string s

unfoldable pub eval_int_cast : Eval → Node → Gk → Ran
eval_int_cast ev n s =
    if length n.child == 1
    then checked (eval_child ev n 0 s) cast
    else fail int_takes_one_argument s

unfoldable pub eval_block : Eval → (children : List ℕ) → (last : Value) → Gk → Ran
eval_block ev [] last s = ran last s
eval_block ev (c ∷ cs) last s =
    and_then (ev c s) (λ last s. if ends_block s then ran last s else eval_block ev cs last s)

unfoldable pub eval_if : Eval → Node → Gk → Ran
eval_if ev n s = checked (eval_child ev n 0 s) (λ c s.
    if is_truthy c
    then eval_child ev n 1 s
    else if length n.child == 3
    then eval_child ev n 2 s
    else ran val_none s)

-- What a round of a loop does behind its body.
abbrev pub behind_body : Value → (again : Value → Gk → Ran) → Gk → Ran
behind_body result again s =
    if leaves s
    then ran result s
    else if s.breaking
    then ran result (record s { breaking = false })
    else again result (record s { continuing = false })

unfoldable pub eval_while : (rounds : ℕ) → Eval → Node → (result : Value) → Gk → Ran
eval_while zero ev n result s = out_of_fuel
eval_while (suc rounds) ev n result s = and_then (eval_child ev n 0 s) (λ c s.
    if has_error s || not (is_truthy c)
    then ran result s
    else and_then (eval_child ev n 1 s) (λ result s. behind_body result (eval_while rounds ev n) s))

-- `left` rounds, the next with `i`.
unfoldable pub for_rounds : (left i : ℕ) → Eval → Node → (result : Value) → Gk → Ran
for_rounds zero i ev n result s = ran result s
for_rounds (suc left) i ev n result s =
    setting n.str_val (val_int i) unchanged
      (λ s.
        and_then (eval_child ev n 1 s)
          (λ result s. behind_body result (for_rounds left (suc i) ev n) s))
      s

abbrev pub counting : (unfit : GkError) → Eval → Node → Value → Gk → Ran
counting unfit ev n (val_int v) s = for_rounds (if is_negative v then 0 else v) 0 ev n val_none s
counting unfit ev n v s = fail unfit s

abbrev pub is_range : NodeType → Bool
is_range node_range = true
is_range type = false

abbrev pub range_for : Eval → Node → (children : List ℕ) → Gk → Ran
range_for ev n [] s = fail range_needs_argument s
range_for ev n (c ∷ cs) s = checked (ev c s) (counting range_argument_must_be_integer ev n)

abbrev pub for_over : Eval → Node → Option Node → Gk → Ran
for_over ev n none s = stuck
for_over ev n (some iter) s =
    if is_range iter.type
    then range_for ev n iter.child s
    else checked (eval_child ev n 0 s) (counting for_requires_integer ev n)

abbrev pub node_in : List Node → Option ℕ → Option Node
node_in nodes none = none
node_in nodes (some i) = get_elem? nodes i

-- The names of at most 8 parameters; `none` where a node is not there or a name does not fit its 64 bytes.
abbrev pub name_of : Option Node → Option (List ℕ)
name_of none = none
name_of (some n) = if leb 64 (length n.str_val) then none else some n.str_val

abbrev pub with_name : Option (List ℕ) → Option (List (List ℕ)) → Option (List (List ℕ))
with_name none names = none
with_name (some name) none = none
with_name (some name) (some names) = some (name ∷ names)

unfoldable pub param_names : List Node → (children : List ℕ) → Option (List (List ℕ))
param_names nodes [] = some []
param_names nodes (c ∷ cs) = with_name (name_of (get_elem? nodes c)) (param_names nodes cs)

abbrev pub defined : (name : List ℕ) → Option (List (List ℕ)) → (body : Option ℕ) → Gk → Ran
defined name none body s = stuck
defined name (some params) none s = stuck
defined name (some params) (some body) s =
    if leb 64 (length name)
    then stuck
    else ran val_none (record s {
      funcs = s.funcs ++ record { name = name; params = params; body_node = body } ∷ [];
    })

unfoldable pub eval_def : List Node → Node → Gk → Ran
eval_def nodes n s =
    let body_child = length n.child - 1 in
    if leb gk_max_funcs (length s.funcs)
    then fail too_many_functions s
    else defined n.str_val (param_names nodes (take (min body_child gk_max_params) n.child))
        (get_elem? n.child body_child) s

-- The loop over the arguments of a call, and what follows it.
unfoldable pub eval_args : Eval → (children : List ℕ) → (List Value → Gk → Ran) → Gk → Ran
eval_args ev [] k s = k [] s
eval_args ev (c ∷ cs) k s = checked (ev c s) (λ v s. eval_args ev cs (λ args s. k (v ∷ args) s) s)

abbrev pub left_call : Gk → Gk
left_call s = record s { call_depth = s.call_depth - 1 }

-- The loop that sets the parameters.
unfoldable pub set_params : (params : List (List ℕ)) → (args : List Value) → (Gk → Ran) → Gk → Ran
set_params [] args k s = k s
set_params (p ∷ params) [] k s = k s
set_params (p ∷ params) (a ∷ args) k s = setting p a left_call (λ s. set_params params args k s) s

-- Behind the body of a function.
abbrev pub returned : Value → Gk → Ran
returned result s =
    let s' = record s {
      returning = false;
      vars = pop_scope s.call_depth s.vars;
      call_depth = s.call_depth - 1;
    } in
    if s.returning then ran s.return_val s' else ran result s'

abbrev pub call_function : Eval → Node → Option FuncDef → Gk → Ran
call_function ev n none s = fail (undefined_function n.str_val) s
call_function ev n (some f) s =
    if length n.child == length f.params
    then if leb gk_max_call_depth s.call_depth
      then fail call_depth_exceeded s
      else eval_args ev n.child
          (λ args s.
            set_params f.params args (λ s. and_then (ev f.body_node s) returned)
              (record s { call_depth = suc s.call_depth }))
          s
    else fail wrong_number_of_arguments s

abbrev pub return_with : Value → Gk → Ran
return_with v s = ran v (record s { returning = true; return_val = v })

abbrev pub eval_return : Eval → (children : List ℕ) → Gk → Ran
eval_return ev [] s = return_with val_none s
eval_return ev (c ∷ cs) s = checked (ev c s) return_with

-- The switch over the types of nodes.
unfoldable pub eval_type : NodeType → (rounds : ℕ) → Eval → List Node → Node → Gk → Ran
eval_type node_int rounds ev nodes n s = ran (val_int n.int_val) s
eval_type node_str rounds ev nodes n s = ran (val_str n.str_val) s
eval_type node_bool rounds ev nodes n s = ran (val_bool (not (n.int_val == 0))) s
eval_type node_var rounds ev nodes n s = var_value n.str_val (find_var n.str_val s.vars) s
eval_type node_assign rounds ev nodes n s = eval_assign ev n s
eval_type node_unop rounds ev nodes n s =
    checked (eval_child ev n 0 s) (λ operand s. settled (unop n.op operand) s)
eval_type node_binop rounds ev nodes n s = eval_operator ev n n.op s
eval_type node_print rounds ev nodes n s = eval_print ev n.child s
eval_type node_input rounds ev nodes n s = eval_input ev n.child s
eval_type node_int_cast rounds ev nodes n s = eval_int_cast ev n s
eval_type node_block rounds ev nodes n s = eval_block ev n.child val_none s
eval_type node_if rounds ev nodes n s = eval_if ev n s
eval_type node_while rounds ev nodes n s = eval_while rounds ev n val_none s
eval_type node_for rounds ev nodes n s = for_over ev n (node_in nodes (get_elem? n.child 0)) s
eval_type node_def rounds ev nodes n s = eval_def nodes n s
eval_type node_call rounds ev nodes n s = call_function ev n (find_func n.str_val s.funcs) s
eval_type node_return rounds ev nodes n s = eval_return ev n.child s
eval_type node_break rounds ev nodes n s = ran val_none (record s { breaking = true })
eval_type node_continue rounds ev nodes n s = ran val_none (record s { continuing = true })
eval_type node_range rounds ev nodes n s = fail unknown_node_type s

abbrev pub eval_node : Option Node → (rounds : ℕ) → Eval → List Node → Gk → Ran
eval_node none rounds ev nodes s = stuck
eval_node (some n) rounds ev nodes s = eval_type n.type rounds ev nodes n s

unfoldable pub eval : (fuel : ℕ) → List Node → Eval
eval zero nodes node_idx s = out_of_fuel
eval (suc fuel) nodes node_idx s =
    if has_error s
    then ran val_none s
    else eval_node (get_elem? nodes node_idx) fuel (eval fuel nodes) nodes s
