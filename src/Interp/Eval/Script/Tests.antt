-- ===== src/Interp/Eval/Script/Tests.antt =====
-- Scripts, run.
use gecko_os.Prelude.{ℕ, ◌≡◌, refl, inr, Option, none, some, List, [], ◌∷◌}
use gecko_os.Lexer.{TokenType, tok_plus}
use gecko_os.Parser.{
  Node, NodeType, node_int, node_var, node_binop, node_call, node_def, node_return, node_block,
  node_print,
}
use gecko_os.Interp.{val_int, val_none}
use gecko_os.Interp.Values.{streq, val_to_str, int_to_str, digits, backwards}
use gecko_os.Interp.Vars.{find_var, find_func, assign, set_var, pop_scope}
use gecko_os.Interp.Operators.{binop, compared, int_values, int_op}
use gecko_os.Interp.State.{Gk, ran, checked, setting}
use gecko_os.Interp.Eval.{
  get_elem?, eval_print, eval_block, param_names, eval_def, eval_args, set_params, eval_type, eval,
}
use gecko_os.Interp.Eval.Scoped.{IsAt}
use gecko_os.Interp.Eval.Calls.{eval-IsAt}
use gecko_os.Interp.Eval.Script.{gk_init}

abbrev node :
    NodeType → (int_val : ℕ) → (str_val : List ℕ) → Option TokenType → (child : List ℕ) → Node
node t v str op cs = record { type = t; line = 0; int_val = v; str_val = str; op = op; child = cs }

-- def f(x): return x + 1, and print(f(2))
abbrev nodes : List Node
nodes =
    node node_block 0 [] none (1 ∷ 5 ∷ [])
    ∷ node node_def 0 (b'f' ∷ []) none (2 ∷ 3 ∷ [])
    ∷ node node_var 0 (b'x' ∷ []) none []
    ∷ node node_block 0 [] none (4 ∷ [])
    ∷ node node_return 0 [] none (6 ∷ [])
    ∷ node node_print 0 [] none (8 ∷ [])
    ∷ node node_binop 0 [] (some tok_plus) (2 ∷ 7 ∷ [])
    ∷ node node_int 1 [] none []
    ∷ node node_call 0 (b'f' ∷ []) none (9 ∷ [])
    ∷ node node_int 2 [] none []
    ∷ []

abbrev final : Gk
final = record (gk_init []) {
  funcs = record { name = b'f' ∷ []; params = (b'x' ∷ []) ∷ []; body_node = 3 } ∷ [];
  return_val = val_int 3;
  printed = (b'3' ∷ []) ∷ (b'\n' ∷ []) ∷ [];
}

call_test : eval 9 nodes 0 (gk_init []) ≡ ran val_none final
unfolding eval eval_type eval_block eval_def eval_print eval_args set_params param_names get_elem?
    checked setting find_var find_func streq set_var assign pop_scope binop compared int_values
    int_op val_to_str int_to_str digits backwards
call_test = refl

eval-IsAt_example : IsAt 0 final
eval-IsAt_example =
    eval-IsAt 9 nodes 0 0 val_none (gk_init []) final (record { depth = refl; scoped = inr tt })
      call_test
