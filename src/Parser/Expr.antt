-- ===== src/Parser/Expr.antt =====
-- Expressions, from `parse_primary` up to `parse_expr`. A loop or a call that may nest takes fuel.
pub mod Ends
use gecko_os.Prelude.{
  ℕ, zero, suc, Bool, true, false, ◌||◌, Option, none, some, List, [], ◌∷◌, ◌==◌, if◌then◌else◌,
}
use gecko_os.Lexer.{
  TokenType, Token, tok_int, tok_str, tok_ident, tok_true, tok_false, tok_lparen, tok_rparen,
  tok_comma, tok_eof, tok_minus, tok_not, tok_star, tok_slash, tok_percent, tok_plus, tok_eq,
  tok_neq, tok_lt, tok_le, tok_gt, tok_ge, tok_and, tok_or,
}
use gecko_os.Lexer.Scan.{same_word}
use gecko_os.Parser.{
  NodeType, node_int, node_str, node_bool, node_var, node_call, node_print, node_range, node_input,
  node_int_cast, node_unop, node_binop, ParseError, too_many_arguments, close_after_arguments,
  close_expected, unexpected_token, is,
}
use gecko_os.Parser.Run.{
  Run, out_of_fuel, Cmd, pure, fail, ◌>>=◌, ◌>>◌, branch, peek, advance, check, match_token, expect,
  new_node, set_value, set_children, add_child,
}

-- A name before a parenthesis.
abbrev pub call_type : List ℕ → NodeType
call_type name =
    if same_word name (b'i' ∷ b'n' ∷ b't' ∷ [])
    then node_int_cast
    else if same_word name (b'i' ∷ b'n' ∷ b'p' ∷ b'u' ∷ b't' ∷ [])
    then node_input
    else if same_word name (b'r' ∷ b'a' ∷ b'n' ∷ b'g' ∷ b'e' ∷ [])
    then node_range
    else if same_word name (b'p' ∷ b'r' ∷ b'i' ∷ b'n' ∷ b't' ∷ [])
    then node_print
    else node_call

-- The loop over the arguments of the call `n`.
unfoldable pub arguments : (fuel : ℕ) → (expr : Cmd ℕ) → (n : ℕ) → Cmd (Unit {0})
arguments zero expr n = λ s. out_of_fuel
arguments (suc fuel) expr n = do
  closing ← check tok_rparen
  ending ← check tok_eof
  branch (closing || ending) (pure tt) do
    arg ← expr
    add_child too_many_arguments n arg
    more ← match_token tok_comma
    branch more (arguments fuel expr n) (pure tt)

-- A node of one token.
unfoldable pub leaf : NodeType → (line int_val : ℕ) (str_val : List ℕ) → Cmd ℕ
leaf type line v str = do n ← new_node type line; set_value n v str; pure n

unfoldable pub call : (fuel : ℕ) → (expr : Cmd ℕ) → Token → Cmd ℕ
call fuel expr t = do
  advance
  n ← new_node (call_type t.str_val) t.line
  set_value n 0 t.str_val
  arguments fuel expr n
  expect tok_rparen close_after_arguments
  pure n

unfoldable pub name : (fuel : ℕ) → (expr : Cmd ℕ) → Token → Cmd ℕ
name fuel expr t = do
  advance
  opening ← check tok_lparen
  branch opening (call fuel expr t) (leaf node_var t.line 0 t.str_val)

unfoldable pub parenthesised : (expr : Cmd ℕ) → Cmd ℕ
parenthesised expr = do advance; n ← expr; expect tok_rparen close_expected; pure n

unfoldable pub parse_primary : (fuel : ℕ) → (expr : Cmd ℕ) → Cmd ℕ
parse_primary fuel expr = do
  t ← peek
  branch (is tok_int t.type) (do advance; leaf node_int t.line t.int_val [])
      (branch (is tok_str t.type) (do advance; leaf node_str t.line 0 t.str_val)
        (branch (is tok_true t.type) (do advance; leaf node_bool t.line 1 [])
          (branch (is tok_false t.type) (do advance; leaf node_bool t.line 0 [])
            (branch (is tok_ident t.type) (name fuel expr t)
              (branch (is tok_lparen t.type) (parenthesised expr) (fail unexpected_token))))))

-- The loop of a level of binary operators, which group to the left.
unfoldable pub operators :
    (fuel : ℕ) → (operand : Cmd ℕ) → (is_op : TokenType → Bool) → (left : ℕ) → Cmd ℕ
operators zero operand is_op left = λ s. out_of_fuel
operators (suc fuel) operand is_op left = do
  t ← peek
  branch (is_op t.type)
      (do
        advance
        right ← operand
        n ← new_node node_binop t.line
        set_children n (some t.type) (left ∷ right ∷ [])
        operators fuel operand is_op n)
      (pure left)

unfoldable pub level : (fuel : ℕ) → (operand : Cmd ℕ) → (is_op : TokenType → Bool) → Cmd ℕ
level fuel operand is_op = do left ← operand; operators fuel operand is_op left

abbrev pub is_mul : TokenType → Bool
is_mul t = is tok_star t || is tok_slash t || is tok_percent t

abbrev pub is_add : TokenType → Bool
is_add t = is tok_plus t || is tok_minus t

abbrev pub is_cmp : TokenType → Bool
is_cmp t = is tok_eq t || is tok_neq t || is tok_lt t || is tok_le t || is tok_gt t || is tok_ge t

unfoldable pub parse_mul : (fuel : ℕ) → (unary : Cmd ℕ) → Cmd ℕ
parse_mul fuel unary = level fuel unary is_mul

unfoldable pub parse_add : (fuel : ℕ) → (unary : Cmd ℕ) → Cmd ℕ
parse_add fuel unary = level fuel (parse_mul fuel unary) is_add

unfoldable pub parse_cmp : (fuel : ℕ) → (unary : Cmd ℕ) → Cmd ℕ
parse_cmp fuel unary = level fuel (parse_add fuel unary) is_cmp

unfoldable pub parse_and : (fuel : ℕ) → (unary : Cmd ℕ) → Cmd ℕ
parse_and fuel unary = level fuel (parse_cmp fuel unary) (is tok_and)

unfoldable pub parse_or : (fuel : ℕ) → (unary : Cmd ℕ) → Cmd ℕ
parse_or fuel unary = level fuel (parse_and fuel unary) (is tok_or)

-- A sign or `not` before an operand.
unfoldable pub prefixed : (operand : Cmd ℕ) → Token → Cmd ℕ
prefixed operand t = do
  advance
  argument ← operand
  n ← new_node node_unop t.line
  set_children n (some t.type) (argument ∷ [])
  pure n

unfoldable pub parse_unary : (fuel : ℕ) → Cmd ℕ
parse_unary zero = λ s. out_of_fuel
parse_unary (suc fuel) = do
  t ← peek
  branch (is tok_minus t.type || is tok_not t.type) (prefixed (parse_unary fuel) t)
      (parse_primary fuel (parse_or fuel (parse_unary fuel)))

unfoldable pub parse_expr : (fuel : ℕ) → Cmd ℕ
parse_expr fuel = parse_or fuel (parse_unary fuel)
