-- ===== src/Parser/Stmt.antt =====
-- Statements and blocks, and `gk_parse`.
pub mod Ends
pub mod Kinds
pub mod Choice
use gecko_os.Prelude.{
  ℕ, zero, suc, ◌*◌, ◌+◌, Bool, true, false, not, ◌&&◌, ◌||◌, Option, none, some, List, [], ◌∷◌,
  ◌==◌, if◌then◌else◌, length, leb,
}
use gecko_os.Lexer.{
  TokenType, Token, tok_ident, tok_rparen, tok_lparen, tok_comma, tok_colon, tok_eof, tok_newline,
  tok_indent, tok_dedent, tok_return, tok_break, tok_continue, tok_def, tok_if, tok_elif, tok_else,
  tok_while, tok_for, tok_in, tok_assign,
}
use gecko_os.Parser.{
  Parser, NodeType, node_var, node_block, node_return, node_break, node_continue, node_def, node_if,
  node_while, node_for, node_assign, ParseError, block_expected, block_too_large, name_expected,
  open_expected, parameter_expected, close_after_parameters, colon_after_def, colon_after_if,
  colon_after_else, colon_after_while, colon_after_for, variable_expected, in_expected,
  too_many_statements, is, front, passed,
}
use gecko_os.Parser.Run.{
  Run, done, overrun, out_of_fuel, Cmd, pure, fail, ◌>>=◌, ◌>>◌, branch, peek, advance, check,
  match_token, expect, skip_newlines, new_node, set_value, set_children, add_child, push_child,
}
use gecko_os.Parser.Expr.{leaf, parse_expr}

abbrev pub ends_block : TokenType → Bool
ends_block t = is tok_dedent t || is tok_eof t

-- The loop over the statements of the node `n`.
unfoldable pub statements :
    (fuel : ℕ) → (stmt : Cmd ℕ) → (ends : TokenType → Bool) → ParseError → (n : ℕ) → Cmd (Unit {0})
statements zero stmt ends e n = λ s. out_of_fuel
statements (suc fuel) stmt ends e n = do
  t ← peek
  branch (ends t.type) (pure tt)
      do st ← stmt; add_child e n st; skip_newlines; statements fuel stmt ends e n

unfoldable pub parse_block : (fuel : ℕ) → (stmt : Cmd ℕ) → Cmd ℕ
parse_block fuel stmt = do
  t ← peek
  expect tok_indent block_expected
  block ← new_node node_block t.line
  skip_newlines
  statements fuel stmt ends_block block_too_large block
  match_token tok_dedent
  pure block

-- A colon, the end of the line, and a block.
unfoldable pub suite : (fuel : ℕ) → (stmt : Cmd ℕ) → ParseError → Cmd ℕ
suite fuel stmt e = do expect tok_colon e; match_token tok_newline; parse_block fuel stmt

unfoldable pub return_stmt : (fuel : ℕ) → Token → Cmd ℕ
return_stmt fuel t = do
  advance
  n ← new_node node_return t.line
  ends_line ← check tok_newline
  ending ← check tok_eof
  branch (ends_line || ending) (pure tt) do expr ← parse_expr fuel; set_children n none (expr ∷ [])
  match_token tok_newline
  pure n

-- `break` and `continue`
unfoldable pub jump_stmt : NodeType → Token → Cmd ℕ
jump_stmt type t = do advance; match_token tok_newline; new_node type t.line

-- The loop over the parameters of the definition `n`, which looks at no bound.
unfoldable pub parameters : (fuel n : ℕ) → Cmd (Unit {0})
parameters zero n = λ s. out_of_fuel
parameters (suc fuel) n = do
  closing ← check tok_rparen
  ending ← check tok_eof
  param ← peek
  branch (closing || ending) (pure tt) (
      branch (not (is tok_ident param.type)) (fail parameter_expected) do
        advance
        pn ← leaf node_var param.line 0 param.str_val
        push_child n pn
        more ← match_token tok_comma
        branch more (parameters fuel n) (pure tt))

unfoldable pub def_rest : (fuel : ℕ) → (stmt : Cmd ℕ) → Token → Token → Cmd ℕ
def_rest fuel stmt t name = do
  advance
  n ← leaf node_def t.line 0 name.str_val
  expect tok_lparen open_expected
  parameters fuel n
  expect tok_rparen close_after_parameters
  body ← suite fuel stmt colon_after_def
  push_child n body
  pure n

unfoldable pub def_stmt : (fuel : ℕ) → (stmt : Cmd ℕ) → Token → Cmd ℕ
def_stmt fuel stmt t = do
  advance
  name ← peek
  branch (not (is tok_ident name.type)) (fail name_expected) (def_rest fuel stmt t name)

-- The part behind the block of an `if`, whose condition and block are known.
unfoldable pub alternative : (fuel : ℕ) → (stmt : Cmd ℕ) → (n cond body : ℕ) → Cmd (Unit {0})
alternative fuel stmt n cond body = do
  skip_newlines
  t ← peek
  branch (is tok_elif t.type)
      (do elif_node ← stmt; set_children n none (cond ∷ body ∷ elif_node ∷ []))
      (branch (is tok_else t.type)
        (do
          advance
          else_body ← suite fuel stmt colon_after_else
          set_children n none (cond ∷ body ∷ else_body ∷ []))
        (pure tt))

unfoldable pub if_stmt : (fuel : ℕ) → (stmt : Cmd ℕ) → Token → Cmd ℕ
if_stmt fuel stmt t = do
  advance
  n ← new_node node_if t.line
  cond ← parse_expr fuel
  body ← suite fuel stmt colon_after_if
  set_children n none (cond ∷ body ∷ [])
  alternative fuel stmt n cond body
  pure n

unfoldable pub while_stmt : (fuel : ℕ) → (stmt : Cmd ℕ) → Token → Cmd ℕ
while_stmt fuel stmt t = do
  advance
  n ← new_node node_while t.line
  cond ← parse_expr fuel
  body ← suite fuel stmt colon_after_while
  set_children n none (cond ∷ body ∷ [])
  pure n

unfoldable pub for_rest : (fuel : ℕ) → (stmt : Cmd ℕ) → Token → Token → Cmd ℕ
for_rest fuel stmt t var = do
  advance
  expect tok_in in_expected
  n ← leaf node_for t.line 0 var.str_val
  iter ← parse_expr fuel
  body ← suite fuel stmt colon_after_for
  set_children n none (iter ∷ body ∷ [])
  pure n

unfoldable pub for_stmt : (fuel : ℕ) → (stmt : Cmd ℕ) → Token → Cmd ℕ
for_stmt fuel stmt t = do
  advance
  var ← peek
  branch (not (is tok_ident var.type)) (fail variable_expected) (for_rest fuel stmt t var)

-- A name of 64 characters does not fit the copy of it.
unfoldable pub assignment : (fuel : ℕ) → Token → Cmd ℕ
assignment fuel t =
    branch (leb 64 (length t.str_val)) (λ s. overrun)
      do
        advance
        advance
        n ← leaf node_assign t.line 0 t.str_val
        expr ← parse_expr fuel
        set_children n none (expr ∷ [])
        match_token tok_newline
        pure n

unfoldable pub expression : (fuel : ℕ) → Cmd ℕ
expression fuel = do expr ← parse_expr fuel; match_token tok_newline; pure expr

-- Whether the tokens are a name and `=`.
abbrev pub assigns : List Token → Bool
assigns [] = false
assigns (t ∷ []) = false
assigns (t ∷ u ∷ ts) = is tok_ident t.type && is tok_assign u.type

unfoldable pub assigns_here : Cmd Bool
assigns_here s = done (assigns s.rest) s

unfoldable pub parse_stmt : (fuel : ℕ) → Cmd ℕ
parse_stmt zero = λ s. out_of_fuel
parse_stmt (suc fuel) = do
  t ← peek
  assigned ← assigns_here
  branch (is tok_return t.type) (return_stmt fuel t) (
      branch (is tok_break t.type) (jump_stmt node_break t) (
        branch (is tok_continue t.type) (jump_stmt node_continue t) (
          branch (is tok_def t.type) (def_stmt fuel (parse_stmt fuel) t) (
            branch (is tok_if t.type || is tok_elif t.type) (if_stmt fuel (parse_stmt fuel) t) (
              branch (is tok_while t.type) (while_stmt fuel (parse_stmt fuel) t) (
                branch (is tok_for t.type) (for_stmt fuel (parse_stmt fuel) t)
                  (branch assigned (assignment fuel t) (expression fuel))))))))

unfoldable pub script : (fuel : ℕ) → Cmd ℕ
script fuel = do
  root ← new_node node_block 0
  skip_newlines
  statements fuel (parse_stmt fuel) (is tok_eof) too_many_statements root
  pure root

-- The root's index and the nodes. Two more rounds than there are tokens are enough.
unfoldable pub gk_parse : List Token → Run ℕ
gk_parse tokens = script (suc (suc (length tokens))) (record { rest = tokens; nodes = [] })
