-- ===== src/Parser.antt =====
-- kernel/gk/gk_parser.c: the nodes of a GK script. The tokens are the list of those that are left, which
-- ends with TOK_EOF; `failed` is the result -1 with the message, and `overrun` a write behind `child`.
pub mod Run
pub mod Expr
pub mod Stmt
pub mod Ensures
pub mod Nodes
pub mod Total
mod Tests
use gecko_os.Prelude.{
  ℕ, zero, suc, ◌+◌, Bool, true, false, Option, none, some, List, [], ◌∷◌, ◌++◌, length, leb, ◌==◌,
  if◌then◌else◌, set, get_or,
}
use gecko_os.Lexer
use gecko_os.Lexer.{TokenType, Token, tok_eof, tok_newline}

abbrev pub gk_max_nodes : ℕ
gk_max_nodes = 2048

abbrev pub gk_max_children : ℕ
gk_max_children = 64

pub data NodeType : Type 0 where
  node_int node_str node_bool node_var node_assign node_binop node_unop node_call : NodeType
  node_if node_while node_for node_def node_return node_break node_continue node_block : NodeType
  node_print node_range node_input node_int_cast : NodeType

-- `child` up to `n_children`; `op` is `none` where `new_node` leaves what was there before.
pub record Node : Type 0 where
  pub type : NodeType
  pub line : ℕ
  pub int_val : ℕ
  pub str_val : List ℕ
  pub op : Option TokenType
  pub child : List ℕ

-- The messages.
pub data ParseError : Type 0 where
  too_many_nodes too_many_arguments close_after_arguments close_expected unexpected_token :
      ParseError
  block_expected block_too_large name_expected open_expected parameter_expected : ParseError
  close_after_parameters colon_after_def colon_after_if colon_after_else colon_after_while :
      ParseError
  colon_after_for variable_expected in_expected too_many_statements : ParseError

-- The value of an enumerator.
abbrev pub code : TokenType → ℕ
code Lexer.tok_int = 0
code Lexer.tok_str = 1
code Lexer.tok_ident = 2
code Lexer.tok_plus = 3
code Lexer.tok_minus = 4
code Lexer.tok_star = 5
code Lexer.tok_slash = 6
code Lexer.tok_percent = 7
code Lexer.tok_eq = 8
code Lexer.tok_neq = 9
code Lexer.tok_lt = 10
code Lexer.tok_le = 11
code Lexer.tok_gt = 12
code Lexer.tok_ge = 13
code Lexer.tok_and = 14
code Lexer.tok_or = 15
code Lexer.tok_not = 16
code Lexer.tok_assign = 17
code Lexer.tok_lparen = 18
code Lexer.tok_rparen = 19
code Lexer.tok_comma = 20
code Lexer.tok_colon = 21
code Lexer.tok_if = 22
code Lexer.tok_elif = 23
code Lexer.tok_else = 24
code Lexer.tok_while = 25
code Lexer.tok_for = 26
code Lexer.tok_in = 27
code Lexer.tok_def = 28
code Lexer.tok_return = 29
code Lexer.tok_break = 30
code Lexer.tok_continue = 31
code Lexer.tok_true = 32
code Lexer.tok_false = 33
code Lexer.tok_newline = 34
code Lexer.tok_indent = 35
code Lexer.tok_dedent = 36
code Lexer.tok_eof = 37

-- Whether a token's type is the one asked for.
abbrev pub is : TokenType → TokenType → Bool
is wanted t = code t == code wanted

pub record Parser : Type 0 where
  pub rest : List Token
  pub nodes : List Node

abbrev pub eof : Token
eof = record { type = tok_eof; int_val = 0; str_val = []; line = 0 }

-- The token at `tok_pos`; the lexer's list ends with one that is never passed.
abbrev pub front : List Token → Token
front [] = eof
front (t ∷ ts) = t

-- The tokens behind `advance`.
unfoldable pub passed : List Token → List Token
passed [] = []
passed (t ∷ ts) = if is tok_eof t.type then t ∷ ts else ts

-- The tokens behind `skip_newlines`.
unfoldable pub past_newlines : List Token → List Token
past_newlines [] = []
past_newlines (t ∷ ts) = if is tok_newline t.type then past_newlines ts else t ∷ ts
