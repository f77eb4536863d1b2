-- ===== src/Parser/Tests.antt =====
-- Runs of the parser.
use gecko_os.Prelude.{ℕ, ◌≡◌, ◌≢◌, refl, none, List, [], ◌∷◌, map}
use gecko_os.Lexer
use gecko_os.Lexer.{TokenType, Token}
use gecko_os.Parser.{
  Parser, Node, NodeType, node_block, node_binop, node_int, node_var, node_assign, node_call,
  passed, past_newlines,
}
use gecko_os.Parser.Total.{IsTree, gk_parse-ends, gk_parse-IsTree}
use gecko_os.Parser.Run.{
  Run, done, out_of_fuel, and_then, branch, peek, advance, check, match_token, expect,
  skip_newlines, new_node, set_value, set_children, add_child,
}
use gecko_os.Parser.Expr.{
  arguments, leaf, call, name, parse_primary, operators, level, parse_mul, parse_add, parse_cmp,
  parse_and, parse_or, parse_unary, parse_expr,
}
use gecko_os.Parser.Stmt.{
  statements, assignment, expression, assigns_here, parse_stmt, script, gk_parse,
}

abbrev token : TokenType → Token
token t = record { type = t; int_val = 0; str_val = []; line = 1 }

abbrev number : ℕ → Token
number v = record { type = Lexer.tok_int; int_val = v; str_val = []; line = 1 }

abbrev word : List ℕ → Token
word str = record { type = Lexer.tok_ident; int_val = 0; str_val = str; line = 1 }

abbrev shapes : Run ℕ → List (NodeType × List ℕ)
shapes (done n s) = map (λ m. (m.type, m.child)) s.nodes
shapes _ = []

-- x = 1 + 2 * y
precedence_test :
    shapes (
      gk_parse (
        word (b'x' ∷ [])
        ∷ token Lexer.tok_assign
        ∷ number 1
        ∷ token Lexer.tok_plus
        ∷ number 2
        ∷ token Lexer.tok_star
        ∷ word (b'y' ∷ [])
        ∷ token Lexer.tok_newline
        ∷ token Lexer.tok_eof
        ∷ []))
    ≡ (node_block, 1 ∷ [])
      ∷ (node_assign, 6 ∷ [])
      ∷ (node_int, [])
      ∷ (node_int, [])
      ∷ (node_var, [])
      ∷ (node_binop, 3 ∷ 4 ∷ [])
      ∷ (node_binop, 2 ∷ 5 ∷ [])
      ∷ []
unfolding gk_parse script statements parse_stmt assignment expression assigns_here leaf parse_expr
    parse_or parse_and parse_cmp parse_add parse_mul level operators parse_unary parse_primary name
    and_then branch peek advance check match_token expect skip_newlines new_node set_value
    set_children add_child passed past_newlines
precedence_test = refl

-- f(1, 2)
abbrev call_tokens : List Token
call_tokens =
    word (b'f' ∷ [])
    ∷ token Lexer.tok_lparen
    ∷ number 1
    ∷ token Lexer.tok_comma
    ∷ number 2
    ∷ token Lexer.tok_rparen
    ∷ token Lexer.tok_newline
    ∷ token Lexer.tok_eof
    ∷ []

abbrev node : NodeType → (line int_val : ℕ) → (str_val child : List ℕ) → Node
node t l v str cs = record { type = t; line = l; int_val = v; str_val = str; op = none; child = cs }

abbrev call_tree : Parser
call_tree = record {
  rest = token Lexer.tok_eof ∷ [];
  nodes =
      node node_block 0 0 [] (1 ∷ [])
      ∷ node node_call 1 0 (b'f' ∷ []) (2 ∷ 3 ∷ [])
      ∷ node node_int 1 1 [] []
      ∷ node node_int 1 2 [] []
      ∷ [];
}

call_test : gk_parse call_tokens ≡ done 0 call_tree
unfolding gk_parse script statements parse_stmt expression assigns_here leaf parse_expr parse_or
    parse_and parse_cmp parse_add parse_mul level operators parse_unary parse_primary name call
    arguments and_then branch peek advance check match_token expect skip_newlines new_node set_value
    set_children add_child passed past_newlines
call_test = refl

gk_parse-IsTree_example : IsTree 0 call_tree
gk_parse-IsTree_example = gk_parse-IsTree call_tokens 0 call_tree call_test

gk_parse-ends_example : gk_parse call_tokens ≢ out_of_fuel
gk_parse-ends_example = gk_parse-ends call_tokens
