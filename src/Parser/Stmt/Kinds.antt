-- ===== src/Parser/Stmt/Kinds.antt =====
-- Every kind of statement ends within its fuel, takes a token and returns a node of the tree.
use gecko_os.Prelude.{ℕ, suc, ◌≤◌, ◌<◌, ◌≡◌, refl, true, false, none, [], ◌∷◌, arith, length}
use gecko_os.Lexer.{
  TokenType, Token, tok_ident, tok_rparen, tok_lparen, tok_eof, tok_newline, tok_return, tok_def,
  tok_else, tok_while, tok_for, tok_in,
}
use gecko_os.Parser.{
  Parser, NodeType, node_return, node_def, node_if, node_while, node_for, node_assign,
  open_expected, close_after_parameters, colon_after_def, colon_after_if, colon_after_else,
  colon_after_while, colon_after_for, in_expected, is, front,
}
use gecko_os.Parser.Run.{Cmd, set_children}
use gecko_os.Parser.Nodes.{IsSound}
use gecko_os.Parser.Ensures.{
  Ensures, returns, fails, overruns, bind, mono, branch-Ensures, peek-Ensures, check-Ensures, Kept,
  Made, keep, move, advance_again-Ensures, match_token-Ensures, expect-Ensures,
  skip_newlines-Ensures, new_node-Ensures, set_children-Ensures, push_child-Ensures,
}
use gecko_os.Parser.Expr.Ends.{Consumes, leaf-Ensures}
use gecko_os.Parser.Stmt.{
  return_stmt, jump_stmt, def_rest, def_stmt, alternative, if_stmt, while_stmt, for_rest, for_stmt,
  assignment,
}
use gecko_os.Parser.Stmt.Ends.{
  taking, parameters-Ensures, expr-Ensures, suite-Ensures, finish-Ensures,
}

-- Statements whose parts are shorter than `limit`.
module _ (fuel limit : ℕ) (stmt : Cmd ℕ) (ok : Consumes limit stmt) (enough : limit ≤ fuel) where
  pub while_stmt-Ensures :
      (t : Token) (s : Parser)
      → IsSound s.nodes
      → length s.rest < suc limit
      → is tok_while (front s.rest).type ≡ true
      → Ensures (Made (length s.rest) (length s.nodes)) (while_stmt fuel stmt t s)
  unfolding while_stmt
  while_stmt-Ensures t s sound fits = taking s sound tok_while refl _ λ u s1 m1.
      bind (new_node-Ensures s1 m1.sound node_while t.line) λ n s2 (i2, m2).
        bind (expr-Ensures fuel limit stmt ok enough s2 m2.sound (omega arith)) λ cond s3 (i3, m3).
          bind (suite-Ensures fuel limit stmt ok enough colon_after_while s3 m3.sound (omega arith))
            λ body s4 (i4, m4).
              finish-Ensures fuel limit stmt ok enough n (cond ∷ body ∷ []) _ _ s4 m4.sound
                (omega arith, (i4, tt)) (omega arith) (omega arith) (omega arith) (omega arith)

  for_rest-Ensures :
      (t var : Token) (s : Parser)
      → IsSound s.nodes
      → length s.rest < limit
      → is tok_ident (front s.rest).type ≡ true
      → Ensures (Made (length s.rest) (length s.nodes)) (for_rest fuel stmt t var s)
  unfolding for_rest
  for_rest-Ensures t var s sound fits = taking s sound tok_ident refl _ λ u s1 m1.
      bind (expect-Ensures s1 m1.sound tok_in in_expected refl) λ u s2 m2.
        bind (leaf-Ensures s2 m2.sound node_for t.line 0 var.str_val) λ n s3 (i3, m3).
          bind (expr-Ensures fuel limit stmt ok enough s3 m3.sound (omega arith))
            λ iter s4 (i4, m4).
              bind
                (suite-Ensures fuel limit stmt ok enough colon_after_for s4 m4.sound (omega arith))
                λ body s5 (i5, m5).
                  finish-Ensures fuel limit stmt ok enough n (iter ∷ body ∷ []) _ _ s5 m5.sound
                    (omega arith, (i5, tt)) (omega arith) (omega arith) (omega arith) (omega arith)

  pub for_stmt-Ensures :
      (t : Token) (s : Parser)
      → IsSound s.nodes
      → length s.rest < suc limit
      → is tok_for (front s.rest).type ≡ true
      → Ensures (Made (length s.rest) (length s.nodes)) (for_stmt fuel stmt t s)
  unfolding for_stmt
  for_stmt-Ensures t s sound fits = taking s sound tok_for refl _ λ u s1 m1. peek-Ensures s1 _ (
      branch-Ensures _ _ _ s1 (λ other. fails)
        λ word.
          mono (for_rest-Ensures t _ s1 m1.sound (omega arith) (ground arith))
            λ n s2 (i2, m2). (i2, move (omega arith) (omega arith) m2.sound))

  def_rest-Ensures :
      (t name : Token) (s : Parser)
      → IsSound s.nodes
      → length s.rest < limit
      → is tok_ident (front s.rest).type ≡ true
      → Ensures (Made (length s.rest) (length s.nodes)) (def_rest fuel stmt t name s)
  unfolding def_rest
  def_rest-Ensures t name s sound fits = taking s sound tok_ident refl _ λ u s1 m1.
      bind (leaf-Ensures s1 m1.sound node_def t.line 0 name.str_val) λ n s2 (i2, m2).
        bind (expect-Ensures s2 m2.sound tok_lparen open_expected refl) λ u s3 m3.
          bind (parameters-Ensures fuel n s3 m3.sound (omega arith)) λ u s4 m4.
            bind (expect-Ensures s4 m4.sound tok_rparen close_after_parameters refl) λ u s5 m5.
              bind
                (suite-Ensures fuel limit stmt ok enough colon_after_def s5 m5.sound (omega arith))
                λ body s6 (i6, m6).
                  bind (push_child-Ensures s6 m6.sound n body i6)
                    λ u s7 m7. returns (omega arith, move (omega arith) (omega arith) m7.sound)

  pub def_stmt-Ensures :
      (t : Token) (s : Parser)
      → IsSound s.nodes
      → length s.rest < suc limit
      → is tok_def (front s.rest).type ≡ true
      → Ensures (Made (length s.rest) (length s.nodes)) (def_stmt fuel stmt t s)
  unfolding def_stmt
  def_stmt-Ensures t s sound fits = taking s sound tok_def refl _ λ u s1 m1. peek-Ensures s1 _ (
      branch-Ensures _ _ _ s1 (λ other. fails)
        λ word.
          mono (def_rest-Ensures t _ s1 m1.sound (omega arith) (ground arith))
            λ n s2 (i2, m2). (i2, move (omega arith) (omega arith) m2.sound))

  alternative-Ensures :
      (n cond body : ℕ) (s : Parser)
      → IsSound s.nodes
      → cond < length s.nodes
      → body < length s.nodes
      → length s.rest < limit
      → Ensures (λ u. Kept (length s.rest) (length s.nodes)) (alternative fuel stmt n cond body s)
  unfolding alternative
  alternative-Ensures n cond body s sound ci bi fits =
      bind (skip_newlines-Ensures s sound) λ u s1 m1. peek-Ensures s1 _ (
        branch-Ensures _ _ _ s1
          (λ again. bind (ok s1 m1.sound (omega arith)) λ elif_node s2 (i2, m2).
            third s2 elif_node m2.sound (omega arith) (omega arith) i2 (omega arith) (omega arith))
          (λ go.
            branch-Ensures _ _ _ s1
              (λ otherwise.
                taking s1 m1.sound tok_else refl _
                  (λ u s2 m2.
                    bind
                      (suite-Ensures fuel limit stmt ok enough colon_after_else s2 m2.sound
                        (omega arith))
                      λ else_body s3 (i3, m3).
                        third s3 else_body m3.sound (omega arith) (omega arith) i3 (omega arith)
                          (omega arith))
                  otherwise)
              (λ stop. returns m1)))
    where
      third :
          (s2 : Parser) (c : ℕ)
          → IsSound s2.nodes
          → cond < length s2.nodes
          → body < length s2.nodes
          → c < length s2.nodes
          → length s2.rest ≤ length s.rest
          → length s.nodes ≤ length s2.nodes
          → Ensures
              (λ u. Kept (length s.rest) (length s.nodes))
              (set_children n none (cond ∷ body ∷ c ∷ []) s2)
      third s2 c sound2 h1 h2 h3 less more =
          mono
            (set_children-Ensures s2 sound2 n none (cond ∷ body ∷ c ∷ []) (h1, (h2, (h3, tt)))
              (omega arith))
            λ u s3 m3. keep (omega arith) (omega arith) m3.sound

  pub if_stmt-Ensures :
      (w : TokenType) (t : Token) (s : Parser)
      → IsSound s.nodes
      → is tok_eof w ≡ false
      → length s.rest < suc limit
      → is w (front s.rest).type ≡ true
      → Ensures (Made (length s.rest) (length s.nodes)) (if_stmt fuel stmt t s)
  unfolding if_stmt
  if_stmt-Ensures w t s sound plain fits = taking s sound w plain _ λ u s1 m1.
      bind (new_node-Ensures s1 m1.sound node_if t.line) λ n s2 (i2, m2).
        bind (expr-Ensures fuel limit stmt ok enough s2 m2.sound (omega arith)) λ cond s3 (i3, m3).
          bind (suite-Ensures fuel limit stmt ok enough colon_after_if s3 m3.sound (omega arith))
            λ body s4 (i4, m4).
              bind
                (set_children-Ensures s4 m4.sound n none (cond ∷ body ∷ []) (omega arith, (i4, tt))
                  (omega arith))
                λ u s5 m5.
                  bind
                    (alternative-Ensures n cond body s5 m5.sound (omega arith) (omega arith)
                      (omega arith))
                    λ u s6 m6. returns (omega arith, move (omega arith) (omega arith) m6.sound)

  pub return_stmt-Ensures :
      (t : Token) (s : Parser)
      → IsSound s.nodes
      → length s.rest < suc limit
      → is tok_return (front s.rest).type ≡ true
      → Ensures (Made (length s.rest) (length s.nodes)) (return_stmt fuel t s)
  unfolding return_stmt
  return_stmt-Ensures t s sound fits = taking s sound tok_return refl _ λ u s1 m1.
      bind (new_node-Ensures s1 m1.sound node_return t.line) λ n s2 (i2, m2).
        check-Ensures s2 _ tok_newline (
          check-Ensures s2 _ tok_eof (
            bind {P = λ u. Kept (length s2.rest) (length s2.nodes)}
              (branch-Ensures _ _ _ s2 (λ bare. returns (keep (omega arith) (omega arith) m2.sound))
                (λ valued.
                  bind (expr-Ensures fuel limit stmt ok enough s2 m2.sound (omega arith))
                    λ expr s3 (i3, m3).
                      mono
                        (set_children-Ensures s3 m3.sound n none (expr ∷ []) (i3, tt) (omega arith))
                        λ u s4 m4. keep (omega arith) (omega arith) m4.sound))
              λ u s5 m5.
                bind (match_token-Ensures s5 m5.sound tok_newline)
                  λ b s6 m6. returns (omega arith, move (omega arith) (omega arith) m6.sound)))

  pub jump_stmt-Ensures :
      (w : TokenType) (type : NodeType) (t : Token) (s : Parser)
      → IsSound s.nodes
      → is tok_eof w ≡ false
      → is w (front s.rest).type ≡ true
      → Ensures (Made (length s.rest) (length s.nodes)) (jump_stmt type t s)
  unfolding jump_stmt
  jump_stmt-Ensures w type t s sound plain = taking s sound w plain _ λ u s1 m1.
      bind (match_token-Ensures s1 m1.sound tok_newline) λ b s2 m2.
        mono (new_node-Ensures s2 m2.sound type t.line)
          λ n s3 (i3, m3). (i3, move (omega arith) (omega arith) m3.sound)

  pub assignment-Ensures :
      (t : Token) (s : Parser)
      → IsSound s.nodes
      → length s.rest < suc limit
      → is tok_ident (front s.rest).type ≡ true
      → Ensures (Made (length s.rest) (length s.nodes)) (assignment fuel t s)
  unfolding assignment
  assignment-Ensures t s sound fits word =
      branch-Ensures _ _ _ s (λ long. overruns)
        λ short.
          taking s sound tok_ident refl _
            (λ u s1 m1. bind (advance_again-Ensures s1 m1.sound) λ u s2 m2.
              bind (leaf-Ensures s2 m2.sound node_assign t.line 0 t.str_val) λ n s3 (i3, m3).
                bind (expr-Ensures fuel limit stmt ok enough s3 m3.sound (omega arith))
                  λ expr s4 (i4, m4).
                    bind
                      (set_children-Ensures s4 m4.sound n none (expr ∷ []) (i4, tt) (omega arith))
                      λ u s5 m5.
                        bind (match_token-Ensures s5 m5.sound tok_newline) λ b s6 m6.
                          returns (omega arith, move (omega arith) (omega arith) m6.sound))
            word
