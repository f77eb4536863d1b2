-- ===== src/Parser/Stmt/Ends.antt =====
-- The loops and the blocks end within their fuel.
use gecko_os.Prelude.{
  ℕ, zero, suc, ◌≤◌, ◌<◌, ◌≡◌, refl, Bool, true, false, none, List, arith, length,
}
use gecko_os.Lexer.{
  TokenType, tok_ident, tok_rparen, tok_comma, tok_colon, tok_eof, tok_newline, tok_indent,
  tok_dedent,
}
use gecko_os.Parser.{
  Parser, node_var, node_block, ParseError, block_expected, block_too_large, is, front,
}
use gecko_os.Parser.Run.{Cmd, pure, advance, and_then, set_children}
use gecko_os.Parser.Nodes.{AllBelow, IsSound}
use gecko_os.Parser.Ensures.{
  Ensures, returns, fails, bind, mono, branch-Ensures, peek-Ensures, check-Ensures, Kept, Moved,
  Made, keep, move, advance-Ensures, match_token-Ensures, expect-Ensures, skip_newlines-Ensures,
  new_node-Ensures, set_children-Ensures, add_child-Ensures, push_child-Ensures,
}
use gecko_os.Parser.Expr.{parse_expr}
use gecko_os.Parser.Expr.Ends.{Consumes, leaf-Ensures, parse_expr-Consumes}
use gecko_os.Parser.Stmt.{ends_block, statements, parse_block, suite, parameters}

-- The loop stopped at a token that ends it.
abbrev pub Stopped : (TokenType → Bool) → ℕ → ℕ → Unit {0} → Parser → Type 0
Stopped ends r k u s = (ends (front s.rest).type ≡ true) × Kept r k s

pub statements-Ensures :
    (fuel limit : ℕ) (stmt : Cmd ℕ) (ends : TokenType → Bool) (e : ParseError) (n : ℕ)
    → Consumes limit stmt
    → (s : Parser) → IsSound s.nodes
    → length s.rest < limit
    → length s.rest < fuel
    → Ensures (Stopped ends (length s.rest) (length s.nodes)) (statements fuel stmt ends e n s)
unfolding statements
statements-Ensures zero limit stmt ends e n ok s sound fits h = absurd (omega arith)
statements-Ensures (suc fuel) limit stmt ends e n ok s sound fits h = peek-Ensures s _ (
    branch-Ensures _ _ _ s (λ stop. returns (stop, keep (omega arith) (omega arith) sound))
      λ go. bind (ok s sound fits) λ st s1 (i1, m1).
        bind (add_child-Ensures s1 m1.sound e n st i1) λ u s2 m2.
          bind (skip_newlines-Ensures s2 m2.sound) λ u s3 m3.
            mono
              (statements-Ensures fuel limit stmt ends e n ok s3 m3.sound (omega arith)
                (omega arith))
              λ u s4 (stop, m4). (stop, keep (omega arith) (omega arith) m4.sound))

-- A token of the type `w`, which is not the end, is taken, and then the rest of a statement.
module _ {A : Type 0} {P : A → Parser → Type 0} (s : Parser) (sound : IsSound s.nodes) where
  pub taking :
      (w : TokenType)
      → is tok_eof w ≡ false
      → (k : Unit {0} → Cmd A)
      → ((u : Unit {0}) (s1 : Parser)
          → Moved (length s.rest) (length s.nodes) s1
          → Ensures P (k u s1))
      → is w (front s.rest).type ≡ true
      → Ensures P (and_then (advance s) k)
  taking w plain k next h = bind (advance-Ensures s sound w h plain) next

pub parameters-Ensures :
    (fuel n : ℕ) (s : Parser)
    → IsSound s.nodes
    → length s.rest < fuel
    → Ensures (λ u. Kept (length s.rest) (length s.nodes)) (parameters fuel n s)
unfolding parameters
parameters-Ensures zero n s sound h = absurd (omega arith)
parameters-Ensures (suc fuel) n s sound h = check-Ensures s _ tok_rparen (
    check-Ensures s _ tok_eof (
      peek-Ensures s _ (
        branch-Ensures _ _ _ s (λ stop. returns (keep (omega arith) (omega arith) sound))
          λ go.
            branch-Ensures _ _ _ s (λ other. fails)
              λ word. bind (advance-Ensures s sound tok_ident (ground arith) refl) λ u s1 m1.
                bind (leaf-Ensures s1 m1.sound node_var _ 0 _) λ pn s2 (i2, m2).
                  bind (push_child-Ensures s2 m2.sound n pn i2) λ u s3 m3.
                    bind (match_token-Ensures s3 m3.sound tok_comma) λ more s4 m4.
                      branch-Ensures _ _ _ s4
                        (λ again.
                          mono (parameters-Ensures fuel n s4 m4.sound (omega arith))
                            λ u s5 m5. keep (omega arith) (omega arith) m5.sound)
                        (λ stop. returns (keep (omega arith) (omega arith) m4.sound)))))

-- Statements whose parts are shorter than `limit`.
module _ (fuel limit : ℕ) (stmt : Cmd ℕ) (ok : Consumes limit stmt) (enough : limit ≤ fuel) where
  pub expr-Ensures :
      (s : Parser)
      → IsSound s.nodes
      → length s.rest < limit
      → Ensures (Made (length s.rest) (length s.nodes)) (parse_expr fuel s)
  expr-Ensures s sound fits = parse_expr-Consumes fuel s sound (omega arith)

  pub parse_block-Ensures :
      (s : Parser)
      → IsSound s.nodes
      → length s.rest < limit
      → Ensures (Made (length s.rest) (length s.nodes)) (parse_block fuel stmt s)
  unfolding parse_block
  parse_block-Ensures s sound fits = peek-Ensures s _ (
      bind (expect-Ensures s sound tok_indent block_expected refl) λ u s1 m1.
        bind (new_node-Ensures s1 m1.sound node_block _) λ block s2 (i2, m2).
          bind (skip_newlines-Ensures s2 m2.sound) λ u s3 m3.
            bind
              (statements-Ensures fuel limit stmt ends_block block_too_large block ok s3 m3.sound
                (omega arith) (omega arith))
              λ u s4 (stop, m4).
                bind (match_token-Ensures s4 m4.sound tok_dedent)
                  λ b s5 m5. returns (omega arith, move (omega arith) (omega arith) m5.sound))

  pub suite-Ensures :
      (e : ParseError) (s : Parser)
      → IsSound s.nodes
      → length s.rest < limit
      → Ensures (Made (length s.rest) (length s.nodes)) (suite fuel stmt e s)
  unfolding suite
  suite-Ensures e s sound fits = bind (expect-Ensures s sound tok_colon e refl) λ u s1 m1.
      bind (match_token-Ensures s1 m1.sound tok_newline) λ b s2 m2.
        mono (parse_block-Ensures s2 m2.sound (omega arith))
          λ n s3 (i3, m3). (i3, move (omega arith) (omega arith) m3.sound)

  -- The children of `n` are written, and `n` is returned.
  pub finish-Ensures :
      (n : ℕ) (cs : List ℕ) (k r : ℕ) (s : Parser)
      → IsSound s.nodes
      → AllBelow (length s.nodes) cs
      → length cs ≤ 64
      → n < length s.nodes
      → k ≤ length s.nodes
      → length s.rest < r
      → Ensures (Made r k) (and_then (set_children n none cs s) λ _. pure n)
  finish-Ensures n cs k r s sound below few index more less =
      bind (set_children-Ensures s sound n none cs below few)
        λ u s1 m1. returns (omega arith, move (omega arith) (omega arith) m1.sound)
