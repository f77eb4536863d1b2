-- ===== src/Parser/Expr/Ends.antt =====
-- Expressions end within their fuel, take a token and return a node of the tree.
use gecko_os.Prelude.{
  ℕ, zero, suc, ◌<◌, ◌≡◌, refl, Bool, true, false, ◌||◌, some, List, [], ◌∷◌, arith, length,
  ==-refl,
}
use gecko_os.Lexer.{
  TokenType, Token, tok_int, tok_str, tok_ident, tok_true, tok_false, tok_lparen, tok_rparen,
  tok_comma, tok_eof, tok_minus, tok_not, tok_and, tok_or,
}
use gecko_os.Parser.{
  Parser, NodeType, node_int, node_str, node_bool, node_var, node_unop, node_binop,
  too_many_arguments, close_after_arguments, close_expected, is, code, front,
}
use gecko_os.Parser.Run.{Cmd, advance, and_then}
use gecko_os.Parser.Nodes.{IsSound}
use gecko_os.Parser.Ensures.{
  Ensures, returns, fails, bind, mono, branch-Ensures, peek-Ensures, check-Ensures, Kept, Moved,
  Made, Placed, keep, move, advance-Ensures, match_token-Ensures, expect-Ensures, new_node-Ensures,
  set_value-Ensures, set_children-Ensures, add_child-Ensures,
}
use gecko_os.Parser.Expr.{
  is_mul, is_add, is_cmp, call_type, arguments, leaf, call, name, parenthesised, parse_primary,
  operators, level, parse_mul, parse_add, parse_cmp, parse_and, parse_or, prefixed, parse_unary,
  parse_expr,
}

-- With fewer tokens than `limit`, the command ends, takes at least one, and returns a node.
abbrev pub Consumes : (limit : ℕ) → Cmd ℕ → Type 0
Consumes limit c =
    (s : Parser)
    → IsSound s.nodes
    → length s.rest < limit
    → Ensures (Made (length s.rest) (length s.nodes)) (c s)

pub leaf-Ensures :
    (s : Parser)
    → IsSound s.nodes
    → (type : NodeType) (line v : ℕ) (str : List ℕ)
    → Ensures (Placed (length s.rest) (length s.nodes)) (leaf type line v str s)
unfolding leaf
leaf-Ensures s sound type line v str =
    bind (new_node-Ensures s sound type line) λ n s1 (index, made).
      bind (set_value-Ensures s1 made.sound n v str)
        λ u s2 kept. returns (omega arith, keep (omega arith) (omega arith) kept.sound)

arguments-Ensures :
    (fuel limit n : ℕ) (expr : Cmd ℕ)
    → Consumes limit expr
    → (s : Parser) → IsSound s.nodes
    → length s.rest < limit
    → length s.rest < fuel
    → Ensures (λ u. Kept (length s.rest) (length s.nodes)) (arguments fuel expr n s)
unfolding arguments
arguments-Ensures zero limit n expr ok s sound fits h = absurd (omega arith)
arguments-Ensures (suc fuel) limit n expr ok s sound fits h = check-Ensures s _ tok_rparen (
    check-Ensures s _ tok_eof (
      branch-Ensures _ _ _ s (λ stop. returns (keep (omega arith) (omega arith) sound))
        (λ go. bind (ok s sound fits) λ arg s1 (index, made).
          bind (add_child-Ensures s1 made.sound too_many_arguments n arg index) λ u s2 kept.
            bind (match_token-Ensures s2 kept.sound tok_comma) λ more s3 kept'.
              branch-Ensures _ _ _ s3
                (λ again.
                  mono
                    (arguments-Ensures fuel limit n expr ok s3 kept'.sound (omega arith)
                      (omega arith))
                    λ u s4 kept''. keep (omega arith) (omega arith) kept''.sound)
                (λ stop. returns (keep (omega arith) (omega arith) kept'.sound)))))

module _ (fuel : ℕ) (expr : Cmd ℕ) (ok : Consumes fuel expr) where
  call-Ensures :
      (t : Token) (s : Parser)
      → IsSound s.nodes
      → length s.rest < fuel
      → is tok_lparen (front s.rest).type ≡ true
      → Ensures (Made (length s.rest) (length s.nodes)) (call fuel expr t s)
  unfolding call
  call-Ensures t s sound fits opens =
      bind (advance-Ensures s sound tok_lparen opens refl) λ u s1 m1.
        bind (new_node-Ensures s1 m1.sound (call_type t.str_val) t.line) λ n s2 (index, m2).
          bind (set_value-Ensures s2 m2.sound n 0 t.str_val) λ u s3 m3.
            bind (arguments-Ensures fuel fuel n expr ok s3 m3.sound (omega arith) (omega arith))
              λ u s4 m4.
                bind (expect-Ensures s4 m4.sound tok_rparen close_after_arguments refl)
                  λ u s5 m5. returns (omega arith, move (omega arith) (omega arith) m5.sound)

  -- A leaf behind a token of the type `w`.
  taken_leaf :
      (w : TokenType) (type : NodeType) (line v : ℕ) (str : List ℕ) (s : Parser)
      → IsSound s.nodes
      → is tok_eof w ≡ false
      → is w (front s.rest).type ≡ true
      → Ensures
          (Made (length s.rest) (length s.nodes))
          (and_then (advance s) λ _. leaf type line v str)
  taken_leaf w type line v str s sound plain h = bind (advance-Ensures s sound w h plain) λ u s1 m1.
      mono (leaf-Ensures s1 m1.sound type line v str)
        λ n s2 (index, m2). (index, move (omega arith) (omega arith) m2.sound)

  name-Ensures :
      (t : Token) (s : Parser)
      → IsSound s.nodes
      → length s.rest < suc fuel
      → is tok_ident (front s.rest).type ≡ true
      → Ensures (Made (length s.rest) (length s.nodes)) (name fuel expr t s)
  unfolding name
  name-Ensures t s sound fits word = bind (advance-Ensures s sound tok_ident word refl) λ u s1 m1.
      check-Ensures s1 _ tok_lparen (
        branch-Ensures _ _ _ s1
          (λ opens.
            mono (call-Ensures t s1 m1.sound (omega arith) opens)
              λ n s2 (index, m2). (index, move (omega arith) (omega arith) m2.sound))
          (λ closed.
            mono (leaf-Ensures s1 m1.sound node_var t.line 0 t.str_val)
              λ n s2 (index, m2). (index, move (omega arith) (omega arith) m2.sound)))

  parenthesised-Ensures :
      (s : Parser)
      → IsSound s.nodes
      → length s.rest < suc fuel
      → is tok_lparen (front s.rest).type ≡ true
      → Ensures (Made (length s.rest) (length s.nodes)) (parenthesised expr s)
  unfolding parenthesised
  parenthesised-Ensures s sound fits opens =
      bind (advance-Ensures s sound tok_lparen opens refl) λ u s1 m1.
        bind (ok s1 m1.sound (omega arith)) λ n s2 (index, m2).
          bind (expect-Ensures s2 m2.sound tok_rparen close_expected refl)
            λ u s3 m3. returns (omega arith, move (omega arith) (omega arith) m3.sound)

  parse_primary-Consumes : Consumes (suc fuel) (parse_primary fuel expr)
  unfolding parse_primary
  parse_primary-Consumes s sound fits = peek-Ensures s _ (
      branch-Ensures _ _ _ s (taken_leaf tok_int node_int _ _ [] s sound refl) λ _.
        branch-Ensures _ _ _ s (taken_leaf tok_str node_str _ 0 _ s sound refl) λ _.
          branch-Ensures _ _ _ s (taken_leaf tok_true node_bool _ 1 [] s sound refl) λ _.
            branch-Ensures _ _ _ s (taken_leaf tok_false node_bool _ 0 [] s sound refl) λ _.
              branch-Ensures _ _ _ s (name-Ensures _ s sound fits)
                λ _. branch-Ensures _ _ _ s (parenthesised-Ensures s sound fits) λ _. fails)

-- The test of an operator is false of the end.
abbrev pub IsOperator : (TokenType → Bool) → Type 0
IsOperator is_op = (t : TokenType) → is_op t ≡ true → is tok_eof t ≡ false

advance_op-Ensures :
    (is_op : TokenType → Bool)
    → IsOperator is_op
    → (s : Parser) → IsSound s.nodes
    → is_op (front s.rest).type ≡ true
    → Ensures (λ u. Moved (length s.rest) (length s.nodes)) (advance s)
advance_op-Ensures is_op op s sound h =
    advance-Ensures s sound (front s.rest).type (==-refl (code (front s.rest).type)) (op _ h)

operators-Ensures :
    (fuel limit : ℕ) (operand : Cmd ℕ) (is_op : TokenType → Bool) (left : ℕ)
    → IsOperator is_op
    → Consumes limit operand
    → (s : Parser) → IsSound s.nodes
    → left < length s.nodes
    → length s.rest < limit
    → length s.rest < fuel
    → Ensures (Placed (length s.rest) (length s.nodes)) (operators fuel operand is_op left s)
unfolding operators
operators-Ensures zero limit operand is_op left op ok s sound index fits h = absurd (omega arith)
operators-Ensures (suc fuel) limit operand is_op left op ok s sound index fits h =
    peek-Ensures s _ (
      branch-Ensures _ _ _ s
        (λ more. bind (advance_op-Ensures is_op op s sound more) λ u s1 m1.
          bind (ok s1 m1.sound (omega arith)) λ right s2 (i2, m2).
            bind (new_node-Ensures s2 m2.sound node_binop _) λ n s3 (i3, m3).
              bind
                (set_children-Ensures s3 m3.sound n (some _) (left ∷ right ∷ [])
                  (omega arith, (omega arith, tt)) (omega arith))
                λ u s4 m4.
                  mono
                    (operators-Ensures fuel limit operand is_op n op ok s4 m4.sound (omega arith)
                      (omega arith) (omega arith))
                    λ k s5 (i5, m5). (i5, keep (omega arith) (omega arith) m5.sound))
        (λ stop. returns (index, keep (omega arith) (omega arith) sound)))

module _ (fuel : ℕ) where
  level-Consumes :
      (operand : Cmd ℕ) (is_op : TokenType → Bool)
      → IsOperator is_op
      → Consumes fuel operand
      → Consumes fuel (level fuel operand is_op)
  unfolding level
  level-Consumes operand is_op op ok s sound fits = bind (ok s sound fits) λ left s1 (i1, m1).
      mono
        (operators-Ensures fuel fuel operand is_op left op ok s1 m1.sound i1 (omega arith)
          (omega arith))
        λ n s2 (i2, m2). (i2, move (omega arith) (omega arith) m2.sound)

  parse_or-Consumes : (unary : Cmd ℕ) → Consumes fuel unary → Consumes fuel (parse_or fuel unary)
  unfolding parse_or parse_and parse_cmp parse_add parse_mul
  parse_or-Consumes unary ok =
      level-Consumes _ (is tok_or) (λ t h. ground arith)
        (level-Consumes _ (is tok_and) (λ t h. ground arith)
          (level-Consumes _ is_cmp (λ t h. ground arith)
            (level-Consumes _ is_add (λ t h. ground arith)
              (level-Consumes _ is_mul (λ t h. ground arith) ok))))

  prefixed-Ensures :
      (operand : Cmd ℕ)
      → Consumes fuel operand
      → (t : Token) (s : Parser) → IsSound s.nodes
      → length s.rest < suc fuel
      → is tok_minus (front s.rest).type || is tok_not (front s.rest).type ≡ true
      → Ensures (Made (length s.rest) (length s.nodes)) (prefixed operand t s)
  unfolding prefixed
  prefixed-Ensures operand ok t s sound fits h =
      bind
        (advance_op-Ensures (λ w. is tok_minus w || is tok_not w) (λ w e. ground arith) s sound h)
        λ u s1 m1. bind (ok s1 m1.sound (omega arith)) λ argument s2 (i2, m2).
          bind (new_node-Ensures s2 m2.sound node_unop t.line) λ n s3 (i3, m3).
            bind
              (set_children-Ensures s3 m3.sound n (some t.type) (argument ∷ []) (omega arith, tt)
                (omega arith))
              λ u s4 m4. returns (omega arith, move (omega arith) (omega arith) m4.sound)

parse_unary-Consumes : (fuel : ℕ) → Consumes fuel (parse_unary fuel)
unfolding parse_unary
parse_unary-Consumes zero s sound fits = absurd (omega arith)
parse_unary-Consumes (suc fuel) s sound fits =
    let operand = parse_unary-Consumes fuel in
    peek-Ensures s _ (
      branch-Ensures _ _ _ s (prefixed-Ensures fuel (parse_unary fuel) operand _ s sound fits)
        λ _. parse_primary-Consumes fuel _ (parse_or-Consumes fuel _ operand) s sound fits)

pub parse_expr-Consumes : (fuel : ℕ) → Consumes fuel (parse_expr fuel)
unfolding parse_expr
parse_expr-Consumes fuel = parse_or-Consumes fuel (parse_unary fuel) (parse_unary-Consumes fuel)
