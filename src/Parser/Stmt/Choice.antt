-- ===== src/Parser/Stmt/Choice.antt =====
-- `parse_stmt` ends with one round more than its expressions need.
use gecko_os.Prelude.{
  ℕ, zero, suc, ◌≤◌, ◌≡◌, refl, Bool, Bool-cases, inl, inr, ◌⊎◌, true, ◌||◌, List, [], ◌∷◌, arith,
}
use gecko_os.Lexer.{
  TokenType, Token, tok_ident, tok_newline, tok_break, tok_continue, tok_if, tok_elif,
}
use gecko_os.Parser.{Parser, node_break, node_continue, is, front}
use gecko_os.Parser.Run.{Cmd, and_then}
use gecko_os.Parser.Ensures.{
  Ensures, returns, bind, branch-Ensures, peek-Ensures, move, match_token-Ensures,
}
use gecko_os.Parser.Expr.Ends.{Consumes, parse_expr-Consumes}
use gecko_os.Parser.Stmt.{expression, assigns, assigns_here, parse_stmt}
use gecko_os.Parser.Stmt.Kinds.{
  while_stmt-Ensures, for_stmt-Ensures, def_stmt-Ensures, if_stmt-Ensures, return_stmt-Ensures,
  jump_stmt-Ensures, assignment-Ensures,
}

expression-Consumes : (fuel : ℕ) → Consumes fuel (expression fuel)
unfolding expression
expression-Consumes fuel s sound fits =
    bind (parse_expr-Consumes fuel s sound fits) λ expr s1 (i1, m1).
      bind (match_token-Ensures s1 m1.sound tok_newline)
        λ b s2 m2. returns (omega arith, move (omega arith) (omega arith) m2.sound)

assigns→ident : (ts : List Token) → assigns ts ≡ true → is tok_ident (front ts).type ≡ true
assigns→ident [] h = ground arith
assigns→ident (t ∷ []) h = ground arith
assigns→ident (t ∷ u ∷ ts) h = ground arith

assigns_here-Ensures :
    {B : Type 0} {Q : B → Parser → Type 0} (s : Parser) (k : Bool → Cmd B)
    → Ensures Q (k (assigns s.rest) s)
    → Ensures Q (and_then (assigns_here s) k)
unfolding assigns_here and_then
assigns_here-Ensures s k h = h

if_or_elif :
    (t : TokenType)
    → is tok_if t || is tok_elif t ≡ true
    → (is tok_if t ≡ true) ⊎ (is tok_elif t ≡ true)
if_or_elif t h = elim (Bool-cases (is tok_if t)) [
  | inl yes_it ↦ inl yes_it
  | inr no_it ↦ inr (ground arith)
]

pub parse_stmt-Consumes : (fuel : ℕ) → Consumes fuel (parse_stmt (suc fuel))
unfolding parse_stmt
parse_stmt-Consumes zero s sound fits = absurd (omega arith)
parse_stmt-Consumes (suc fuel) s sound fits =
    let ok = parse_stmt-Consumes fuel in
    let stmt = parse_stmt (suc fuel) in
    let enough : fuel ≤ suc fuel = omega arith in
    peek-Ensures s _ (
      assigns_here-Ensures s _ (
        branch-Ensures _ _ _ s (return_stmt-Ensures (suc fuel) fuel stmt ok enough _ s sound fits)
          λ _.
            branch-Ensures _ _ _ s
              (jump_stmt-Ensures (suc fuel) fuel stmt ok enough tok_break node_break _ s sound refl)
              λ _.
                branch-Ensures _ _ _ s
                  (jump_stmt-Ensures (suc fuel) fuel stmt ok enough tok_continue node_continue _ s
                    sound refl)
                  λ _.
                    branch-Ensures _ _ _ s
                      (def_stmt-Ensures (suc fuel) fuel stmt ok enough _ s sound fits)
                      λ _.
                        branch-Ensures _ _ _ s
                          (λ h. elim (if_or_elif _ h) [
                            | inl yes_it ↦
                                if_stmt-Ensures (suc fuel) fuel stmt ok enough tok_if _ s sound refl
                                  fits yes_it
                            | inr yes_it ↦
                                if_stmt-Ensures (suc fuel) fuel stmt ok enough tok_elif _ s sound
                                  refl fits yes_it
                          ])
                          λ _.
                            branch-Ensures _ _ _ s
                              (while_stmt-Ensures (suc fuel) fuel stmt ok enough _ s sound fits)
                              λ _.
                                branch-Ensures _ _ _ s
                                  (for_stmt-Ensures (suc fuel) fuel stmt ok enough _ s sound fits)
                                  λ _.
                                    branch-Ensures _ _ _ s
                                      (λ h.
                                        assignment-Ensures (suc fuel) fuel stmt ok enough _ s sound
                                          fits (assigns→ident s.rest h))
                                      λ _. expression-Consumes (suc fuel) s sound fits))
