-- ===== src/Interp/Eval/Keeps.antt =====
-- Every node keeps the depth of calls and the order of the scopes.
use gecko_os.Prelude.{ℕ, Bool-cases, inl, inr, Option, none, some, List, [], ◌∷◌, length, ◌==◌}
use gecko_os.Lexer.{TokenType, tok_and, tok_or}
use gecko_os.Parser.{Node, is}
use gecko_os.Interp.{Value, val_int, val_bool, val_str, val_none}
use gecko_os.Interp.Values.{is_truthy, val_to_str, int_cast}
use gecko_os.Interp.Operators.{binop}
use gecko_os.Interp.State.{Gk, ran, Eval, and_then, unchanged, ends_block}
use gecko_os.Interp.Eval.{
  get_elem?, eval_at, eval_child, eval_assign, eval_operator, eval_print, eval_input, next_line,
  cast, cast_text, eval_int_cast, eval_block, eval_if,
}
use gecko_os.Interp.Eval.Scoped.{
  IsAt, Ends, ends, ends_stuck, and_then-Ends, checked-Ends, fail-Ends, settled-Ends, printing-Ends,
  setting-Ends,
}

module _ (ev : Eval) (keeps : (d i : ℕ) (s : Gk) → IsAt d s → Ends d (ev i s)) where
  at-Ends : (d : ℕ) (c : Option ℕ) (s : Gk) → IsAt d s → Ends d (eval_at ev c s)
  at-Ends d none s at = ends_stuck
  at-Ends d (some c) s at = keeps d c s at

  pub child-Ends : (d : ℕ) (n : Node) (i : ℕ) (s : Gk) → IsAt d s → Ends d (eval_child ev n i s)
  child-Ends d n i s at = at-Ends d (get_elem? n.child i) s at

  pub assign-Ends : (d : ℕ) (n : Node) (s : Gk) → IsAt d s → Ends d (eval_assign ev n s)
  unfolding eval_assign
  assign-Ends d n s at =
      checked-Ends d (eval_child ev n 0 s) _ (child-Ends d n 0 s at)
        (λ val s at. setting-Ends d d n.str_val val unchanged _ s at at.depth (λ s at. ends at))

  second-Ends :
      (d : ℕ) (n : Node) (s : Gk)
      → IsAt d s
      → Ends d (and_then (eval_child ev n 1 s) (λ v s. ran (val_bool (is_truthy v)) s))
  second-Ends d n s at =
      and_then-Ends d d (eval_child ev n 1 s) _ (child-Ends d n 1 s at) (λ v s at. ends at)

  pub operator-Ends :
      (d : ℕ) (n : Node) (op : Option TokenType) (s : Gk)
      → IsAt d s
      → Ends d (eval_operator ev n op s)
  operator-Ends d n none s at = ends_stuck
  operator-Ends d n (some op) s at = elim (Bool-cases (is tok_and op)) [
    | inl e ↦ rw e (
        and_then-Ends d d (eval_child ev n 0 s) _ (child-Ends d n 0 s at) (λ l s at.
          elim (Bool-cases (is_truthy l)) [
            | inl t ↦ rw t (second-Ends d n s at)
            | inr t ↦ rw t (ends at)
          ]))
    | inr e ↦ elim (Bool-cases (is tok_or op)) [
      | inl f ↦
          rw (e, f)
            (and_then-Ends d d (eval_child ev n 0 s) _ (child-Ends d n 0 s at) (λ l s at.
              elim (Bool-cases (is_truthy l)) [
                | inl t ↦ rw t (ends at)
                | inr t ↦ rw t (second-Ends d n s at)
              ]))
      | inr f ↦
          rw (e, f)
            (checked-Ends d (eval_child ev n 0 s) _ (child-Ends d n 0 s at) (λ l s at.
              checked-Ends d (eval_child ev n 1 s) _ (child-Ends d n 1 s at)
                (λ r s at. settled-Ends d (binop op l r) s at)))
    ]
  ]

  pub print-Ends :
      (d : ℕ) (children : List ℕ) (s : Gk) → IsAt d s → Ends d (eval_print ev children s)
  unfolding eval_print
  print-Ends d [] s at = ends (record { depth = at.depth; scoped = at.scoped })
  print-Ends d (c ∷ []) s at = checked-Ends d (ev c s) _ (keeps d c s at) (λ v s at.
      printing-Ends d (val_to_str v) _ s at
        (λ s at. ends (record { depth = at.depth; scoped = at.scoped })))
  print-Ends d (c ∷ b ∷ cs) s at = checked-Ends d (ev c s) _ (keeps d c s at) (λ v s at.
      printing-Ends d (val_to_str v) _ s at
        (λ s at. print-Ends d (b ∷ cs) _ (record { depth = at.depth; scoped = at.scoped })))

  line-Ends : (d : ℕ) (lines : List (List ℕ)) (s : Gk) → IsAt d s → Ends d (next_line lines s)
  line-Ends d [] s at = ends_stuck
  line-Ends d (line ∷ lines) s at = ends (record { depth = at.depth; scoped = at.scoped })

  pub input-Ends :
      (d : ℕ) (children : List ℕ) (s : Gk) → IsAt d s → Ends d (eval_input ev children s)
  input-Ends d [] s at = line-Ends d s.lines s at
  input-Ends d (c ∷ cs) s at =
      checked-Ends d (ev c s) _ (keeps d c s at)
        (λ v s at. printing-Ends d (val_to_str v) _ s at (λ s at. line-Ends d s.lines s at))

  text-Ends : (d : ℕ) (v : Option ℕ) (s : Gk) → IsAt d s → Ends d (cast_text v s)
  text-Ends d none s at = fail-Ends d _ s at.depth
  text-Ends d (some v) s at = ends at

  value-Ends : (d : ℕ) (v : Value) (s : Gk) → IsAt d s → Ends d (cast v s)
  value-Ends d (val_int v) s at = ends at
  value-Ends d (val_str p) s at = text-Ends d (int_cast p) s at
  value-Ends d (val_bool b) s at = fail-Ends d _ s at.depth
  value-Ends d val_none s at = fail-Ends d _ s at.depth

  pub cast-Ends : (d : ℕ) (n : Node) (s : Gk) → IsAt d s → Ends d (eval_int_cast ev n s)
  unfolding eval_int_cast
  cast-Ends d n s at = elim (Bool-cases (length n.child == 1)) [
    | inl e ↦ rw e (checked-Ends d (eval_child ev n 0 s) _ (child-Ends d n 0 s at) (value-Ends d))
    | inr e ↦ rw e (fail-Ends d _ s at.depth)
  ]

  pub block-Ends :
      (d : ℕ) (children : List ℕ) (last : Value) (s : Gk)
      → IsAt d s
      → Ends d (eval_block ev children last s)
  unfolding eval_block
  block-Ends d [] last s at = ends at
  block-Ends d (c ∷ cs) last s at = and_then-Ends d d (ev c s) _ (keeps d c s at) (λ last s at.
      elim (Bool-cases (ends_block s)) [
        | inl e ↦ rw e (ends at)
        | inr e ↦ rw e (block-Ends d cs last s at)
      ])

  pub if-Ends : (d : ℕ) (n : Node) (s : Gk) → IsAt d s → Ends d (eval_if ev n s)
  unfolding eval_if
  if-Ends d n s at = checked-Ends d (eval_child ev n 0 s) _ (child-Ends d n 0 s at) (λ c s at.
      elim (Bool-cases (is_truthy c)) [
        | inl e ↦ rw e (child-Ends d n 1 s at)
        | inr e ↦ elim (Bool-cases (length n.child == 3)) [
          | inl f ↦ rw (e, f) (child-Ends d n 2 s at)
          | inr f ↦ rw (e, f) (ends at)
        ]
      ])
