-- ===== src/Interp/Eval/Calls.antt =====
-- Loops, functions and the whole evaluation keep the depth of calls and the order of the scopes.
use gecko_os.Prelude.{
  ℕ, zero, suc, ◌-◌, ◌≡◌, sym, ap, subst, Bool-cases, inl, inr, false, not, ◌||◌, Option, none,
  some, List, [], ◌∷◌, arith, length, leb, ◌==◌,
}
use gecko_os.Parser.{
  Node, NodeType, node_int, node_str, node_bool, node_var, node_assign, node_binop, node_unop,
  node_call, node_if, node_while, node_for, node_def, node_return, node_break, node_continue,
  node_block, node_print, node_range, node_input, node_int_cast,
}
use gecko_os.Interp.{Value, val_int, val_bool, val_str, val_none, FuncDef}
use gecko_os.Interp.Values.{is_truthy}
use gecko_os.Interp.Vars.{pop_scope}
use gecko_os.Interp.Operators.{unop}
use gecko_os.Interp.State.{Gk, GkError, Ran, ran, Eval, has_error, unchanged, leaves}
use gecko_os.Interp.Eval.{
  get_elem?, eval_child, var_value, behind_body, eval_while, for_rounds, counting, is_range,
  range_for, for_over, defined, eval_def, eval_args, left_call, set_params, returned, call_function,
  eval_return, eval_type, eval_node, eval, gk_max_funcs, gk_max_call_depth,
}
use gecko_os.Interp.Eval.Scoped.{
  Stack, deeper, pop_scope-Stack, IsAt, Ends, ends, ends_stuck, ends_fuel, and_then-Ends,
  checked-Ends, fail-Ends, settled-Ends, setting-Ends,
}
use gecko_os.Interp.Eval.Keeps.{
  child-Ends, assign-Ends, operator-Ends, print-Ends, input-Ends, cast-Ends, block-Ends, if-Ends,
}

-- Entering a call.
entered : (d : ℕ) (s : Gk) → IsAt d s → IsAt (suc d) (record s { call_depth = suc s.call_depth })
entered d s at = record {
  depth = ap suc at.depth;
  scoped = elim at.scoped [ inl bad ↦ inl bad | inr ok ↦ inr (deeper d s.vars ok) ];
}

module _ (ev : Eval) (keeps : (d i : ℕ) (s : Gk) → IsAt d s → Ends d (ev i s)) where
  behind-Ends :
      (d : ℕ) (result : Value) (again : Value → Gk → Ran) (s : Gk)
      → IsAt d s
      → ((v : Value) (s : Gk) → IsAt d s → Ends d (again v s))
      → Ends d (behind_body result again s)
  behind-Ends d result again s at h = elim (Bool-cases (leaves s)) [
    | inl e ↦ rw e (ends at)
    | inr e ↦ elim (Bool-cases s.breaking) [
      | inl f ↦ rw (e, f) (ends (record { depth = at.depth; scoped = at.scoped }))
      | inr f ↦ rw (e, f) (h result _ (record { depth = at.depth; scoped = at.scoped }))
    ]
  ]

  while-Ends :
      (d rounds : ℕ) (n : Node) (result : Value) (s : Gk)
      → IsAt d s
      → Ends d (eval_while rounds ev n result s)
  unfolding eval_while
  while-Ends d zero n result s at = ends_fuel
  while-Ends d (suc rounds) n result s at =
      and_then-Ends d d (eval_child ev n 0 s) _ (child-Ends ev keeps d n 0 s at) (λ c s at.
        elim (Bool-cases (has_error s || not (is_truthy c))) [
          | inl e ↦ rw e (ends at)
          | inr e ↦ rw e (
              and_then-Ends d d (eval_child ev n 1 s) _ (child-Ends ev keeps d n 1 s at)
                (λ result s at.
                  behind-Ends d result (eval_while rounds ev n) s at (while-Ends d rounds n)))
        ])

  rounds-Ends :
      (d left i : ℕ) (n : Node) (result : Value) (s : Gk)
      → IsAt d s
      → Ends d (for_rounds left i ev n result s)
  unfolding for_rounds
  rounds-Ends d zero i n result s at = ends at
  rounds-Ends d (suc left) i n result s at =
      setting-Ends d d n.str_val (val_int i) unchanged _ s at at.depth (λ s at.
        and_then-Ends d d (eval_child ev n 1 s) _ (child-Ends ev keeps d n 1 s at) (λ result s at.
          behind-Ends d result (for_rounds left (suc i) ev n) s at (rounds-Ends d left (suc i) n)))

  counting-Ends :
      (d : ℕ) (unfit : GkError) (n : Node) (v : Value) (s : Gk)
      → IsAt d s
      → Ends d (counting unfit ev n v s)
  counting-Ends d unfit n (val_int v) s at = rounds-Ends d _ 0 n val_none s at
  counting-Ends d unfit n (val_str p) s at = fail-Ends d _ s at.depth
  counting-Ends d unfit n (val_bool b) s at = fail-Ends d _ s at.depth
  counting-Ends d unfit n val_none s at = fail-Ends d _ s at.depth

  range-Ends :
      (d : ℕ) (n : Node) (children : List ℕ) (s : Gk)
      → IsAt d s
      → Ends d (range_for ev n children s)
  range-Ends d n [] s at = fail-Ends d _ s at.depth
  range-Ends d n (c ∷ cs) s at = checked-Ends d (ev c s) _ (keeps d c s at) (counting-Ends d _ n)

  for-Ends :
      (d : ℕ) (n : Node) (iter : Option Node) (s : Gk) → IsAt d s → Ends d (for_over ev n iter s)
  for-Ends d n none s at = ends_stuck
  for-Ends d n (some iter) s at = elim (Bool-cases (is_range iter.type)) [
    | inl e ↦ rw e (range-Ends d n iter.child s at)
    | inr e ↦ rw e (
        checked-Ends d (eval_child ev n 0 s) _ (child-Ends ev keeps d n 0 s at)
          (counting-Ends d _ n))
  ]

  args-Ends :
      (d : ℕ) (children : List ℕ) (k : List Value → Gk → Ran) (s : Gk)
      → IsAt d s
      → ((args : List Value) (s : Gk) → IsAt d s → Ends d (k args s))
      → Ends d (eval_args ev children k s)
  unfolding eval_args
  args-Ends d [] k s at h = h [] s at
  args-Ends d (c ∷ cs) k s at h =
      checked-Ends d (ev c s) _ (keeps d c s at)
        (λ v s at. args-Ends d cs (λ args s. k (v ∷ args) s) s at (λ args s at. h (v ∷ args) s at))

  params-Ends :
      (d : ℕ) (params : List (List ℕ)) (args : List Value) (k : Gk → Ran) (s : Gk)
      → IsAt (suc d) s
      → ((s : Gk) → IsAt (suc d) s → Ends d (k s))
      → Ends d (set_params params args k s)
  unfolding set_params
  params-Ends d [] args k s at h = h s at
  params-Ends d (p ∷ params) [] k s at h = h s at
  params-Ends d (p ∷ params) (a ∷ args) k s at h =
      setting-Ends (suc d) d p a left_call _ s at (omega (arith, at.depth))
        (λ s at. params-Ends d params args k s at h)

  returned-Ends : (d : ℕ) (result : Value) (s : Gk) → IsAt (suc d) s → Ends d (returned result s)
  returned-Ends d result s at =
      let s' : Gk = record s {
        returning = false;
        vars = pop_scope s.call_depth s.vars;
        call_depth = s.call_depth - 1;
      } in
      let left : IsAt d s' = record {
        depth = omega (arith, at.depth);
        scoped = elim at.scoped [
          | inl bad ↦ inl bad
          | inr ok ↦ inr (
              subst (λ n. Stack d (pop_scope n s.vars)) (sym at.depth)
                (pop_scope-Stack d s.vars ok))
        ];
      } in
      elim (Bool-cases s.returning) [ inl e ↦ rw e (ends left) | inr e ↦ rw e (ends left) ]

  call-Ends :
      (d : ℕ) (n : Node) (f : Option FuncDef) (s : Gk) → IsAt d s → Ends d (call_function ev n f s)
  call-Ends d n none s at = fail-Ends d _ s at.depth
  call-Ends d n (some f) s at = elim (Bool-cases (length n.child == length f.params)) [
    | inr e ↦ rw e (fail-Ends d _ s at.depth)
    | inl e ↦ elim (Bool-cases (leb gk_max_call_depth s.call_depth)) [
      | inl full ↦ rw (e, full) (fail-Ends d _ s at.depth)
      | inr room ↦
          rw (e, room)
            (args-Ends d n.child _ s at (λ args s at.
              params-Ends d f.params args _ _ (entered d s at) (λ s at.
                and_then-Ends (suc d) d (ev f.body_node s) _ (keeps (suc d) f.body_node s at)
                  (returned-Ends d))))
    ]
  ]

  defined-Ends :
      (d : ℕ) (name : List ℕ) (params : Option (List (List ℕ))) (body : Option ℕ) (s : Gk)
      → IsAt d s
      → Ends d (defined name params body s)
  defined-Ends d name none body s at = ends_stuck
  defined-Ends d name (some params) none s at = ends_stuck
  defined-Ends d name (some params) (some body) s at = elim (Bool-cases (leb 64 (length name))) [
    | inl e ↦ rw e ends_stuck
    | inr e ↦ rw e (ends (record { depth = at.depth; scoped = at.scoped }))
  ]

  def-Ends :
      (d : ℕ) (nodes : List Node) (n : Node) (s : Gk) → IsAt d s → Ends d (eval_def nodes n s)
  unfolding eval_def
  def-Ends d nodes n s at = elim (Bool-cases (leb gk_max_funcs (length s.funcs))) [
    | inl e ↦ rw e (fail-Ends d _ s at.depth)
    | inr e ↦ rw e (defined-Ends d n.str_val _ _ s at)
  ]

  return-Ends : (d : ℕ) (children : List ℕ) (s : Gk) → IsAt d s → Ends d (eval_return ev children s)
  return-Ends d [] s at = ends (record { depth = at.depth; scoped = at.scoped })
  return-Ends d (c ∷ cs) s at =
      checked-Ends d (ev c s) _ (keeps d c s at)
        (λ v s at. ends (record { depth = at.depth; scoped = at.scoped }))

  var-Ends :
      (d : ℕ) (name : List ℕ) (v : Option Value) (s : Gk) → IsAt d s → Ends d (var_value name v s)
  var-Ends d name none s at = fail-Ends d _ s at.depth
  var-Ends d name (some v) s at = ends at

  type-Ends :
      (type : NodeType) (d rounds : ℕ) (nodes : List Node) (n : Node) (s : Gk)
      → IsAt d s
      → Ends d (eval_type type rounds ev nodes n s)
  unfolding eval_type
  type-Ends node_int d rounds nodes n s at = ends at
  type-Ends node_str d rounds nodes n s at = ends at
  type-Ends node_bool d rounds nodes n s at = ends at
  type-Ends node_var d rounds nodes n s at = var-Ends d n.str_val _ s at
  type-Ends node_assign d rounds nodes n s at = assign-Ends ev keeps d n s at
  type-Ends node_unop d rounds nodes n s at =
      checked-Ends d (eval_child ev n 0 s) _ (child-Ends ev keeps d n 0 s at)
        (λ v s at. settled-Ends d (unop n.op v) s at)
  type-Ends node_binop d rounds nodes n s at = operator-Ends ev keeps d n n.op s at
  type-Ends node_print d rounds nodes n s at = print-Ends ev keeps d n.child s at
  type-Ends node_input d rounds nodes n s at = input-Ends ev keeps d n.child s at
  type-Ends node_int_cast d rounds nodes n s at = cast-Ends ev keeps d n s at
  type-Ends node_block d rounds nodes n s at = block-Ends ev keeps d n.child val_none s at
  type-Ends node_if d rounds nodes n s at = if-Ends ev keeps d n s at
  type-Ends node_while d rounds nodes n s at = while-Ends d rounds n val_none s at
  type-Ends node_for d rounds nodes n s at = for-Ends d n _ s at
  type-Ends node_def d rounds nodes n s at = def-Ends d nodes n s at
  type-Ends node_call d rounds nodes n s at = call-Ends d n _ s at
  type-Ends node_return d rounds nodes n s at = return-Ends d n.child s at
  type-Ends node_break d rounds nodes n s at =
      ends (record { depth = at.depth; scoped = at.scoped })
  type-Ends node_continue d rounds nodes n s at =
      ends (record { depth = at.depth; scoped = at.scoped })
  type-Ends node_range d rounds nodes n s at = fail-Ends d _ s at.depth

  node-Ends :
      (d rounds : ℕ) (n : Option Node) (nodes : List Node) (s : Gk)
      → IsAt d s
      → Ends d (eval_node n rounds ev nodes s)
  node-Ends d rounds none nodes s at = ends_stuck
  node-Ends d rounds (some n) nodes s at = type-Ends n.type d rounds nodes n s at

eval-Ends :
    (fuel : ℕ) (nodes : List Node) (d i : ℕ) (s : Gk) → IsAt d s → Ends d (eval fuel nodes i s)
unfolding eval
eval-Ends zero nodes d i s at = ends_fuel
eval-Ends (suc fuel) nodes d i s at = elim (Bool-cases (has_error s)) [
  | inl e ↦ rw e (ends at)
  | inr e ↦
      rw e
        (node-Ends (eval fuel nodes) (eval-Ends fuel nodes) d fuel (get_elem? nodes i) nodes s at)
]

IsAt-end : (d : ℕ) (r : Ran) (v : Value) (s : Gk) → Ends d r → r ≡ ran v s → IsAt d s
IsAt-end d _ v s (ends {v = v'} {s = s'} at) e = let same : s' ≡ s = cc in subst (IsAt d) same at
IsAt-end d _ v s ends_stuck e = cc e
IsAt-end d _ v s ends_fuel e = cc e

-- Wherever `eval` returns, with an error or not, the depth of calls is as it was; and if the variables were in the
-- order of their scopes, none above that depth, they are so again unless there is an error.
pub eval-IsAt :
    (fuel : ℕ) (nodes : List Node) (d i : ℕ) (v : Value) (s s' : Gk)
    → IsAt d s
    → eval fuel nodes i s ≡ ran v s'
    → IsAt d s'
eval-IsAt fuel nodes d i v s s' at run =
    IsAt-end d (eval fuel nodes i s) v s' (eval-Ends fuel nodes d i s at) run
