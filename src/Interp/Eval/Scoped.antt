-- ===== src/Interp/Eval/Scoped.antt =====
-- Evaluation keeps the depth of calls and the order of the scopes.
use gecko_os.Prelude.{
  ℕ, suc, ◌≤◌, ◌≡◌, ◌⊎◌, refl, sym, ap, ◌∙◌, subst, Bool-cases, inl, inr, true, Option, none, some,
  List, [], ◌∷◌, arith, length, leb, ltb, if◌then◌else◌,
}
use gecko_os.Interp.{Value, Var, val_none, gk_max_vars}
use gecko_os.Interp.Values.{streq}
use gecko_os.Interp.Vars.{
  Stored, stored, too_many_variables, overrun, behind, assign, or_new, set_var, pop_scope,
}
use gecko_os.Interp.Scopes.{stored_same}
use gecko_os.Interp.Operators.{Result, value, error, undefined}
use gecko_os.Interp.State.{
  Gk, GkError, Ran, ran, stuck, out_of_fuel, and_then, has_error, checked, fail, after_set, setting,
  settled, printing,
}

-- The newest variable first, none of a scope above `depth` or above that of a newer one.
abbrev pub Stack : (depth : ℕ) → List Var → Type 0
Stack depth [] = Unit {0}
Stack depth (v ∷ vars) = (v.scope ≤ depth) × Stack v.scope vars

pub deeper : (d : ℕ) (vars : List Var) → Stack d vars → Stack (suc d) vars
deeper d [] ok = ok
deeper d (v ∷ vars) ok = (omega (arith, ok.0), ok.1)

pub pop_scope-Stack :
    (d : ℕ) (vars : List Var) → Stack (suc d) vars → Stack d (pop_scope (suc d) vars)
unfolding pop_scope
pop_scope-Stack d [] ok = ok
pop_scope-Stack d (v ∷ vars) ok = elim (Bool-cases (leb (suc d) v.scope)) [
  | inl e ↦
      let same : v.scope ≡ suc d = ground (arith, ok.0) in
      rw e (pop_scope-Stack d vars (subst (λ n. Stack n vars) same ok.1))
  | inr e ↦ rw e (ground (arith, ok.0), ok.1)
]

-- What `assign` gives is a stack again.
StackOf : (depth : ℕ) → Option (List Var) → Type 0
StackOf depth none = Unit {0}
StackOf depth (some vars) = Stack depth vars

behind-Stack :
    (d e : ℕ) (v : Var) (vars : Option (List Var))
    → v.scope ≤ d
    → StackOf v.scope vars
    → StackOf d (behind v vars)
unfolding StackOf
behind-Stack d e v none low ok = ok
behind-Stack d e v (some vars) low ok = (low, ok)

assign-Stack :
    (at d : ℕ) (name : List ℕ) (val : Value) (vars : List Var)
    → Stack d vars
    → StackOf d (assign at name val vars)
unfolding assign StackOf
assign-Stack at d name val [] ok = tt
assign-Stack at d name val (v ∷ vars) ok = elim (Bool-cases (ltb v.scope at)) [
  | inl outer ↦ rw outer tt
  | inr inner ↦ elim (Bool-cases (streq v.name name)) [
    | inl found ↦ rw (inner, found) ok
    | inr other ↦
        rw (inner, other)
          (behind-Stack d d v (assign at name val vars) ok.0
            (assign-Stack at v.scope name val vars ok.1))
  ]
]

or_new-Stack :
    (d : ℕ) (name : List ℕ) (val : Value) (vars : List Var) (assigned : Option (List Var))
    (after : List Var)
    → Stack d vars
    → StackOf d assigned
    → or_new d name val vars assigned ≡ stored after
    → Stack d after
unfolding StackOf
or_new-Stack d name val vars (some assigned) after ok ok' e = subst (Stack d) (stored_same e) ok'
or_new-Stack d name val vars none after ok ok' e =
    elim (Bool-cases (leb gk_max_vars (length vars))) [
      | inl full ↦ cc (rw full at e)
      | inr room ↦ elim (Bool-cases (leb 64 (length name))) [
        | inl long ↦ cc (rw (room, long) at e)
        | inr short ↦ subst (Stack d) (stored_same (rw (room, short) at e)) (omega arith, ok)
      ]
    ]

-- At the depth `d` of calls, with scopes in order unless there is an error.
pub record IsAt (d : ℕ) (s : Gk) : Type 0 where
  pub depth : s.call_depth ≡ d
  pub scoped : (has_error s ≡ true) ⊎ Stack d s.vars

-- A result that is a state at the depth `d`.
pub data Ends (d : ℕ) : Ran → Type 0 where
  ends : {v : Value} {s : Gk} → IsAt d s → Ends d (ran v s)
  ends_stuck : Ends d stuck
  ends_fuel : Ends d out_of_fuel

pub and_then-Ends :
    (d e : ℕ) (r : Ran) (k : Value → Gk → Ran)
    → Ends d r
    → ((v : Value) (s : Gk) → IsAt d s → Ends e (k v s))
    → Ends e (and_then r k)
and_then-Ends d e _ k (ends {v} {s} ok) h = h v s ok
and_then-Ends d e _ k ends_stuck h = ends_stuck
and_then-Ends d e _ k ends_fuel h = ends_fuel

pub checked-Ends :
    (d : ℕ) (r : Ran) (k : Value → Gk → Ran)
    → Ends d r
    → ((v : Value) (s : Gk) → IsAt d s → Ends d (k v s))
    → Ends d (checked r k)
unfolding checked
checked-Ends d r k ok h =
    and_then-Ends d d r (λ v s. if has_error s then ran val_none s else k v s) ok
      (λ v s at. elim (Bool-cases (has_error s)) [
        | inl e ↦ rw e (ends at)
        | inr e ↦ rw e (h v s at)
      ])

pub fail-Ends : (d : ℕ) (e : GkError) (s : Gk) → s.call_depth ≡ d → Ends d (fail e s)
fail-Ends d e s depth = ends (record { depth = depth; scoped = inl refl })

pub settled-Ends : (d : ℕ) (r : Result) (s : Gk) → IsAt d s → Ends d (settled r s)
settled-Ends d (value v) s at = ends at
settled-Ends d (error e) s at = fail-Ends d _ s at.depth
settled-Ends d undefined s at = ends_stuck

pub printing-Ends :
    (d : ℕ) (text : Option (List ℕ)) (k : Gk → Ran) (s : Gk)
    → IsAt d s
    → ((s : Gk) → IsAt d s → Ends d (k s))
    → Ends d (printing text k s)
printing-Ends d none k s at h = ends_stuck
printing-Ends d (some text) k s at h = h _ (record { depth = at.depth; scoped = at.scoped })

-- Setting a variable at the depth `d`, where what fails is at the depth `e`.
after_set-Ends :
    (d e : ℕ) (r : Stored) (failing : Gk → Gk) (k : Gk → Ran) (s : Gk)
    → s.call_depth ≡ d
    → ((vars : List Var) → r ≡ stored vars → (has_error s ≡ true) ⊎ Stack d vars)
    → (failing s).call_depth ≡ e
    → ((s : Gk) → IsAt d s → Ends e (k s))
    → Ends e (after_set r failing k s)
after_set-Ends d e (stored vars) failing k s depth ok out h =
    h _ (record { depth = depth; scoped = ok vars refl })
after_set-Ends d e too_many_variables failing k s depth ok out h = fail-Ends e _ (failing s) out
after_set-Ends d e overrun failing k s depth ok out h = ends_stuck

pub setting-Ends :
    (d e : ℕ) (name : List ℕ) (val : Value) (failing : Gk → Gk) (k : Gk → Ran) (s : Gk)
    → IsAt d s
    → (failing s).call_depth ≡ e
    → ((s : Gk) → IsAt d s → Ends e (k s))
    → Ends e (setting name val failing k s)
unfolding setting set_var
setting-Ends d e name val failing k s at out h =
    after_set-Ends d e (set_var s.call_depth name val s.vars) failing k s at.depth
      (λ vars made. elim at.scoped [
        | inl bad ↦ inl bad
        | inr ok ↦ inr (
            or_new-Stack d name val s.vars (assign d name val s.vars) vars ok
              (assign-Stack d d name val s.vars ok)
              (ap (λ n. or_new n name val s.vars (assign n name val s.vars)) (sym at.depth) ∙ made))
      ])
      out h
