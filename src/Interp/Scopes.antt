-- ===== src/Interp/Scopes.antt =====
-- Leaving a scope drops what was set in it.
use gecko_os.Prelude.{
  ℕ, ◌≤◌, ◌<◌, ◌≡◌, refl, sym, ap, ◌∙◌, Bool, true, false, Bool-cases, inl, inr, ◌⊎◌, none, some,
  List, [], ◌∷◌, ◌++◌, arith, length, leb, ltb, if◌then◌else◌, le→ltb_false, lt→leb_false, lt→ltb,
}
use gecko_os.Interp.{Value, Var, gk_max_vars}
use gecko_os.Interp.Values.{streq}
use gecko_os.Interp.Vars.{
  stored, too_many_variables, overrun, behind, assign, or_new, set_var, pop_scope,
}

-- Every variable belongs to a scope below `depth`.
abbrev pub AllBelow : ℕ → List Var → Type 0
AllBelow depth [] = Unit {0}
AllBelow depth (v ∷ vars) = (v.scope < depth) × AllBelow depth vars

abbrev AllFrom : ℕ → List Var → Type 0
AllFrom depth [] = Unit {0}
AllFrom depth (v ∷ vars) = (depth ≤ v.scope) × AllFrom depth vars

-- Leaving the scope drops its variables.
pop_scope-append :
    (depth : ℕ) (locals outer : List Var)
    → AllFrom depth locals
    → AllBelow depth outer
    → pop_scope depth (locals ++ outer) ≡ outer
unfolding pop_scope
pop_scope-append depth [] [] from below = refl
pop_scope-append depth [] (v ∷ outer) from below = rw (lt→leb_false depth v.scope below.0) refl
pop_scope-append depth (v ∷ locals) outer from below =
    let inner : leb depth v.scope ≡ true = ground (arith, from.0) in
    rw inner (pop_scope-append depth locals outer from.1 below)

-- An assignment finds a variable of the scope or none, and keeps the variables outside.
assign-append :
    (depth : ℕ) (name : List ℕ) (val : Value) (locals outer : List Var)
    → AllFrom depth locals
    → AllBelow depth outer
    → (assign depth name val (locals ++ outer) ≡ none)
      ⊎ ((after : List Var) × (assign depth name val (locals ++ outer) ≡ some (after ++ outer))
          × AllFrom depth after)
unfolding assign
assign-append depth name val [] [] from below = inl refl
assign-append depth name val [] (v ∷ outer) from below =
    inl (rw (lt→ltb v.scope depth below.0) refl)
assign-append depth name val (v ∷ locals) outer from below =
    let here : ltb v.scope depth ≡ false = le→ltb_false depth v.scope from.0 in
    elim (Bool-cases (streq v.name name)) [
      | inl found ↦ rw (here, found) (inr (record v { val = val } ∷ locals, refl, from))
      | inr other ↦ elim (assign-append depth name val locals outer from.1 below) [
        | inl missing ↦ rw (here, other) (inl (ap (behind v) missing))
        | inr (after, assigned, from') ↦
            rw (here, other) (inr (v ∷ after, ap (behind v) assigned, (from.0, from')))
      ]
    ]

pub stored_same : {x y : List Var} → stored x ≡ stored y → x ≡ y
stored_same e = cc

pub or_new-stored :
    (depth : ℕ) (name : List ℕ) (val : Value) (vars after : List Var)
    → or_new depth name val vars none ≡ stored after
    → after ≡ record { name = name; val = val; scope = depth } ∷ vars
or_new-stored depth name val vars after h =
    only (leb gk_max_vars (length vars)) (leb 64 (length name))
      (record { name = name; val = val; scope = depth } ∷ vars) h
  where
    only :
        (full long : Bool) (x : List Var)
        → (if full then too_many_variables else if long then overrun else stored x) ≡ stored after
        → after ≡ x
    only true long x e = cc
    only false true x e = cc
    only false false x e = cc

set_var-append :
    (depth : ℕ) (name : List ℕ) (val : Value) (locals outer vars : List Var)
    → AllFrom depth locals
    → AllBelow depth outer
    → set_var depth name val (locals ++ outer) ≡ stored vars
    → (after : List Var) × (vars ≡ after ++ outer) × AllFrom depth after
unfolding set_var
set_var-append depth name val locals outer vars from below h =
    elim (assign-append depth name val locals outer from below) [
      | inl missing ↦
          let made =
            or_new-stored depth name val (locals ++ outer) vars
              (sym (ap (or_new depth name val (locals ++ outer)) missing) ∙ h) in
          (record { name = name; val = val; scope = depth } ∷ locals, made, (omega arith, from))
      | inr (after, assigned, from') ↦ (
        after,
        stored_same (sym h ∙ ap (or_new depth name val (locals ++ outer)) assigned),
        from',
      )
    ]

-- Calls of `set_var` at a depth, one after the other, that all succeed.
pub data Sets (depth : ℕ) : List Var → List Var → Type 0 where
  stop : {vars : List Var} → Sets depth vars vars
  then_set :
      {vars next last : List Var} (name : List ℕ) (val : Value)
      → set_var depth name val vars ≡ stored next
      → Sets depth next last
      → Sets depth vars last

pop_scope-Sets_append :
    (depth : ℕ) (locals outer vars last : List Var)
    → vars ≡ locals ++ outer
    → AllFrom depth locals
    → AllBelow depth outer
    → Sets depth vars last
    → pop_scope depth last ≡ outer
pop_scope-Sets_append depth locals outer vars last e from below stop =
    ap (pop_scope depth) e ∙ pop_scope-append depth locals outer from below
pop_scope-Sets_append depth locals outer vars last e from below
      (then_set {next = next} name val h sets) =
    let (after, made, from') =
      set_var-append depth name val locals outer next from below
        (ap (set_var depth name val) (sym e) ∙ h) in
    pop_scope-Sets_append depth after outer next last made from' below sets

-- When all variables belong to scopes below `depth`, any sequence of successful calls of `set_var` at `depth`
-- and then `pop_scope` leaves exactly those variables with their values.
pub pop_scope-Sets :
    (depth : ℕ) (outer last : List Var)
    → AllBelow depth outer
    → Sets depth outer last
    → pop_scope depth last ≡ outer
pop_scope-Sets depth outer last below sets =
    pop_scope-Sets_append depth [] outer outer last refl tt below sets
