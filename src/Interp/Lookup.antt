-- ===== src/Interp/Lookup.antt =====
-- Looking up what was set.
use gecko_os.Prelude.{
  ℕ, ◌≡◌, ◌≢◌, refl, sym, ap, ◌∙◌, subst, Bool, true, false, Bool-cases, inl, inr, Option, none,
  some, Option-cases, List, [], ◌∷◌, arith, ltb, ◌==◌, if◌then◌else◌, ==-refl, kept_true,
  kept_false,
}
use gecko_os.Interp.{Value, Var}
use gecko_os.Interp.Values.{streq}
use gecko_os.Interp.Vars.{find_var, stored, behind, assign, or_new, set_var}
use gecko_os.Interp.Scopes.{or_new-stored, stored_same}

streq_refl : (a : List ℕ) → streq a a ≡ true
unfolding streq
streq_refl [] = refl
streq_refl (x ∷ a) = rw (==-refl x, streq_refl a) refl

streq→eq : (a b : List ℕ) → streq a b ≡ true → a ≡ b
unfolding streq
streq→eq [] [] h = refl
streq→eq [] (y ∷ b) h = cc
streq→eq (x ∷ a) [] h = cc
streq→eq (x ∷ a) (y ∷ b) h = elim (Bool-cases (x == y)) [
  | inl same ↦
      let first : x ≡ y = ground arith in
      rw (first, streq→eq a b (kept_true same (streq a b) h)) refl
  | inr other ↦ absurd (kept_false other (streq a b) h)
]

-- What is stored under a name is found, and no other name's value changes.
abbrev pub IsStored : (name : List ℕ) → Value → (before after : List Var) → Type 0
IsStored name val before after =
    (find_var name after ≡ some val)
    × ((other : List ℕ) → other ≢ name → find_var other after ≡ find_var other before)

streq_ne : (a b : List ℕ) → a ≢ b → streq a b ≡ false
streq_ne a b h = elim (Bool-cases (streq a b)) [
  | inl same ↦ absurd (h (streq→eq a b same))
  | inr other ↦ other
]

-- A variable of that name is put at the front, or in the place of one of that name.
front-IsStored :
    (name : List ℕ) (val : Value) (scope : ℕ) (vars : List Var)
    → IsStored name val vars (record { name = name; val = val; scope = scope } ∷ vars)
unfolding find_var
front-IsStored name val scope vars =
    ((rw (streq_refl name) refl), (λ other ne. rw (streq_ne name other (λ e. ne (sym e))) refl))

place-IsStored :
    (name : List ℕ) (val : Value) (v : Var) (vars : List Var)
    → streq v.name name ≡ true
    → IsStored name val (v ∷ vars) (record v { val = val } ∷ vars)
unfolding find_var
place-IsStored name val v vars found = (
  (rw found refl),
  (λ other ne.
      let differ = streq_ne v.name other (λ e. ne (sym e ∙ streq→eq v.name name found)) in
      rw differ refl),
)

behind-IsStored :
    (name : List ℕ) (val : Value) (v : Var) (before after : List Var)
    → streq v.name name ≡ false
    → IsStored name val before after
    → IsStored name val (v ∷ before) (v ∷ after)
unfolding find_var
behind-IsStored name val v before after differ ok =
    ((rw differ ok.0), (λ other ne. rw (ok.1 other ne) refl))

none_absurd : {xs : List Var} → none ≢ some xs
none_absurd h = cc

some_same : {x y : List Var} → some x ≡ some y → x ≡ y
some_same e = cc

-- A turn of the loop, by its two tests and what the rest of it gives.
turn-IsStored :
    (name : List ℕ) (val : Value) (v : Var) (vars after : List Var) (outer found : Bool)
    (rest : Option (List Var))
    → streq v.name name ≡ found
    → (if outer
        then none
        else if found
        then some (record v { val = val } ∷ vars)
        else behind v rest)
      ≡ some after
    → ((vars' : List Var) → rest ≡ some vars' → IsStored name val vars vars')
    → IsStored name val (v ∷ vars) after
turn-IsStored name val v vars after true found rest test h inner = absurd (none_absurd h)
turn-IsStored name val v vars after false true rest test h inner =
    subst (IsStored name val (v ∷ vars)) (some_same h) (place-IsStored name val v vars test)
turn-IsStored name val v vars after false false none test h inner = absurd (none_absurd h)
turn-IsStored name val v vars after false false (some vars') test h inner =
    subst (IsStored name val (v ∷ vars)) (some_same h)
      (behind-IsStored name val v vars vars' test (inner vars' refl))

assign-IsStored :
    (depth : ℕ) (name : List ℕ) (val : Value) (vars after : List Var)
    → assign depth name val vars ≡ some after
    → IsStored name val vars after
unfolding assign
assign-IsStored depth name val [] after h = absurd (none_absurd h)
assign-IsStored depth name val (v ∷ vars) after h =
    turn-IsStored name val v vars after (ltb v.scope depth) (streq v.name name)
      (assign depth name val vars) refl h (assign-IsStored depth name val vars)

-- When `set_var` succeeds, the value is found under the name, and what is found under any other name is as it was.
pub set_var-IsStored :
    (depth : ℕ) (name : List ℕ) (val : Value) (vars after : List Var)
    → set_var depth name val vars ≡ stored after
    → IsStored name val vars after
unfolding set_var
set_var-IsStored depth name val vars after h = elim (Option-cases (assign depth name val vars)) [
  | inl missing ↦
      subst (IsStored name val vars)
        (sym (
          or_new-stored depth name val vars after
            (sym (ap (or_new depth name val vars) missing) ∙ h)))
        (front-IsStored name val depth vars)
  | inr (vars', assigned) ↦
      subst (IsStored name val vars)
        (stored_same (sym (ap (or_new depth name val vars) assigned) ∙ h))
        (assign-IsStored depth name val vars vars' assigned)
]
