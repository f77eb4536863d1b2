-- ===== src/Interp/Vars.antt =====
-- The variables, the newest first, and the functions, the oldest first.
use gecko_os.Prelude.{ℕ, Option, none, some, List, [], ◌∷◌, length, leb, ltb, if◌then◌else◌}
use gecko_os.Interp.{Value, Var, FuncDef, gk_max_vars}
use gecko_os.Interp.Values.{streq}

unfoldable pub find_var : (name : List ℕ) → List Var → Option Value
find_var name [] = none
find_var name (v ∷ vars) =
    let rest = find_var name vars in if streq v.name name then some v.val else rest

-- What `set_var` does: `overrun` is a name that does not fit its 64 bytes.
pub data Stored : Type 0 where
  stored : List Var → Stored
  too_many_variables overrun : Stored

abbrev pub behind : Var → Option (List Var) → Option (List Var)
behind v none = none
behind v (some vars) = some (v ∷ vars)

-- The loop over the variables of this scope; `none` when it ends.
unfoldable pub assign : (call_depth : ℕ) (name : List ℕ) → Value → List Var → Option (List Var)
assign depth name val [] = none
assign depth name val (v ∷ vars) =
    let rest = behind v (assign depth name val vars) in
    if ltb v.scope depth
    then none
    else if streq v.name name
    then some (record v { val = val } ∷ vars)
    else rest

abbrev pub or_new : (call_depth : ℕ) (name : List ℕ) → Value → List Var → Option (List Var) → Stored
or_new depth name val vars (some assigned) = stored assigned
or_new depth name val vars none =
    if leb gk_max_vars (length vars)
    then too_many_variables
    else if leb 64 (length name)
    then overrun
    else stored (record { name = name; val = val; scope = depth } ∷ vars)

unfoldable pub set_var : (call_depth : ℕ) (name : List ℕ) → Value → List Var → Stored
set_var depth name val vars = or_new depth name val vars (assign depth name val vars)

unfoldable pub pop_scope : (call_depth : ℕ) → List Var → List Var
pop_scope depth [] = []
pop_scope depth (v ∷ vars) =
    let rest = pop_scope depth vars in if leb depth v.scope then rest else v ∷ vars

unfoldable pub find_func : (name : List ℕ) → List FuncDef → Option FuncDef
find_func name [] = none
find_func name (f ∷ funcs) =
    let rest = find_func name funcs in if streq f.name name then some f else rest
