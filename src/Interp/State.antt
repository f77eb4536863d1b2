-- ===== src/Interp/State.antt =====
-- The state of the interpreter, and the results of its calls.
use gecko_os.Prelude.{
  ℕ, Bool, true, false, ◌||◌, Option, none, some, List, [], ◌∷◌, ◌++◌, if◌then◌else◌,
}
use gecko_os.Interp.{Value, val_none, Var, FuncDef}
use gecko_os.Interp.Vars.{Stored, stored, too_many_variables, overrun, set_var}
use gecko_os.Interp.Operators.{OperatorError, Result, value, error, undefined}

-- The messages.
pub data GkError : Type 0 where
  undefined_variable undefined_function : (name : List ℕ) → GkError
  operator_error : OperatorError → GkError
  no_room_for_variable int_takes_one_argument int_requires_string int_invalid_literal : GkError
  range_needs_argument range_argument_must_be_integer for_requires_integer : GkError
  too_many_functions wrong_number_of_arguments call_depth_exceeded unknown_node_type : GkError

-- `GkState` behind the parser; the texts printed and the lines to come from the keyboard stand for the terminal.
pub record Gk : Type 0 where
  pub vars : List Var
  pub funcs : List FuncDef
  pub call_depth : ℕ
  pub returning : Bool
  pub breaking : Bool
  pub continuing : Bool
  pub return_val : Value
  pub error : Option GkError
  pub printed : List (List ℕ)
  pub lines : List (List ℕ)

-- `stuck` is what C leaves undefined, or a line that never comes; `out_of_fuel` the end of the fuel.
pub data Ran : Type 0 where
  ran : Value → Gk → Ran
  stuck out_of_fuel : Ran

abbrev pub Eval : Type 0
Eval = (node_idx : ℕ) → Gk → Ran

abbrev pub and_then : Ran → (Value → Gk → Ran) → Ran
and_then (ran v s) k = k v s
and_then stuck k = stuck
and_then out_of_fuel k = out_of_fuel

abbrev pub some_error : Option GkError → Bool
some_error none = false
some_error (some e) = true

-- `s->error[0]`
abbrev pub has_error : Gk → Bool
has_error s = some_error s.error

-- What follows a call of `eval` whose error returns.
unfoldable pub checked : Ran → (Value → Gk → Ran) → Ran
checked r k = and_then r (λ v s. if has_error s then ran val_none s else k v s)

abbrev pub fail : GkError → Gk → Ran
fail e s = ran val_none (record s { error = some e })

abbrev pub gk_print : List ℕ → Gk → Gk
gk_print text s = record s { printed = s.printed ++ text ∷ [] }

-- `set_var`, and what follows it unless it fails, or what `failing` does then.
abbrev pub after_set : Stored → (failing : Gk → Gk) → (Gk → Ran) → Gk → Ran
after_set (stored vars) failing k s = k (record s { vars = vars })
after_set too_many_variables failing k s = fail no_room_for_variable (failing s)
after_set overrun failing k s = stuck

unfoldable pub setting : (name : List ℕ) → Value → (failing : Gk → Gk) → (Gk → Ran) → Gk → Ran
setting name val failing k s = after_set (set_var s.call_depth name val s.vars) failing k s

abbrev pub unchanged : Gk → Gk
unchanged s = s

abbrev pub settled : Result → Gk → Ran
settled (value v) s = ran v s
settled (error e) s = fail (operator_error e) s
settled undefined s = stuck

abbrev pub printing : Option (List ℕ) → (Gk → Ran) → Gk → Ran
printing none k s = stuck
printing (some text) k s = k (gk_print text s)

-- The end of a block or of a loop's round.
abbrev pub leaves : Gk → Bool
leaves s = has_error s || s.returning

abbrev pub ends_block : Gk → Bool
ends_block s = has_error s || s.returning || s.breaking || s.continuing
