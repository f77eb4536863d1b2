-- ===== src/Interp.antt =====
-- kernel/gk/gk_interp.c: values, their texts, the operators, the variables and the evaluation of a GK script.
pub mod Values
pub mod Vars
pub mod Operators
pub mod State
pub mod Eval
mod Decimal
mod Scopes
mod Lookup
mod Tests
use gecko_os.Prelude.{ℕ, Bool, List}

abbrev pub gk_max_vars : ℕ
gk_max_vars = 128

-- `Value`: a constructor for each type, with the field that the type reads. An int is a word of 32 bits.
pub data Value : Type 0 where
  val_int : (int_val : ℕ) → Value
  val_bool : (bool_val : Bool) → Value
  val_str : (str_val : List ℕ) → Value
  val_none : Value

pub record Var : Type 0 where
  pub name : List ℕ
  pub val : Value
  pub scope : ℕ

pub record FuncDef : Type 0 where
  pub name : List ℕ
  pub params : List (List ℕ)
  pub body_node : ℕ
