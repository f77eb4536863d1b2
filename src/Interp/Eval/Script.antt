-- ===== src/Interp/Eval/Script.antt =====
-- `gk_run`: a script through the lexer, the parser and the evaluation of its root.
mod Tests
use gecko_os.Prelude.{ℕ, zero, Bool, false, Option, none, some, List, [], ◌∷◌}
use gecko_os.Lexer
use gecko_os.Lexer.{Token, LexError}
use gecko_os.Lexer.Scan.{gk_lex}
use gecko_os.Parser.{Node, Parser, ParseError}
use gecko_os.Parser.Run
use gecko_os.Parser.Stmt.{gk_parse}
use gecko_os.Interp.{Value, val_none}
use gecko_os.Interp.State.{Gk, GkError, Ran, ran, stuck, out_of_fuel}
use gecko_os.Interp.Eval.{eval}

-- `undefined_run` is what C leaves undefined in one of the three.
pub data ScriptRun : Type 0 where
  finished : Gk → ScriptRun
  lex_error : LexError → ScriptRun
  parse_error : ParseError → ScriptRun
  runtime_error : GkError → Gk → ScriptRun
  undefined_run fuel_used_up : ScriptRun

-- The lexer has its latest token first.
unfoldable pub in_order : (tokens ordered : List Token) → List Token
in_order [] ordered = ordered
in_order (t ∷ tokens) ordered = in_order tokens (t ∷ ordered)

-- The state behind `gk_init`; the lines to come are those of the keyboard.
abbrev pub gk_init : (lines : List (List ℕ)) → Gk
gk_init lines = record {
  vars = [];
  funcs = [];
  call_depth = 0;
  returning = false;
  breaking = false;
  continuing = false;
  return_val = val_none;
  error = none;
  printed = [];
  lines = lines;
}

-- What `gk_run` resets.
abbrev pub reset : Gk → Gk
reset s = record s { error = none; returning = false; breaking = false; continuing = false }

abbrev pub ended : Option GkError → Gk → ScriptRun
ended none s = finished s
ended (some e) s = runtime_error e s

abbrev pub interpreted : Ran → ScriptRun
interpreted (ran v s) = ended s.error s
interpreted stuck = undefined_run
interpreted out_of_fuel = fuel_used_up

abbrev pub parsed : (fuel : ℕ) → Run.Run ℕ → Gk → ScriptRun
parsed fuel (Run.done root p) s = interpreted (eval fuel p.nodes root s)
parsed fuel (Run.failed e) s = parse_error e
parsed fuel Run.overrun s = undefined_run
parsed fuel Run.out_of_fuel s = fuel_used_up

abbrev pub lexed : (fuel : ℕ) → Lexer.Outcome → Gk → ScriptRun
lexed fuel (Lexer.done l) s = parsed fuel (gk_parse (in_order l.tokens [])) s
lexed fuel (Lexer.failed l) s = lex_error l.error
lexed fuel Lexer.overrun s = undefined_run

unfoldable pub gk_run : (fuel : ℕ) → (src : List ℕ) → Gk → ScriptRun
gk_run fuel src s = lexed fuel (gk_lex src) (reset s)
