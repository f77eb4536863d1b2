-- ===== src/Lexer.antt =====
-- kernel/gk/gk_lexer.c: the tokens of a GK script. The source is a list of bytes, none of them zero.
-- The index into it is the part of the list that is left: `step` treats the character at hand and says
-- how many more its token takes, and `lex` skips those. `overrun` is a write behind `indent_stack`.
pub mod Scan
pub mod Nested
pub mod Balance
mod Tests
use gecko_os.Prelude.{
  ℕ, zero, suc, ◌+◌, ◌*◌, Bool, true, false, not, ◌&&◌, ◌||◌, Option, none, some, List, [], ◌∷◌,
  length, ltb, leb, ◌==◌, if◌then◌else◌,
}

abbrev pub gk_max_tokens : ℕ
gk_max_tokens = 2048

abbrev pub max_indent : ℕ
max_indent = 64

pub data TokenType : Type 0 where
  tok_int tok_str tok_ident : TokenType
  tok_plus tok_minus tok_star tok_slash tok_percent : TokenType
  tok_eq tok_neq tok_lt tok_le tok_gt tok_ge : TokenType
  tok_and tok_or tok_not tok_assign : TokenType
  tok_lparen tok_rparen tok_comma tok_colon : TokenType
  tok_if tok_elif tok_else tok_while tok_for tok_in tok_def tok_return : TokenType
  tok_break tok_continue tok_true tok_false : TokenType
  tok_newline tok_indent tok_dedent tok_eof : TokenType

pub record Token : Type 0 where
  pub type : TokenType
  pub int_val : ℕ
  pub str_val : List ℕ
  pub line : ℕ

pub data LexError : Type 0 where
  no_error too_many_tokens unknown_character : LexError

-- The tokens with the latest first, and the stack of indents with the top first.
pub record Lexer : Type 0 where
  pub tokens : List Token
  pub indent_stack : List ℕ
  pub line : ℕ
  pub error : LexError

pub data Outcome : Type 0 where
  done : Lexer → Outcome
  failed : Lexer → Outcome
  overrun : Outcome

-- What follows a call whose failure returns.
abbrev pub and_then : Outcome → (Lexer → Outcome) → Outcome
and_then (done s) f = f s
and_then (failed s) f = failed s
and_then overrun f = overrun

-- What follows a call whose result is not looked at.
abbrev pub regardless : Outcome → Outcome
regardless (done s) = done s
regardless (failed s) = done s
regardless overrun = overrun

-- `emit`, `emit_int` and `emit_str`
unfoldable pub emit : TokenType → (int_val : ℕ) → (str_val : List ℕ) → Lexer → Outcome
emit t v str s =
    if leb gk_max_tokens (length s.tokens)
    then failed (record s { error = too_many_tokens })
    else done (record s {
      tokens = record { type = t; int_val = v; str_val = str; line = s.line } ∷ s.tokens;
    })

-- `while (indent < indent_stack[indent_top])`
unfoldable pub dedents : (indent : ℕ) → (stack : List ℕ) → Lexer → Outcome
dedents indent [] s = done s
dedents indent (top ∷ stack) s =
    let rest =
      and_then (emit tok_dedent 0 [] (record s { indent_stack = stack })) (dedents indent stack) in
    if ltb indent top then rest else done s

-- The indent of a line that holds a token, against the stack.
unfoldable pub indent_on : (indent : ℕ) (stack : List ℕ) → Lexer → Outcome
indent_on indent [] s = done s
indent_on indent (top ∷ stack) s =
    if ltb top indent
    then (if leb max_indent (length (top ∷ stack))
        then overrun
        else emit tok_indent 0 [] (record s { indent_stack = indent ∷ top ∷ stack }))
    else dedents indent (top ∷ stack) s

unfoldable pub change_indent : (indent : ℕ) → Lexer → Outcome
change_indent indent s = indent_on indent s.indent_stack s

-- The loop that closes the open blocks at the end, and `TOK_EOF`.
unfoldable pub finish : (stack : List ℕ) → Lexer → Outcome
finish [] s = emit tok_eof 0 [] s
finish (bottom ∷ []) s = emit tok_eof 0 [] s
finish (top ∷ next ∷ stack) s =
    and_then (emit tok_dedent 0 [] (record s { indent_stack = next ∷ stack }))
      (finish (next ∷ stack))
