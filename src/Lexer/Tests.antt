-- ===== src/Lexer/Tests.antt =====
-- Runs of the lexer.
use gecko_os.Prelude.{ℕ, ◌≤◌, ◌≡◌, refl, false, List, [], ◌∷◌, map, length}
use gecko_os.Lexer.{
  TokenType, tok_int, tok_str, tok_ident, tok_while, tok_colon, tok_eq, tok_assign, tok_newline,
  tok_indent, tok_dedent, tok_eof, Token, no_error, Lexer, Outcome, done, failed, overrun, emit,
  dedents, indent_on, change_indent, finish,
}
use gecko_os.Lexer.Nested.{is_indent, is_dedent, tally}
use gecko_os.Lexer.Balance.{gk_lex_balanced}
use gecko_os.Lexer.Scan.{
  span, int_of, string, word_type, double, single, operator_or, operator, begin_line, step_inside,
  step_start, step, lex, gk_lex,
}

abbrev types : Outcome → List TokenType
types (done s) = map (λ t. t.type) s.tokens
types (failed s) = []
types overrun = []

-- A loop whose body is one assignment of a number.
loop_test :
    types (
      gk_lex
        (119 ∷ 104 ∷ 105 ∷ 108 ∷ 101 ∷ 32 ∷ 120 ∷ 58 ∷ 10 ∷ 32 ∷ 32 ∷ 120 ∷ 61 ∷ 52 ∷ 50 ∷ 10 ∷ []))
    ≡ tok_eof ∷ tok_dedent ∷ tok_newline ∷ tok_int ∷ tok_assign ∷ tok_ident ∷ tok_indent
      ∷ tok_newline ∷ tok_colon ∷ tok_ident ∷ tok_while ∷ []
unfolding gk_lex lex step step_start step_inside operator operator_or begin_line single double
    word_type span int_of emit change_indent indent_on finish dedents string
loop_test = refl

-- A comment line, and a text with an escape and no end of line.
text_test :
    types (gk_lex (35 ∷ 97 ∷ 10 ∷ 10 ∷ 97 ∷ 61 ∷ 61 ∷ 34 ∷ 92 ∷ 34 ∷ 34 ∷ []))
    ≡ tok_eof ∷ tok_newline ∷ tok_str ∷ tok_eq ∷ tok_ident ∷ []
unfolding gk_lex lex step step_start step_inside operator operator_or begin_line single double
    word_type span int_of emit change_indent indent_on finish dedents string
text_test = refl

string_test : string false 0 34 (97 ∷ 92 ∷ 110 ∷ 34 ∷ 98 ∷ []) ≡ (97 ∷ 10 ∷ [], 4)
unfolding string
string_test = refl

abbrev token : TokenType → List ℕ → Token
token t str = record { type = t; int_val = 0; str_val = str; line = 1 }

-- The state after an indented name.
abbrev indented : Lexer
indented = record {
  tokens =
      record { type = tok_eof; int_val = 0; str_val = []; line = 2 }
      ∷ record { type = tok_dedent; int_val = 0; str_val = []; line = 2 }
      ∷ token tok_newline []
      ∷ token tok_ident (120 ∷ [])
      ∷ token tok_indent []
      ∷ [];
  indent_stack = 0 ∷ [];
  line = 2;
  error = no_error;
}

indented_test : gk_lex (32 ∷ 120 ∷ 10 ∷ []) ≡ done indented
unfolding gk_lex lex step step_start step_inside operator operator_or begin_line single double
    word_type span int_of emit change_indent indent_on finish dedents string
indented_test = refl

gk_lex_balanced_example :
    (tally is_indent indented.tokens ≡ tally is_dedent indented.tokens)
    × (length indented.tokens ≤ 2048)
gk_lex_balanced_example = gk_lex_balanced (32 ∷ 120 ∷ 10 ∷ []) indented indented_test
