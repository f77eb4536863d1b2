-- ===== src/Lexer/Scan.antt =====
-- The characters of one token, and the pass over the source.
use gecko_os.Prelude.{
  ℕ, zero, suc, ◌+◌, ◌-◌, ◌*◌, ◌%◌, ◌^◌, Bool, true, false, not, ◌&&◌, ◌||◌, Option, none, some,
  List, [], ◌∷◌, length, leb, ◌==◌, if◌then◌else◌, take, drop,
}
use gecko_os.Lexer.{
  TokenType, tok_int, tok_str, tok_ident, tok_plus, tok_minus, tok_star, tok_slash, tok_percent,
  tok_eq, tok_neq, tok_lt, tok_le, tok_gt, tok_ge, tok_and, tok_or, tok_not, tok_assign, tok_lparen,
  tok_rparen, tok_comma, tok_colon, tok_if, tok_elif, tok_else, tok_while, tok_for, tok_in, tok_def,
  tok_return, tok_break, tok_continue, tok_true, tok_false, tok_newline, Lexer, Outcome, done,
  failed, overrun, unknown_character, no_error, and_then, regardless, emit, change_indent, finish,
}

abbrev pub is_digit : ℕ → Bool
is_digit c = leb 48 c && leb c 57

abbrev pub is_alpha : ℕ → Bool
is_alpha c = (leb 97 c && leb c 122) || (leb 65 c && leb c 90) || c == 95

abbrev pub is_alnum : ℕ → Bool
is_alnum c = is_alpha c || is_digit c

abbrev pub is_space : ℕ → Bool
is_space c = c == 32 || c == 9

-- How many characters satisfy a test, at most `n`.
unfoldable pub span : (n : ℕ) → (ℕ → Bool) → List ℕ → ℕ
span zero p src = 0
span (suc n) p [] = 0
span (suc n) p (c ∷ cs) = let rest = suc (span n p cs) in if p c then rest else 0

-- The value of digits, in 32 bits.
unfoldable pub int_of : (val : ℕ) → List ℕ → ℕ
int_of val [] = val
int_of val (c ∷ cs) = int_of ((val * 10 + (c - 48)) % 2 ^ 32) cs

abbrev pub escaped : ℕ → ℕ
escaped c = if c == 110 then 10 else if c == 116 then 9 else c

abbrev pub at_least_one : List ℕ → Bool
at_least_one [] = false
at_least_one (c ∷ cs) = true

-- The text behind a quote, and how many characters it takes with the closing one. `bi` are in the
-- buffer already; the 255th ends the loop, and the character behind it is lost.
unfoldable pub string : (escaping : Bool) (bi quote : ℕ) → List ℕ → List ℕ × ℕ
string escaping bi quote [] = ([], 0)
string escaping bi quote (c ∷ cs) =
    let escape = not escaping && (c == 92 && at_least_one cs) in
    let rest = string escape (if escape then bi else suc bi) quote cs in
    let character = if escaping then escaped c else c in
    if not escaping && c == quote
    then ([], 1)
    else if escape
    then (rest.0, suc rest.1)
    else if leb 255 (suc bi)
    then (character ∷ [], if at_least_one cs then 2 else 1)
    else (character ∷ rest.0, suc rest.1)

abbrev pub same_word : List ℕ → List ℕ → Bool
same_word [] [] = true
same_word [] (b ∷ v) = false
same_word (a ∷ u) [] = false
same_word (a ∷ u) (b ∷ v) = a == b && same_word u v

-- `KEYWORDS`
abbrev pub keywords : List (List ℕ × TokenType)
keywords =
    (105 ∷ 102 ∷ [], tok_if)
    ∷ (101 ∷ 108 ∷ 105 ∷ 102 ∷ [], tok_elif)
    ∷ (101 ∷ 108 ∷ 115 ∷ 101 ∷ [], tok_else)
    ∷ (119 ∷ 104 ∷ 105 ∷ 108 ∷ 101 ∷ [], tok_while)
    ∷ (102 ∷ 111 ∷ 114 ∷ [], tok_for)
    ∷ (105 ∷ 110 ∷ [], tok_in)
    ∷ (100 ∷ 101 ∷ 102 ∷ [], tok_def)
    ∷ (114 ∷ 101 ∷ 116 ∷ 117 ∷ 114 ∷ 110 ∷ [], tok_return)
    ∷ (98 ∷ 114 ∷ 101 ∷ 97 ∷ 107 ∷ [], tok_break)
    ∷ (99 ∷ 111 ∷ 110 ∷ 116 ∷ 105 ∷ 110 ∷ 117 ∷ 101 ∷ [], tok_continue)
    ∷ (97 ∷ 110 ∷ 100 ∷ [], tok_and)
    ∷ (111 ∷ 114 ∷ [], tok_or)
    ∷ (110 ∷ 111 ∷ 116 ∷ [], tok_not)
    ∷ (84 ∷ 114 ∷ 117 ∷ 101 ∷ [], tok_true)
    ∷ (70 ∷ 97 ∷ 108 ∷ 115 ∷ 101 ∷ [], tok_false)
    ∷ []

unfoldable pub word_type : List (List ℕ × TokenType) → List ℕ → TokenType
word_type [] word = tok_ident
word_type (k ∷ ks) word = let rest = word_type ks word in if same_word word k.0 then k.1 else rest

-- The operators of two characters, and of one.
unfoldable pub double : (c next : ℕ) → Option TokenType
double c next =
    if not (next == 61)
    then none
    else if c == 61
    then some tok_eq
    else if c == 33
    then some tok_neq
    else if c == 60
    then some tok_le
    else if c == 62
    then some tok_ge
    else none

unfoldable pub single : (c : ℕ) → Option TokenType
single c =
    if c == 43
    then some tok_plus
    else if c == 45
    then some tok_minus
    else if c == 42
    then some tok_star
    else if c == 47
    then some tok_slash
    else if c == 37
    then some tok_percent
    else if c == 60
    then some tok_lt
    else if c == 62
    then some tok_gt
    else if c == 61
    then some tok_assign
    else if c == 40
    then some tok_lparen
    else if c == 41
    then some tok_rparen
    else if c == 44
    then some tok_comma
    else if c == 58
    then some tok_colon
    else none

abbrev pub head_or_zero : List ℕ → ℕ
head_or_zero [] = 0
head_or_zero (c ∷ cs) = c

-- After a character: how many more its token takes, whether the line goes on, and the state.
pub record Turn : Type 0 where
  pub skip : ℕ
  pub inside : Bool
  pub outcome : Outcome

-- The turn of an operator, if it is one; whether there was room for its token is not looked at.
unfoldable pub operator_or : (skip : ℕ) → Option TokenType → (otherwise : Turn) → Lexer → Turn
operator_or skip (some t) otherwise s = record {
  skip = skip;
  inside = true;
  outcome = regardless (emit t 0 [] s);
}
operator_or skip none otherwise s = otherwise

unfoldable pub operator : (c : ℕ) → List ℕ → Lexer → Turn
operator c cs s =
    operator_or 1 (double c (head_or_zero cs))
      (operator_or 0 (single c)
        (record {
          skip = 0;
          inside = true;
          outcome = failed (record s { error = unknown_character });
        })
        s)
      s

abbrev pub not_newline : ℕ → Bool
not_newline c = not (c == 10)

-- A character inside a line.
unfoldable pub step_inside : (c : ℕ) → List ℕ → Lexer → Turn
step_inside c cs s =
    let digits = span (length cs) is_digit cs in
    let text = string false 0 c cs in
    let letters = span 62 is_alnum cs in
    let word = c ∷ take letters cs in
    if c == 10
    then record {
      skip = 0;
      inside = false;
      outcome = and_then (emit tok_newline 0 [] s) (λ s'. done (record s' { line = s'.line + 1 }));
    }
    else if is_space c
    then record { skip = 0; inside = true; outcome = done s }
    else if c == 35
    then record { skip = span (length cs) not_newline cs; inside = true; outcome = done s }
    else if is_digit c
    then record {
      skip = digits;
      inside = true;
      outcome = emit tok_int (int_of 0 (c ∷ take digits cs)) [] s;
    }
    else if c == 34 || c == 39
    then record { skip = text.1; inside = true; outcome = emit tok_str 0 text.0 s }
    else if is_alpha c
    then record { skip = letters; inside = true; outcome = emit (word_type keywords word) 0 word s }
    else operator c cs s

-- The first character of a line: spaces, then tabs, are its indent. A line with nothing but a comment
-- is skipped with its end; otherwise the indent is compared, and the character is looked at again.
unfoldable pub step_start : (c : ℕ) → List ℕ → Lexer → Turn
step_start c cs s =
    let src = c ∷ cs in
    let spaces = span (length src) (λ b. b == 32) src in
    let tabs = span (length src) (λ b. b == 9) (drop spaces src) in
    let rest = drop (spaces + tabs) src in
    let comment = span (length rest) not_newline rest in
    let blank = not (at_least_one rest) || head_or_zero rest == 10 || head_or_zero rest == 35 in
    let ended = at_least_one (drop comment rest) in
    if blank
    then record {
      skip = spaces + tabs + comment + (if ended then 1 else 0);
      inside = false;
      outcome = done (if ended then record s { line = s.line + 1 } else s);
    }
    else record {
      skip = spaces + tabs;
      inside = true;
      outcome = change_indent (spaces + 4 * tabs) s;
    }

-- The first character again where no indent was before it, otherwise on behind the indent.
unfoldable pub begin_line : (skip : ℕ) → Outcome → Turn → (c : ℕ) → List ℕ → Turn
begin_line (suc k) o start c cs = record start { skip = k }
begin_line zero (done s) start c cs = step_inside c cs s
begin_line zero (failed s) start c cs = record { skip = 0; inside = true; outcome = failed s }
begin_line zero overrun start c cs = record { skip = 0; inside = true; outcome = overrun }

unfoldable pub step : (inside : Bool) (c : ℕ) → List ℕ → Lexer → Turn
step true c cs s = step_inside c cs s
step false c cs s = let start = step_start c cs s in begin_line start.skip start.outcome start c cs

-- The pass over the source, and what follows it.
unfoldable pub lex : (skip : ℕ) (inside : Bool) → List ℕ → Lexer → Outcome
lex skip true [] s = and_then (emit tok_newline 0 [] s) (λ s'. finish s'.indent_stack s')
lex skip false [] s = finish s.indent_stack s
lex (suc k) inside (c ∷ cs) s = lex k inside cs s
lex zero inside (c ∷ cs) s =
    let turn = step inside c cs s in and_then turn.outcome (λ s'. lex turn.skip turn.inside cs s')

unfoldable pub gk_lex : List ℕ → Outcome
gk_lex src =
    lex 0 false src (record { tokens = []; indent_stack = 0 ∷ []; line = 1; error = no_error })
