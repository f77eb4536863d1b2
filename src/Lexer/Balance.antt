-- ===== src/Lexer/Balance.antt =====
-- Blocks are closed: the pass keeps the nesting, whatever the source.
use gecko_os.Prelude.{
  ℕ, zero, suc, ◌+◌, ◌*◌, ◌≤◌, ◌≡◌, refl, subst, Bool, true, false, not, ◌&&◌, ◌||◌, Option, none,
  some, List, [], ◌∷◌, arith, length, leb, ◌==◌, if◌then◌else◌, drop, leb_false→lt,
}
use gecko_os.Lexer.{
  TokenType, tok_newline, tok_int, tok_str, Lexer, Outcome, done, failed, overrun, regardless, emit,
  change_indent,
}
use gecko_os.Lexer.Scan.{
  Turn, double, single, operator_or, operator, begin_line, same_word, head_or_zero, is_space,
  is_digit, is_alpha, span, not_newline, at_least_one, word_type, keywords, step_inside, step_start,
  step, lex, gk_lex,
}
use gecko_os.Lexer.Nested.{
  is_indent, is_dedent, tally, IsNested, IsBalanced, Good, and_then-Good, is_plain, plain_balance,
  emit_plain, indent_on-Good, finish-Good,
}

abbrev plain_option : Option TokenType → Bool
plain_option none = true
plain_option (some t) = is_plain t

double_plain : (c next : ℕ) → plain_option (double c next) ≡ true
unfolding double
double_plain c next = ground arith

single_plain : (c : ℕ) → plain_option (single c) ≡ true
unfolding single
single_plain c = ground arith

abbrev plain_table : List (List ℕ × TokenType) → Bool
plain_table [] = true
plain_table (k ∷ ks) = is_plain k.1 && plain_table ks

both : (a b : Bool) → (a && b) ≡ true → (a ≡ true) × (b ≡ true)
both true true h = (refl, refl)
both true false h = cc
both false b h = cc

choice_plain :
    (b : Bool) (t u : TokenType)
    → is_plain t ≡ true
    → is_plain u ≡ true
    → is_plain (if b then t else u) ≡ true
choice_plain true t u ht hu = ht
choice_plain false t u ht hu = hu

word_type_plain :
    (ks : List (List ℕ × TokenType)) (word : List ℕ)
    → plain_table ks ≡ true
    → is_plain (word_type ks word) ≡ true
unfolding word_type
word_type_plain [] word h = refl
word_type_plain (k ∷ ks) word h =
    let (here, there) = both (is_plain k.1) (plain_table ks) h in
    choice_plain (same_word word k.0) k.1 (word_type ks word) here (word_type_plain ks word there)

record IsGoodTurn (t : Turn) : Type 0 where
  good : Good IsNested t.outcome

if-IsGoodTurn :
    (b : Bool) (x y : Turn) → IsGoodTurn x → IsGoodTurn y → IsGoodTurn (if b then x else y)
if-IsGoodTurn true x y hx hy = hx
if-IsGoodTurn false x y hx hy = hy

if_regardless-Good :
    (b : Bool) (x y : Outcome)
    → (b ≡ true → Good IsNested (regardless x))
    → (b ≡ false → Good IsNested (regardless y))
    → Good IsNested (regardless (if b then x else y))
if_regardless-Good true x y hx hy = hx refl
if_regardless-Good false x y hx hy = hy refl

regardless-Good :
    (t : TokenType) (s : Lexer)
    → is_plain t ≡ true
    → IsNested s
    → Good IsNested (regardless (emit t 0 [] s))
unfolding emit
regardless-Good t s plain nested =
    if_regardless-Good (leb 2048 (length s.tokens)) _ _
      (λ full. record { balance = nested.balance; bound = nested.bound; bottom = nested.bottom })
      (λ room. record {
        balance = plain_balance t 0 [] s plain nested.balance;
        bound = leb_false→lt 2048 (length s.tokens) room;
        bottom = nested.bottom;
      })

operator_or-Good :
    (skip : ℕ) (o : Option TokenType) (x : Turn) (s : Lexer)
    → plain_option o ≡ true
    → IsNested s
    → Good IsNested x.outcome
    → Good IsNested (operator_or skip o x s).outcome
unfolding operator_or
operator_or-Good skip none x s plain nested other = other
operator_or-Good skip (some t) x s plain nested other = regardless-Good t s plain nested

operator-Good :
    (c : ℕ) (cs : List ℕ) (s : Lexer) → IsNested s → Good IsNested (operator c cs s).outcome
unfolding operator
operator-Good c cs s nested =
    operator_or-Good 1 (double c (head_or_zero cs)) _ s (double_plain c (head_or_zero cs)) nested
      (operator_or-Good 0 (single c) _ s (single_plain c) nested tt)

next_line : (s : Lexer) → IsNested s → IsNested (record s { line = s.line + 1 })
next_line s nested = record {
  balance = nested.balance;
  bound = nested.bound;
  bottom = nested.bottom;
}

step_inside-IsGoodTurn :
    (c : ℕ) (cs : List ℕ) (s : Lexer) → IsNested s → IsGoodTurn (step_inside c cs s)
unfolding step_inside
step_inside-IsGoodTurn c cs s nested =
    if-IsGoodTurn (c == 10) _ _
      (record {
        good =
            and_then-Good IsNested IsNested (emit tok_newline 0 [] s)
              (λ s'. done (record s' { line = s'.line + 1 }))
              (emit_plain tok_newline 0 [] s refl nested) next_line;
      })
      (if-IsGoodTurn (is_space c) _ _ (record { good = nested })
        (if-IsGoodTurn (c == 35) _ _ (record { good = nested })
          (if-IsGoodTurn (is_digit c) _ _ (record { good = emit_plain tok_int _ [] s refl nested })
            (if-IsGoodTurn (c == 34 || c == 39) _ _
              (record { good = emit_plain tok_str 0 _ s refl nested })
              (if-IsGoodTurn (is_alpha c) _ _
                (record { good = emit_plain _ 0 _ s (word_type_plain keywords _ refl) nested })
                (record { good = operator-Good c cs s nested }))))))

either_line :
    (b : Bool) (s : Lexer) → IsNested s → IsNested (if b then record s { line = s.line + 1 } else s)
either_line true s nested = next_line s nested
either_line false s nested = nested

step_start-IsGoodTurn :
    (c : ℕ) (cs : List ℕ) (s : Lexer) → IsNested s → IsGoodTurn (step_start c cs s)
unfolding step_start change_indent
step_start-IsGoodTurn c cs s nested =
    let src = c ∷ cs in
    let spaces = span (length src) (λ b. b == 32) src in
    let tabs = span (length src) (λ b. b == 9) (drop spaces src) in
    let rest = drop (spaces + tabs) src in
    let comment = span (length rest) not_newline rest in
    if-IsGoodTurn (not (at_least_one rest) || head_or_zero rest == 10 || head_or_zero rest == 35) _
      _ (record { good = either_line (at_least_one (drop comment rest)) s nested })
      (record { good = indent_on-Good (spaces + 4 * tabs) s.indent_stack s refl nested })

begin_line-Good :
    (skip : ℕ) (o : Outcome) (start : Turn) (c : ℕ) (cs : List ℕ)
    → Good IsNested o
    → Good IsNested start.outcome
    → Good IsNested (begin_line skip o start c cs).outcome
unfolding begin_line
begin_line-Good (suc k) o start c cs good whole = whole
begin_line-Good zero (done s) start c cs good whole = (step_inside-IsGoodTurn c cs s good).good
begin_line-Good zero (failed s) start c cs good whole = tt
begin_line-Good zero overrun start c cs good whole = tt

step-Good :
    (inside : Bool) (c : ℕ) (cs : List ℕ) (s : Lexer)
    → IsNested s
    → Good IsNested (step inside c cs s).outcome
unfolding step
step-Good true c cs s nested = (step_inside-IsGoodTurn c cs s nested).good
step-Good false c cs s nested =
    let start = step_start c cs s in
    let good = (step_start-IsGoodTurn c cs s nested).good in
    begin_line-Good start.skip start.outcome start c cs good good

lex-Good :
    (skip : ℕ) (inside : Bool) (src : List ℕ) (s : Lexer)
    → IsNested s
    → Good IsBalanced (lex skip inside src s)
unfolding lex
lex-Good skip true [] s nested =
    and_then-Good IsBalanced IsNested (emit tok_newline 0 [] s) _
      (emit_plain tok_newline 0 [] s refl nested)
      (λ s' nested'. finish-Good s'.indent_stack s' refl nested')
lex-Good skip false [] s nested = finish-Good s.indent_stack s refl nested
lex-Good (suc k) inside (c ∷ cs) s nested = lex-Good k inside cs s nested
lex-Good zero inside (c ∷ cs) s nested =
    and_then-Good IsBalanced IsNested (step inside c cs s).outcome _
      (step-Good inside c cs s nested) (λ s' nested'. lex-Good _ _ cs s' nested')

gk_lex-Good : (src : List ℕ) → Good IsBalanced (gk_lex src)
unfolding gk_lex
gk_lex-Good src =
    lex-Good 0 false src _ (record { balance = refl; bound = omega arith; bottom = refl })

-- For every source that `gk_lex` accepts, its tokens have a DEDENT for each INDENT, and are at most
-- 2048.
pub gk_lex_balanced :
    (src : List ℕ) (s : Lexer)
    → gk_lex src ≡ done s
    → (tally is_indent s.tokens ≡ tally is_dedent s.tokens) × (length s.tokens ≤ 2048)
gk_lex_balanced src s h = subst (λ o. Good IsBalanced o) h (gk_lex-Good src)
