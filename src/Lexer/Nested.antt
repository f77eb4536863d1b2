-- ===== src/Lexer/Nested.antt =====
-- The nesting of blocks that every token keeps.
use gecko_os.Prelude.{
  ℕ, suc, ◌+◌, ◌≤◌, ◌≡◌, refl, ap, subst, Bool, true, false, not, ◌||◌, List, [], ◌∷◌, arith,
  length, ltb, leb, ◌==◌, if◌then◌else◌, leb_false→lt, ==_iff, ltb→lt,
}
use gecko_os.Lexer.{
  TokenType, tok_indent, tok_dedent, Token, Lexer, Outcome, done, failed, overrun, and_then, emit,
  dedents, indent_on, finish,
}

abbrev pub is_indent : TokenType → Bool
is_indent tok_indent = true
is_indent _ = false

abbrev pub is_dedent : TokenType → Bool
is_dedent tok_dedent = true
is_dedent _ = false

-- How many tokens of a list satisfy a test.
abbrev pub tally : (TokenType → Bool) → List Token → ℕ
tally p [] = 0
tally p (t ∷ ts) = if p t.type then suc (tally p ts) else tally p ts

-- The lowest indent of the stack is 0.
abbrev pub has_bottom : List ℕ → Bool
has_bottom [] = false
has_bottom (b ∷ []) = b == 0
has_bottom (a ∷ b ∷ stack) = has_bottom (b ∷ stack)

pub record IsNested (s : Lexer) : Type 0 where
  pub balance : tally is_indent s.tokens + 1 ≡ tally is_dedent s.tokens + length s.indent_stack
  pub bound : length s.tokens ≤ 2048
  pub bottom : has_bottom s.indent_stack ≡ true

-- As many blocks are closed as opened, in at most 2048 tokens.
abbrev pub IsBalanced : Lexer → Type 0
IsBalanced s = (tally is_indent s.tokens ≡ tally is_dedent s.tokens) × (length s.tokens ≤ 2048)

-- A property of the state where lexing goes on.
abbrev pub Good : (Lexer → Type 0) → Outcome → Type 0
Good P (done s) = P s
Good P (failed s) = Unit {0}
Good P overrun = Unit {0}

module _ (P : Lexer → Type 0) where
  pub and_then-Good :
      (Q : Lexer → Type 0) (o : Outcome) (f : Lexer → Outcome)
      → Good Q o
      → ((s : Lexer) → Q s → Good P (f s))
      → Good P (and_then o f)
  and_then-Good Q (done s) f g h = h s g
  and_then-Good Q (failed s) f g h = tt
  and_then-Good Q overrun f g h = tt

  pub if-Good :
      (b : Bool) (x y : Outcome)
      → (b ≡ true → Good P x)
      → (b ≡ false → Good P y)
      → Good P (if b then x else y)
  if-Good true x y hx hy = hx refl
  if-Good false x y hx hy = hy refl

-- The state is nested, with a given stack.
abbrev IsAt : List ℕ → Lexer → Type 0
IsAt stack s = IsNested s × (s.indent_stack ≡ stack)

apart : false ≡ true → ⊥
apart h = cc

neither : (a b : Bool) → not (a || b) ≡ true → (a ≡ false) × (b ≡ false)
neither true b h = cc
neither false true h = cc
neither false false h = (refl, refl)

abbrev pub is_plain : TokenType → Bool
is_plain t = not (is_indent t || is_dedent t)

pub plain_balance :
    (t : TokenType) (v : ℕ) (str : List ℕ) (s : Lexer)
    → is_plain t ≡ true
    → tally is_indent s.tokens + 1 ≡ tally is_dedent s.tokens + length s.indent_stack
    → tally is_indent (record { type = t; int_val = v; str_val = str; line = s.line } ∷ s.tokens)
        + 1
      ≡ tally is_dedent (record { type = t; int_val = v; str_val = str; line = s.line } ∷ s.tokens)
        + length s.indent_stack
plain_balance t v str s plain h =
    let (i, d) = neither (is_indent t) (is_dedent t) plain in rw (i, d) h

pub emit_plain :
    (t : TokenType) (v : ℕ) (str : List ℕ) (s : Lexer)
    → is_plain t ≡ true
    → IsNested s
    → Good IsNested (emit t v str s)
unfolding emit
emit_plain t v str s plain nested =
    if-Good IsNested (leb 2048 (length s.tokens)) _ _ (λ full. tt)
      (λ room. record {
        balance = plain_balance t v str s plain nested.balance;
        bound = leb_false→lt 2048 (length s.tokens) room;
        bottom = nested.bottom;
      })

emit_indent :
    (indent top : ℕ) (stack : List ℕ) (s : Lexer)
    → s.indent_stack ≡ top ∷ stack
    → IsNested s
    → Good IsNested (emit tok_indent 0 [] (record s { indent_stack = indent ∷ top ∷ stack }))
unfolding emit
emit_indent indent top stack s e nested =
    let h = nested.balance in
    let size : length s.indent_stack ≡ suc (length stack) = ap (λ l. length l) e in
    let low : has_bottom (top ∷ stack) ≡ true = subst (λ l. has_bottom l ≡ true) e nested.bottom in
    if-Good IsNested (leb 2048 (length s.tokens)) _ _ (λ full. tt)
      (λ room. record {
        balance = omega arith;
        bound = leb_false→lt 2048 (length s.tokens) room;
        bottom = low;
      })

emit_dedent :
    (top next : ℕ) (stack : List ℕ) (s : Lexer)
    → s.indent_stack ≡ top ∷ next ∷ stack
    → IsNested s
    → Good (IsAt (next ∷ stack)) (emit tok_dedent 0 [] (record s { indent_stack = next ∷ stack }))
unfolding emit
emit_dedent top next stack s e nested =
    let h = nested.balance in
    let size : length s.indent_stack ≡ suc (suc (length stack)) = ap (λ l. length l) e in
    let low : has_bottom (top ∷ next ∷ stack) ≡ true =
      subst (λ l. has_bottom l ≡ true) e nested.bottom in
    if-Good (IsAt (next ∷ stack)) (leb 2048 (length s.tokens)) _ _ (λ full. tt)
      (λ room. (
        record {
          balance = omega arith;
          bound = leb_false→lt 2048 (length s.tokens) room;
          bottom = low;
        },
        refl,
      ))

dedents-Good :
    (indent : ℕ) (stack : List ℕ) (s : Lexer)
    → s.indent_stack ≡ stack
    → IsNested s
    → Good IsNested (dedents indent stack s)
unfolding dedents
dedents-Good indent [] s e nested = nested
dedents-Good indent (top ∷ []) s e nested =
    let low : top ≡ 0 = (==_iff top 0).0 (subst (λ l. has_bottom l ≡ true) e nested.bottom) in
    if-Good IsNested (ltb indent top) _ _ (λ h. absurd (omega (arith, ltb→lt indent top h)))
      (λ h. nested)
dedents-Good indent (top ∷ next ∷ stack) s e nested =
    if-Good IsNested (ltb indent top) _ _
      (λ h.
        and_then-Good IsNested (IsAt (next ∷ stack))
          (emit tok_dedent 0 [] (record s { indent_stack = next ∷ stack }))
          (dedents indent (next ∷ stack)) (emit_dedent top next stack s e nested)
          (λ s' at. dedents-Good indent (next ∷ stack) s' at.1 at.0))
      (λ h. nested)

pub indent_on-Good :
    (indent : ℕ) (stack : List ℕ) (s : Lexer)
    → s.indent_stack ≡ stack
    → IsNested s
    → Good IsNested (indent_on indent stack s)
unfolding indent_on
indent_on-Good indent [] s e nested = nested
indent_on-Good indent (top ∷ stack) s e nested =
    if-Good IsNested (ltb top indent) _ _
      (λ deeper.
        if-Good IsNested (leb 64 (length (top ∷ stack))) _ _ (λ full. tt)
          (λ room. emit_indent indent top stack s e nested))
      (λ same. dedents-Good indent (top ∷ stack) s e nested)

pub finish-Good :
    (stack : List ℕ) (s : Lexer)
    → s.indent_stack ≡ stack
    → IsNested s
    → Good IsBalanced (finish stack s)
unfolding finish emit
finish-Good [] s e nested = absurd (apart (subst (λ l. has_bottom l ≡ true) e nested.bottom))
finish-Good (bottom ∷ []) s e nested =
    let h = nested.balance in
    let size : length s.indent_stack ≡ 1 = ap (λ l. length l) e in
    if-Good IsBalanced (leb 2048 (length s.tokens)) _ _ (λ full. tt)
      (λ room. (omega arith, leb_false→lt 2048 (length s.tokens) room))
finish-Good (top ∷ next ∷ stack) s e nested =
    and_then-Good IsBalanced (IsAt (next ∷ stack))
      (emit tok_dedent 0 [] (record s { indent_stack = next ∷ stack })) (finish (next ∷ stack))
      (emit_dedent top next stack s e nested) (λ s' at. finish-Good (next ∷ stack) s' at.1 at.0)
