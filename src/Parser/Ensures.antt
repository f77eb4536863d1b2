-- ===== src/Parser/Ensures.antt =====
-- Postconditions of commands: enough fuel, and a property of what is returned.
use gecko_os.Prelude.{
  ℕ, ◌≤◌, ◌<◌, ◌≡◌, refl, Bool, true, false, Option, List, [], ◌∷◌, arith, length, leb, Bool-cases,
  inl, inr, length-append, length-set, leb_false→lt, set,
}
use gecko_os.Lexer.{TokenType, Token, tok_eof}
use gecko_os.Parser.{Parser, Node, NodeType, ParseError, is, front, passed, past_newlines}
use gecko_os.Parser.Run.{
  Run, done, failed, overrun, Cmd, and_then, branch, peek, advance, check, match_token, expect,
  skip_newlines, new_node, set_value, set_children, add_child, push_child, node_at, fresh,
  with_child,
}
use gecko_os.Parser.Nodes.{
  AllBelow, AllBelow-append, IsNode, IsSound, node_at-IsNode, append-IsSound, set-IsSound,
}

pub data Ensures {A : Type 0} (P : A → Parser → Type 0) : Run A → Type 0 where
  returns : {a : A} {s : Parser} → P a s → Ensures P (done a s)
  fails : {e : ParseError} → Ensures P (failed e)
  overruns : Ensures P overrun

module _ {A : Type 0} {P : A → Parser → Type 0} where
  pub bind :
      {B : Type 0} {Q : B → Parser → Type 0} {r : Run A} {k : A → Cmd B}
      → Ensures P r
      → ((a : A) (s : Parser) → P a s → Ensures Q (k a s))
      → Ensures Q (and_then r k)
  unfolding and_then
  bind (returns p) next = next _ _ p
  bind fails next = fails
  bind overruns next = overruns

  pub mono :
      {Q : A → Parser → Type 0} {r : Run A}
      → Ensures P r
      → ((a : A) (s : Parser) → P a s → Q a s)
      → Ensures Q r
  mono (returns p) weaken = returns (weaken _ _ p)
  mono fails weaken = fails
  mono overruns weaken = overruns

  pub branch-Ensures :
      (b : Bool) (x y : Cmd A) (s : Parser)
      → (b ≡ true → Ensures P (x s))
      → (b ≡ false → Ensures P (y s))
      → Ensures P (branch b x y s)
  unfolding branch
  branch-Ensures true x y s hx hy = hx refl
  branch-Ensures false x y s hx hy = hy refl

-- The tokens are no more than `r`, the nodes no fewer than `k`, and sound.
pub record Kept (r k : ℕ) (s : Parser) : Type 0 where
  pub left : length s.rest ≤ r
  pub more : k ≤ length s.nodes
  pub sound : IsSound s.nodes

-- The same with fewer tokens than `r`.
pub record Moved (r k : ℕ) (s : Parser) : Type 0 where
  pub left : length s.rest < r
  pub more : k ≤ length s.nodes
  pub sound : IsSound s.nodes

pub keep :
    {r k : ℕ} {s : Parser} → length s.rest ≤ r → k ≤ length s.nodes → IsSound s.nodes → Kept r k s
keep left more sound = record { left = left; more = more; sound = sound }

pub move :
    {r k : ℕ} {s : Parser} → length s.rest < r → k ≤ length s.nodes → IsSound s.nodes → Moved r k s
move left more sound = record { left = left; more = more; sound = sound }

-- A node was returned as well.
abbrev pub Made : ℕ → ℕ → ℕ → Parser → Type 0
Made r k n s = (n < length s.nodes) × Moved r k s

abbrev pub Placed : ℕ → ℕ → ℕ → Parser → Type 0
Placed r k n s = (n < length s.nodes) × Kept r k s

passed-le : (ts : List Token) → length (passed ts) ≤ length ts
unfolding passed
passed-le [] = omega arith
passed-le (t ∷ ts) = ground arith

passed-lt :
    (w : TokenType) (ts : List Token)
    → is w (front ts).type ≡ true
    → is tok_eof w ≡ false
    → length (passed ts) < length ts
unfolding passed
passed-lt w [] h e = absurd (ground arith)
passed-lt w (t ∷ ts) h e = ground arith

past_newlines-le : (ts : List Token) → length (past_newlines ts) ≤ length ts
unfolding past_newlines
past_newlines-le [] = omega arith
past_newlines-le (t ∷ ts) = ground (arith, past_newlines-le ts)

module _ {B : Type 0} {Q : B → Parser → Type 0} (s : Parser) where
  pub peek-Ensures :
      (k : Token → Cmd B) → Ensures Q (k (front s.rest) s) → Ensures Q (and_then (peek s) k)
  unfolding and_then peek
  peek-Ensures k h = h

  pub check-Ensures :
      (k : Bool → Cmd B) (t : TokenType)
      → Ensures Q (k (is t (front s.rest).type) s)
      → Ensures Q (and_then (check t s) k)
  unfolding and_then check
  check-Ensures k t h = h

-- The commands that read tokens.
module _ (s : Parser) (sound : IsSound s.nodes) where
  pub advance-Ensures :
      (w : TokenType)
      → is w (front s.rest).type ≡ true
      → is tok_eof w ≡ false
      → Ensures (λ u. Moved (length s.rest) (length s.nodes)) (advance s)
  unfolding advance
  advance-Ensures w h e =
      returns (record { left = passed-lt w s.rest h e; more = omega arith; sound = sound })

  pub advance_again-Ensures : Ensures (λ u. Kept (length s.rest) (length s.nodes)) (advance s)
  unfolding advance
  advance_again-Ensures =
      returns (record { left = passed-le s.rest; more = omega arith; sound = sound })

  pub match_token-Ensures :
      (t : TokenType) → Ensures (λ b. Kept (length s.rest) (length s.nodes)) (match_token t s)
  unfolding match_token
  match_token-Ensures t = elim (Bool-cases (is t (front s.rest).type)) [
    | inl yes_it ↦
        rw yes_it (returns (record { left = passed-le s.rest; more = omega arith; sound = sound }))
    | inr no_it ↦
        rw no_it (returns (record { left = omega arith; more = omega arith; sound = sound }))
  ]

  pub expect-Ensures :
      (t : TokenType) (e : ParseError)
      → is tok_eof t ≡ false
      → Ensures (λ u. Moved (length s.rest) (length s.nodes)) (expect t e s)
  unfolding expect
  expect-Ensures t e plain = elim (Bool-cases (is t (front s.rest).type)) [
    | inl yes_it ↦ rw yes_it (
        returns
          (record { left = passed-lt t s.rest yes_it plain; more = omega arith; sound = sound }))
    | inr no_it ↦ rw no_it fails
  ]

  pub skip_newlines-Ensures : Ensures (λ u. Kept (length s.rest) (length s.nodes)) (skip_newlines s)
  unfolding skip_newlines
  skip_newlines-Ensures =
      returns (record { left = past_newlines-le s.rest; more = omega arith; sound = sound })

  -- The commands that write nodes.
  pub new_node-Ensures :
      (t : NodeType) (line : ℕ)
      → Ensures (Placed (length s.rest) (length s.nodes)) (new_node t line s)
  unfolding new_node
  new_node-Ensures t line = elim (Bool-cases (leb 2048 (length s.nodes))) [
    | inl full ↦ rw full fails
    | inr room ↦
        let size = length-append s.nodes (fresh t line ∷ []) in
        rw room (
          returns (
            omega (arith, size),
            record {
              left = omega arith;
              more = omega (arith, size);
              sound =
                  append-IsSound s.nodes (fresh t line) sound
                    (leb_false→lt 2048 (length s.nodes) room) refl;
            },
          ))
  ]

  rewrite_node :
      (n : ℕ) (m : Node)
      → IsNode (length s.nodes) m
      → Kept (length s.rest) (length s.nodes) (record s { nodes = set s.nodes n m })
  rewrite_node n m new = record {
    left = omega arith;
    more = omega (arith, length-set s.nodes n m);
    sound = set-IsSound s.nodes n m sound new;
  }

  pub set_value-Ensures :
      (n v : ℕ) (str : List ℕ)
      → Ensures (λ u. Kept (length s.rest) (length s.nodes)) (set_value n v str s)
  unfolding set_value
  set_value-Ensures n v str =
      let old = node_at-IsNode (length s.nodes) n s.nodes sound.linked in
      returns (rewrite_node n _ (record { below = old.below; few = old.few }))

  pub set_children-Ensures :
      (n : ℕ) (op : Option TokenType) (cs : List ℕ)
      → AllBelow (length s.nodes) cs
      → length cs ≤ 64
      → Ensures (λ u. Kept (length s.rest) (length s.nodes)) (set_children n op cs s)
  unfolding set_children
  set_children-Ensures n op cs below few =
      returns (rewrite_node n _ (record { below = below; few = few }))

  with_child-Kept :
      (n c : ℕ)
      → c < length s.nodes
      → leb 64 (length (node_at s.nodes n).child) ≡ false
      → Kept (length s.rest) (length s.nodes) (record s { nodes = with_child c s.nodes n })
  with_child-Kept n c h room =
      let old = node_at-IsNode (length s.nodes) n s.nodes sound.linked in
      rewrite_node n _ (record {
        below = AllBelow-append (length s.nodes) c (node_at s.nodes n).child h old.below;
        few = omega (
          arith,
          length-append (node_at s.nodes n).child (c ∷ []),
          leb_false→lt 64 (length (node_at s.nodes n).child) room,
        );
      })

  pub add_child-Ensures :
      (e : ParseError) (n c : ℕ)
      → c < length s.nodes
      → Ensures (λ u. Kept (length s.rest) (length s.nodes)) (add_child e n c s)
  unfolding add_child
  add_child-Ensures e n c h = elim (Bool-cases (leb 64 (length (node_at s.nodes n).child))) [
    | inl full ↦ rw full fails
    | inr room ↦ rw room (returns (with_child-Kept n c h room))
  ]

  pub push_child-Ensures :
      (n c : ℕ)
      → c < length s.nodes
      → Ensures (λ u. Kept (length s.rest) (length s.nodes)) (push_child n c s)
  unfolding push_child
  push_child-Ensures n c h = elim (Bool-cases (leb 64 (length (node_at s.nodes n).child))) [
    | inl full ↦ rw full overruns
    | inr room ↦ rw room (returns (with_child-Kept n c h room))
  ]
