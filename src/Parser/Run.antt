-- ===== src/Parser/Run.antt =====
-- Commands of the parser: they read tokens, make nodes, and may fail.
use gecko_os.Prelude.{
  ℕ, Bool, true, false, Option, none, List, [], ◌∷◌, ◌++◌, length, leb, if◌then◌else◌, set, get_or,
}
use gecko_os.Lexer.{TokenType, Token}
use gecko_os.Parser.{
  Parser, Node, NodeType, node_int, ParseError, too_many_nodes, gk_max_nodes, gk_max_children, is,
  front, passed, past_newlines,
}

pub data Run (A : Type 0) : Type 0 where
  done : A → Parser → Run A
  failed : ParseError → Run A
  overrun : Run A
  out_of_fuel : Run A

abbrev pub Cmd : Type 0 → Type 0
Cmd A = Parser → Run A

abbrev pub pure : {A : Type 0} → A → Cmd A
pure = done

abbrev pub fail : {A : Type 0} → ParseError → Cmd A
fail e s = failed e

module _ {A B : Type 0} where
  unfoldable pub and_then : Run A → (A → Cmd B) → Run B
  and_then (done a s) k = k a s
  and_then (failed e) k = failed e
  and_then overrun k = overrun
  and_then out_of_fuel k = out_of_fuel

  infixl 5 ◌>>=◌ ◌>>◌
  abbrev pub ◌>>=◌ : Cmd A → (A → Cmd B) → Cmd B
  m >>= k = λ s. and_then (m s) k

  abbrev pub ◌>>◌ : Cmd A → Cmd B → Cmd B
  m >> n = m >>= λ _. n

unfoldable pub branch : {A : Type 0} → Bool → Cmd A → Cmd A → Cmd A
branch true x y s = x s
branch false x y s = y s

unfoldable pub peek : Cmd Token
peek s = done (front s.rest) s

unfoldable pub advance : Cmd (Unit {0})
advance s = done tt (record s { rest = passed s.rest })

unfoldable pub check : TokenType → Cmd Bool
check t s = done (is t (front s.rest).type) s

unfoldable pub match_token : TokenType → Cmd Bool
match_token t s =
    if is t (front s.rest).type then done true (record s { rest = passed s.rest }) else done false s

unfoldable pub expect : TokenType → ParseError → Cmd (Unit {0})
expect t e s =
    if is t (front s.rest).type then done tt (record s { rest = passed s.rest }) else failed e

unfoldable pub skip_newlines : Cmd (Unit {0})
skip_newlines s = done tt (record s { rest = past_newlines s.rest })

abbrev pub fresh : NodeType → (line : ℕ) → Node
fresh t line = record { type = t; line = line; int_val = 0; str_val = []; op = none; child = [] }

-- The index of the new node.
unfoldable pub new_node : NodeType → (line : ℕ) → Cmd ℕ
new_node t line s =
    if leb gk_max_nodes (length s.nodes)
    then failed too_many_nodes
    else done (length s.nodes) (record s { nodes = s.nodes ++ (fresh t line ∷ []) })

abbrev pub node_at : List Node → ℕ → Node
node_at nodes n = get_or nodes n (fresh node_int 0)

-- `nodes[n].int_val = v`, `strcpy_s(nodes[n].str_val, str)`
unfoldable pub set_value : (n v : ℕ) (str : List ℕ) → Cmd (Unit {0})
set_value n v str s =
    done tt (record s {
      nodes = set s.nodes n (record (node_at s.nodes n) { int_val = v; str_val = str });
    })

-- `nodes[n].op = op`, and the children from 0 on with their number.
unfoldable pub set_children : (n : ℕ) → Option TokenType → List ℕ → Cmd (Unit {0})
set_children n op children s =
    done tt (record s {
      nodes = set s.nodes n (record (node_at s.nodes n) { op = op; child = children });
    })

abbrev pub with_child : ℕ → List Node → ℕ → List Node
with_child c nodes n =
    set nodes n (record (node_at nodes n) { child = (node_at nodes n).child ++ (c ∷ []) })

-- `nodes[n].child[nodes[n].n_children++] = c`, behind the test of the bound.
unfoldable pub add_child : ParseError → (n c : ℕ) → Cmd (Unit {0})
add_child e n c s =
    if leb gk_max_children (length (node_at s.nodes n).child)
    then failed e
    else done tt (record s { nodes = with_child c s.nodes n })

-- The same with no test.
unfoldable pub push_child : (n c : ℕ) → Cmd (Unit {0})
push_child n c s =
    if leb gk_max_children (length (node_at s.nodes n).child)
    then overrun
    else done tt (record s { nodes = with_child c s.nodes n })
