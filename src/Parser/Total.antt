-- ===== src/Parser/Total.antt =====
-- What a whole run of the parser returns.
use gecko_os.Prelude.{ℕ, suc, ◌<◌, ◌≡◌, ◌≢◌, subst, true, List, [], arith, length}
use gecko_os.Lexer.{Token, tok_eof}
use gecko_os.Parser.{Parser, node_block, too_many_statements, is, front}
use gecko_os.Parser.Run.{Run, done, failed, overrun, out_of_fuel}
use gecko_os.Parser.Nodes.{IsSound}
use gecko_os.Parser.Ensures.{
  Ensures, returns, fails, overruns, bind, skip_newlines-Ensures, new_node-Ensures,
}
use gecko_os.Parser.Stmt.{parse_stmt, script, gk_parse}
use gecko_os.Parser.Stmt.Ends.{statements-Ensures}
use gecko_os.Parser.Stmt.Choice.{parse_stmt-Consumes}

abbrev pub IsTree : ℕ → Parser → Type 0
IsTree n s = (n < length s.nodes) × IsSound s.nodes × (is tok_eof (front s.rest).type ≡ true)

gk_parse-Ensures : (tokens : List Token) → Ensures IsTree (gk_parse tokens)
unfolding gk_parse script
gk_parse-Ensures tokens =
    let s : Parser = record { rest = tokens; nodes = [] } in
    let fuel = suc (suc (length tokens)) in
    bind (new_node-Ensures s (record { bound = omega arith; linked = tt }) node_block 0)
      λ root s1 (i1, m1). bind (skip_newlines-Ensures s1 m1.sound) λ u s2 m2.
        bind
          (statements-Ensures fuel (suc (length tokens)) (parse_stmt fuel) (is tok_eof)
            too_many_statements root (parse_stmt-Consumes (suc (length tokens))) s2 m2.sound
            (omega arith) (omega arith))
          λ u s3 (stop, m3). returns (omega arith, m3.sound, stop)

-- What `P` says of a run, by its result.
abbrev Holds : (ℕ → Parser → Type 0) → Run ℕ → Type 0
Holds P (done n s) = P n s
Holds P (failed e) = Unit {0}
Holds P overrun = Unit {0}
Holds P out_of_fuel = ⊥

Ensures-Holds : {P : ℕ → Parser → Type 0} {r : Run ℕ} → Ensures P r → Holds P r
Ensures-Holds (returns p) = p
Ensures-Holds fails = tt
Ensures-Holds overruns = tt

-- Parsing ends for every list of tokens: the fuel `gk_parse` starts with is never used up.
pub gk_parse-ends : (tokens : List Token) → gk_parse tokens ≢ out_of_fuel
gk_parse-ends tokens e = subst (Holds IsTree) e (Ensures-Holds (gk_parse-Ensures tokens))

-- When parsing a list of tokens returns a root, all tokens up to the end were read, the root is the index of a
-- node, there are at most 2048 nodes, and every node has at most 64 children, each the index of a node.
pub gk_parse-IsTree :
    (tokens : List Token) (n : ℕ) (s : Parser) → gk_parse tokens ≡ done n s → IsTree n s
gk_parse-IsTree tokens n s e = subst (Holds IsTree) e (Ensures-Holds (gk_parse-Ensures tokens))
