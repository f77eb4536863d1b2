-- ===== src/Parser/Nodes.antt =====
-- Lists of nodes whose children are nodes of the list.
use gecko_os.Prelude.{
  ℕ, zero, suc, ◌+◌, ◌≤◌, ◌<◌, ◌≡◌, sym, subst, List, [], ◌∷◌, ◌++◌, arith, length, set,
  length-append, length-set,
}
use gecko_os.Parser.{Node, gk_max_children}
use gecko_os.Parser.Run.{node_at}

abbrev pub AllBelow : ℕ → List ℕ → Type 0
AllBelow k [] = Unit {0}
AllBelow k (c ∷ cs) = (c < k) × AllBelow k cs

-- The node's children are nodes below `k`, and fit their array.
pub record IsNode (k : ℕ) (n : Node) : Type 0 where
  pub below : AllBelow k n.child
  pub few : length n.child ≤ gk_max_children

abbrev pub AllNodes : ℕ → List Node → Type 0
AllNodes k [] = Unit {0}
AllNodes k (n ∷ ns) = IsNode k n × AllNodes k ns

-- The tree's nodes fit their array, and refer to one another.
pub record IsSound (nodes : List Node) : Type 0 where
  pub bound : length nodes ≤ 2048
  pub linked : AllNodes (length nodes) nodes

AllBelow-le : (k l : ℕ) (cs : List ℕ) → k ≤ l → AllBelow k cs → AllBelow l cs
AllBelow-le k l [] h all = tt
AllBelow-le k l (c ∷ cs) h all = (omega (arith, all.0), AllBelow-le k l cs h all.1)

pub AllBelow-append : (k c : ℕ) (cs : List ℕ) → c < k → AllBelow k cs → AllBelow k (cs ++ (c ∷ []))
AllBelow-append k c [] h all = (h, tt)
AllBelow-append k c (d ∷ cs) h all = (all.0, AllBelow-append k c cs h all.1)

AllNodes-le : (k l : ℕ) (ns : List Node) → k ≤ l → AllNodes k ns → AllNodes l ns
AllNodes-le k l [] h all = tt
AllNodes-le k l (n ∷ ns) h all = (
  record { below = AllBelow-le k l n.child h all.0.below; few = all.0.few },
  AllNodes-le k l ns h all.1,
)

AllNodes-append :
    (k : ℕ) (n : Node) (ns : List Node) → IsNode k n → AllNodes k ns → AllNodes k (ns ++ (n ∷ []))
AllNodes-append k n [] new all = (new, tt)
AllNodes-append k n (m ∷ ns) new all = (all.0, AllNodes-append k n ns new all.1)

AllNodes-set :
    (k i : ℕ) (n : Node) (ns : List Node) → IsNode k n → AllNodes k ns → AllNodes k (set ns i n)
AllNodes-set k i n [] new all = tt
AllNodes-set k zero n (m ∷ ns) new all = (new, all.1)
AllNodes-set k (suc i) n (m ∷ ns) new all = (all.0, AllNodes-set k i n ns new all.1)

pub node_at-IsNode : (k i : ℕ) (ns : List Node) → AllNodes k ns → IsNode k (node_at ns i)
node_at-IsNode k i [] all = record { below = tt; few = omega arith }
node_at-IsNode k zero (n ∷ ns) all = all.0
node_at-IsNode k (suc i) (n ∷ ns) all = node_at-IsNode k i ns all.1

childless : (k : ℕ) (n : Node) → n.child ≡ [] → IsNode k n
childless k n e = record {
  below = subst (λ cs. AllBelow k cs) (sym e) tt;
  few = subst (λ cs. length cs ≤ gk_max_children) (sym e) (omega arith);
}

-- A new node with no children, and a node written again.
pub append-IsSound :
    (ns : List Node) (n : Node)
    → IsSound ns
    → length ns < 2048
    → n.child ≡ []
    → IsSound (ns ++ (n ∷ []))
append-IsSound ns n sound room e =
    let size = length-append ns (n ∷ []) in
    record {
      bound = omega (arith, size);
      linked =
          subst (λ k. AllNodes k (ns ++ (n ∷ []))) (sym size)
            (AllNodes-append (length ns + 1) n ns (childless (length ns + 1) n e)
              (AllNodes-le (length ns) (length ns + 1) ns (omega arith) sound.linked));
    }

pub set-IsSound :
    (ns : List Node) (i : ℕ) (n : Node) → IsSound ns → IsNode (length ns) n → IsSound (set ns i n)
set-IsSound ns i n sound new =
    let size = length-set ns i n in
    record {
      bound = omega (arith, size, sound.bound);
      linked =
          subst (λ k. AllNodes k (set ns i n)) (sym size)
            (AllNodes-set (length ns) i n ns new sound.linked);
    }
