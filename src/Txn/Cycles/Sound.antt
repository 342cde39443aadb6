-- ===== src/Txn/Cycles/Sound.antt =====
-- Every cycle that `find_cycles` of crates/pg-txn/src/deadlock.rs reports is one, and its `expect`
-- never fails.
use ams.Common.{
  ℕ, ◌≡◌, refl, ap, ◌∙◌, inl, inr, true, some, List, [], ◌∷◌, ◌++◌, All, All-append, contains,
  arith, ◌==◌, Bool-cases, if◌then◌else◌,
}
use ams.Common.Map.{Map, insert, lookup-insert}
use ams.Common.Sort.{sort, contains-sort}
use ams.Txn.Deadlock.{Edges, Cycle, has_edge, still_there}
use ams.Txn.Cycles.{
  Stack, Search, Color, white, gray, black, color_of, dedup, targets, children, sources, nodes,
  cycle_from, visit, turn,
}

contains-dedup : (v : ℕ) (xs : List ℕ) → contains v (dedup xs) ≡ contains v xs
unfolding dedup
contains-dedup v [] = refl
contains-dedup v (x ∷ []) = refl
contains-dedup v (x ∷ y ∷ xs) = ground (arith, contains-dedup v (y ∷ xs))

contains-targets : (u v : ℕ) (edges : Edges) → contains v (targets u edges) ≡ has_edge u v edges
unfolding targets has_edge
contains-targets u v [] = refl
contains-targets u v ((a, b) ∷ edges) = ground (arith, contains-targets u v edges)

-- The children of a node are the ends of its edges.
pub contains-children :
    (edges : Edges) (u v : ℕ) → contains v (children edges u) ≡ has_edge u v edges
unfolding children
contains-children edges u v =
    contains-dedup v (sort (targets u edges))
    ∙ contains-sort v (targets u edges)
    ∙ contains-targets u v edges

pub contains-nodes : (edges : Edges) (v : ℕ) → contains v (nodes edges) ≡ contains v (sources edges)
unfolding nodes
contains-nodes edges v = contains-dedup v (sort (sources edges)) ∙ contains-sort v (sources edges)

abbrev pub HasChildren : Edges → ℕ → List ℕ → Type 0
HasChildren edges u rest = All (λ c. has_edge u c edges ≡ true) rest

all-children :
    (edges : Edges) (u : ℕ) (xs : List ℕ)
    → ((v : ℕ) → contains v xs ≡ true → has_edge u v edges ≡ true)
    → HasChildren edges u xs
all-children edges u [] h = tt
all-children edges u (x ∷ xs) h =
    (h x (ground arith), all-children edges u xs (λ v e. h v (ground arith)))

pub children-HasChildren : (edges : Edges) (u : ℕ) → HasChildren edges u (children edges u)
children-HasChildren edges u =
    all-children edges u (children edges u) (λ v h. ground (arith, contains-children edges u v, h))

-- A path whose steps are edges, each node with some of its children.
abbrev pub IsLinked : Edges → ℕ → Stack → Type 0
IsLinked edges u [] = Unit
IsLinked edges u ((v, _) ∷ below) = has_edge v u edges ≡ true

abbrev pub IsChain : Edges → Stack → Type 0
IsChain edges [] = Unit
IsChain edges ((u, rest) ∷ below) =
    HasChildren edges u rest × IsLinked edges u below × IsChain edges below

abbrev pub path_nodes : Stack → List ℕ
path_nodes [] = []
path_nodes ((u, _) ∷ below) = u ∷ path_nodes below

abbrev pub IsCycle : Edges → Cycle → Type 0
IsCycle edges c = still_there c.0 c.0 c.1 edges ≡ true

-- The part of the path from a node on it closes to a cycle.
cycle_from_lem :
    (edges : Edges) (next top : ℕ) (rest : List ℕ) (below : Stack) (passed : List ℕ)
    → contains next (path_nodes ((top, rest) ∷ below)) ≡ true
    → IsChain edges ((top, rest) ∷ below)
    → still_there next top passed edges ≡ true
    → (c : Cycle) × (cycle_from next ((top, rest) ∷ below) passed ≡ some c)
      × (still_there c.0 c.0 c.1 edges ≡ true)
unfolding cycle_from still_there
cycle_from_lem edges next top rest [] passed on chain closes =
    let same : top ≡ next = ground (arith, on) in
    ((top, passed), ground (arith, on), rw same (rw same at closes))
cycle_from_lem edges next top rest ((v, others) ∷ below) passed on chain closes =
    elim (Bool-cases (top == next)) [
      | inl here ↦
          let same : top ≡ next = ground (arith, here) in
          ((top, passed), ground (arith, here), rw same (rw same at closes))
      | inr off ↦
          let (c, found, closed) =
            cycle_from_lem edges next v others below (top ∷ passed) (ground (arith, on, off))
              chain.2 (ground (arith, chain.1, closes)) in
          (c, ground (arith, off, found), closed)
    ]

-- What the search keeps: its path is one in the graph, the gray nodes are on it, and the cycles that
-- were reported are cycles.
pub record IsSearch (edges : Edges) (s : Search) : Type 0 where
  pub chain : IsChain edges s.path
  pub gray_on_path : (v : ℕ) → color_of v s.color ≡ gray → contains v (path_nodes s.path) ≡ true
  pub reported : All (IsCycle edges) s.cycles

pub color_of-insert :
    (k v : ℕ) (c : Color) (m : Map Color)
    → color_of v (insert k c m) ≡ (if k == v then c else color_of v m)
unfolding color_of
color_of-insert k v c m = ground (arith, lookup-insert k v c m)

-- A turn of the loop never fails and keeps all that.
visit-IsSearch :
    (edges : Edges) (s : Search) (node next : ℕ) (rest : List ℕ) (below : Stack) (c : Color)
    → IsSearch edges s
    → s.path ≡ (node, next ∷ rest) ∷ below
    → color_of next s.color ≡ c
    → (s' : Search) × (visit edges s node next rest below c ≡ some s') × IsSearch edges s'
unfolding visit still_there
visit-IsSearch edges s node next rest below gray inv e color =
    let chain : IsChain edges ((node, next ∷ rest) ∷ below) = rw e at inv.chain in
    let on : contains next (path_nodes ((node, rest) ∷ below)) ≡ true =
      rw e at (inv.gray_on_path next color) in
    let (cycle, found, closed) =
      cycle_from_lem edges next node rest below [] on (chain.0.1, chain.1, chain.2) chain.0.0 in
    (
      record s { path = (node, rest) ∷ below; cycles = s.cycles ++ (cycle ∷ []) },
      rw (visit, found) refl,
      record {
        chain = (chain.0.1, chain.1, chain.2);
        gray_on_path = λ v g. rw e at (inv.gray_on_path v g);
        reported = All-append (IsCycle edges) s.cycles (cycle ∷ []) inv.reported (closed, tt);
      },
    )
visit-IsSearch edges s node next rest below white inv e color =
    let chain : IsChain edges ((node, next ∷ rest) ∷ below) = rw e at inv.chain in
    (
      record s {
        color = insert next gray s.color;
        path = (next, children edges next) ∷ (node, rest) ∷ below;
      },
      refl,
      record {
        chain = (children-HasChildren edges next, chain.0.0, (chain.0.1, chain.1, chain.2));
        gray_on_path = λ v g. ground (
          arith,
          g,
          color_of-insert next v gray s.color,
          inv.gray_on_path v,
          ap (λ (p : Stack). contains v (path_nodes p)) e,
        );
        reported = inv.reported;
      },
    )
visit-IsSearch edges s node next rest below black inv e color =
    let chain : IsChain edges ((node, next ∷ rest) ∷ below) = rw e at inv.chain in
    (
      record s { path = (node, rest) ∷ below },
      refl,
      record {
        chain = (chain.0.1, chain.1, chain.2);
        gray_on_path = λ v g. rw e at (inv.gray_on_path v g);
        reported = inv.reported;
      },
    )

pub turn-IsSearch :
    (edges : Edges) (s : Search) (path : Stack)
    → IsSearch edges s
    → s.path ≡ path
    → (s' : Search) × (turn edges s path ≡ some s') × IsSearch edges s'
unfolding turn
turn-IsSearch edges s [] inv e = (s, refl, inv)
turn-IsSearch edges s ((node, []) ∷ below) inv e =
    let chain : IsChain edges ((node, []) ∷ below) = rw e at inv.chain in
    (
      record s { color = insert node black s.color; path = below },
      refl,
      record {
        chain = chain.2;
        gray_on_path = λ v g. ground (
          arith,
          g,
          color_of-insert node v black s.color,
          inv.gray_on_path v,
          ap (λ (p : Stack). contains v (path_nodes p)) e,
        );
        reported = inv.reported;
      },
    )
turn-IsSearch edges s ((node, next ∷ rest) ∷ below) inv e =
    visit-IsSearch edges s node next rest below (color_of next s.color) inv e refl
