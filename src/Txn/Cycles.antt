-- ===== src/Txn/Cycles.antt =====
-- The search for cycles of waiting transactions: `find_cycles` of crates/pg-txn/src/deadlock.rs. The
-- two stacks of the source, the nodes and the places in their lists of children, are one here: each
-- node with the children that remain, the top first. The loop runs on fuel.
pub mod Sound
pub mod Work
pub mod Order
pub mod Clean
pub mod Found
pub mod Tick
mod Examples
use ams.Common.{
  ℕ, zero, suc, ◌+◌, Option, none, some, List, [], ◌∷◌, ◌++◌, length, ◌==◌, if◌then◌else◌,
}
use ams.Common.Map.{Map, lookup, insert}
use ams.Common.Sort.{sort}
use ams.Txn.Deadlock.{Edges, Cycle}

-- `Vec::dedup`
unfoldable pub dedup : List ℕ → List ℕ
dedup [] = []
dedup (x ∷ []) = x ∷ []
dedup (x ∷ y ∷ xs) = let rest = dedup (y ∷ xs) in if x == y then rest else x ∷ rest

unfoldable pub targets : ℕ → Edges → List ℕ
targets v [] = []
targets v ((a, b) ∷ edges) = let rest = targets v edges in if a == v then b ∷ rest else rest

-- `adjacency`, sorted and without repetitions.
unfoldable pub children : Edges → ℕ → List ℕ
children edges v = dedup (sort (targets v edges))

unfoldable pub sources : Edges → List ℕ
sources [] = []
sources ((a, b) ∷ edges) = a ∷ sources edges

unfoldable pub nodes : Edges → List ℕ
nodes edges = dedup (sort (sources edges))

pub data Color : Type 0 where
  white : Color
  gray : Color
  black : Color

unfoldable pub color_of : ℕ → Map Color → Color
color_of v colors = elim (lookup v colors) [ none ↦ white | some c ↦ c ]

abbrev pub Stack : Type 0
Stack = List (ℕ × List ℕ)

pub record Search : Type 0 where
  pub color : Map Color
  pub path : Stack
  pub cycles : List Cycle

-- `path[pos..]` for the position of a node, from the top of the path down, before the nodes that
-- were passed; without a value the `expect` fails.
unfoldable pub cycle_from : ℕ → Stack → List ℕ → Option Cycle
cycle_from next [] passed = none
cycle_from next ((node, _) ∷ below) passed =
    let further = cycle_from next below (node ∷ passed) in
    if node == next then some (node, passed) else further

-- The next child of the node at the top of the path.
unfoldable pub visit : Edges → Search → ℕ → ℕ → List ℕ → Stack → Color → Option Search
visit edges s node next rest below gray = elim (cycle_from next ((node, rest) ∷ below) []) [
  | none ↦ none
  | some cycle ↦ some (record s { path = (node, rest) ∷ below; cycles = s.cycles ++ (cycle ∷ []) })
]
visit edges s node next rest below white = some (record s {
  color = insert next gray s.color;
  path = (next, children edges next) ∷ (node, rest) ∷ below;
})
visit edges s node next rest below black = some (record s { path = (node, rest) ∷ below })

-- One turn of the inner loop.
unfoldable pub turn : Edges → Search → Stack → Option Search
turn edges s [] = some s
turn edges s ((node, []) ∷ below) =
    some (record s { color = insert node black s.color; path = below })
turn edges s ((node, next ∷ rest) ∷ below) =
    visit edges s node next rest below (color_of next s.color)

-- `while let Some(&node) = path.last()`, given the path of the state.
unfoldable pub explore : ℕ → Edges → Search → Stack → Option Search
explore fuel edges s [] = some s
explore zero edges s (top ∷ below) = none
explore (suc fuel) edges s (top ∷ below) = elim (turn edges s (top ∷ below)) [
  | none ↦ none
  | some s' ↦ explore fuel edges s' s'.path
]

-- One turn of the outer loop.
unfoldable pub visit_start : ℕ → Edges → ℕ → Search → Option Search
visit_start fuel edges start s = elim (color_of start s.color) [
  | white ↦
      let path = (start, children edges start) ∷ [] in
      explore fuel edges (record s { color = insert start gray s.color; path = path }) path
  | _ ↦ some s
]

unfoldable pub visit_all : ℕ → Edges → List ℕ → Search → Option Search
visit_all fuel edges [] s = some s
visit_all fuel edges (start ∷ starts) s = elim (visit_start fuel edges start s) [
  | none ↦ none
  | some s' ↦ visit_all fuel edges starts s'
]

-- The ends of the edges, and the work that a list of nodes is: a turn for each child and one to
-- leave.
unfoldable pub vertices : Edges → List ℕ
vertices [] = []
vertices ((a, b) ∷ edges) = a ∷ b ∷ vertices edges

unfoldable pub white_work : Edges → Map Color → List ℕ → ℕ
white_work edges colors [] = 0
white_work edges colors (v ∷ vs) =
    let rest = white_work edges colors vs in
    elim (color_of v colors) [ white ↦ suc (length (children edges v)) + rest | _ ↦ rest ]

-- Without a value `find_cycles` would not return.
unfoldable pub find_cycles : Edges → Option (List Cycle)
find_cycles edges =
    elim (visit_all (white_work edges [] (vertices edges)) edges (nodes edges)
      (record { color = []; path = []; cycles = [] })) [ none ↦ none | some s ↦ some s.cycles ]
