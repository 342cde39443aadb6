-- ===== src/Txn/Cycles/Work.antt =====
-- The loops of `find_cycles` of crates/pg-txn/src/deadlock.rs end: every turn takes from the work
-- that the nodes which were not visited, and the path, still are.
use ams.Common.{
  ℕ, zero, suc, ◌+◌, ◌≤◌, ◌<◌, ◌≡◌, refl, ap, ◌∙◌, ◌⊎◌, inl, inr, true, false, some, List, [], ◌∷◌,
  length, All, contains, arith, ◌==◌, Bool-cases, Option-cases,
}
use ams.Common.Map.{Map, insert}
use ams.Txn.Deadlock.{Edges, Cycle, has_edge, still_there}
use ams.Txn.Cycles.{
  Stack, Search, Color, white, gray, black, color_of, cycle_from, children, sources, nodes, visit,
  turn, explore, visit_start, visit_all, vertices, white_work, find_cycles,
}
use ams.Txn.Cycles.Sound.{
  IsChain, path_nodes, IsSearch, children-HasChildren, color_of-insert, contains-nodes,
  turn-IsSearch,
}

abbrev pub path_work : Stack → ℕ
path_work [] = 0
path_work ((u, rest) ∷ below) = suc (length rest) + path_work below

abbrev pub work : Edges → Search → ℕ
work edges s = white_work edges s.color (vertices edges) + path_work s.path

has_edge-vertices :
    (u v : ℕ) (edges : Edges) → has_edge u v edges ≡ true → contains v (vertices edges) ≡ true
unfolding has_edge vertices
has_edge-vertices u v [] h = cc
has_edge-vertices u v ((a, b) ∷ edges) h = ground (arith, has_edge-vertices u v edges, h)

contains-sources-vertices :
    (v : ℕ) (edges : Edges) → contains v (sources edges) ≡ true → contains v (vertices edges) ≡ true
unfolding sources vertices
contains-sources-vertices v [] h = cc
contains-sources-vertices v ((a, b) ∷ edges) h =
    ground (arith, contains-sources-vertices v edges, h)

-- Coloring a node never adds work, and takes away its own work if it was white.
module _ (edges : Edges) (colors : Map Color) (v : ℕ) (c : Color)
    (dark : (c ≡ gray) ⊎ (c ≡ black)) where
  white_work-insert-le :
      (vs : List ℕ) → white_work edges (insert v c colors) vs ≤ white_work edges colors vs
  unfolding white_work
  white_work-insert-le [] = omega arith
  white_work-insert-le (w ∷ vs) =
      ground (arith, color_of-insert v w c colors, white_work-insert-le vs)

  white_work-insert :
      (vs : List ℕ)
      → contains v vs ≡ true
      → color_of v colors ≡ white
      → white_work edges (insert v c colors) vs + suc (length (children edges v))
        ≤ white_work edges colors vs
  unfolding white_work
  white_work-insert [] h was = cc
  white_work-insert (w ∷ vs) h was = elim (Bool-cases (v == w)) [
    | inl same ↦
        let here : v ≡ w = ground (arith, same) in
        rw here (
          ground (
            arith,
            color_of-insert v w c colors,
            white_work-insert-le vs,
            here,
            ap (λ (x : ℕ). color_of x colors) here,
          ))
    | inr other ↦ ground (
      arith,
      other,
      color_of-insert v w c colors,
      white_work-insert vs (ground (arith, other, h)) was,
    )
  ]

visit-work :
    (edges : Edges) (s s' : Search) (node next : ℕ) (rest : List ℕ) (below : Stack) (c : Color)
    → has_edge node next edges ≡ true
    → color_of next s.color ≡ c
    → visit edges s node next rest below c ≡ some s'
    → work edges s'
      < white_work edges s.color (vertices edges) + path_work ((node, next ∷ rest) ∷ below)
unfolding visit
visit-work edges s s' node next rest below gray edge color h =
    elim (Option-cases (cycle_from next ((node, rest) ∷ below) [])) [
      | inl e ↦ absurd (ground arith)
      | inr (c, e) ↦ ground (arith, e)
    ]
visit-work edges s s' node next rest below white edge color h =
    let less =
      white_work-insert edges s.color next gray (inl refl) (vertices edges)
        (has_edge-vertices node next edges edge) color in
    ground (arith, less)
visit-work edges s s' node next rest below black edge color h = ground arith

turn-work :
    (edges : Edges) (s s' : Search) (top : ℕ × List ℕ) (below : Stack)
    → IsSearch edges s
    → s.path ≡ top ∷ below
    → turn edges s (top ∷ below) ≡ some s'
    → work edges s' < work edges s
unfolding turn
turn-work edges s s' (node, []) below inv e h =
    let size : path_work s.path ≡ suc (path_work below) =
      ap (λ (p : Stack). path_work p) e ∙ omega arith in
    let less = white_work-insert-le edges s.color node black (inr refl) (vertices edges) in
    ground (arith, size, less)
turn-work edges s s' (node, next ∷ rest) below inv e h =
    let chain : IsChain edges ((node, next ∷ rest) ∷ below) = rw e at inv.chain in
    let size : path_work s.path ≡ path_work ((node, next ∷ rest) ∷ below) =
      ap (λ (p : Stack). path_work p) e in
    omega (
      arith,
      size,
      visit-work edges s s' node next rest below (color_of next s.color) chain.0.0 refl h,
    )

-- With as much fuel as there is work the inner loop ends, with an empty path.
pub explore_ends :
    (fuel : ℕ) (edges : Edges) (s : Search) (path : Stack)
    → IsSearch edges s
    → s.path ≡ path
    → work edges s ≤ fuel
    → (s' : Search) × (explore fuel edges s path ≡ some s')
      × IsSearch edges s'
      × (s'.path ≡ [])
      × (work edges s' ≤ work edges s)
unfolding explore
explore_ends fuel edges s [] inv e enough = (s, refl, inv, e, omega arith)
explore_ends zero edges s ((u, rest) ∷ below) inv e enough =
    let size : path_work s.path ≡ suc (length rest) + path_work below =
      ap (λ (p : Stack). path_work p) e in
    absurd (omega (arith, size))
explore_ends (suc fuel) edges s (top ∷ below) inv e enough =
    let (s1, step, inv1) = turn-IsSearch edges s (top ∷ below) inv e in
    let less = turn-work edges s s1 top below inv e step in
    let (s2, rest, inv2, done, left) =
      explore_ends fuel edges s1 s1.path inv1 refl (omega (arith, less)) in
    (s2, rw (explore, step) rest, inv2, done, omega (arith, less, left))

-- Between two turns of the outer loop the path is empty, and no work was added.
pub record IsIdle (edges : Edges) (bound : ℕ) (s : Search) : Type 0 where
  pub inv : IsSearch edges s
  pub empty : s.path ≡ []
  pub within : work edges s ≤ bound

pub visit_start-IsIdle :
    (bound : ℕ) (edges : Edges) (start : ℕ) (s : Search)
    → contains start (vertices edges) ≡ true
    → IsIdle edges bound s
    → (s' : Search) × (visit_start bound edges start s ≡ some s') × IsIdle edges bound s'
unfolding visit_start
visit_start-IsIdle bound edges start s known idle = go (color_of start s.color) refl
  where
    go :
        (c : Color)
        → color_of start s.color ≡ c
        → (s' : Search) × (visit_start bound edges start s ≡ some s') × IsIdle edges bound s'
    go white e =
        let path : Stack = (start, children edges start) ∷ [] in
        let s1 : Search = record s { color = insert start gray s.color; path = path } in
        let before : path_work s.path ≡ 0 = ap (λ (p : Stack). path_work p) idle.empty in
        let none_gray : (v : ℕ) → contains v (path_nodes s.path) ≡ false =
          λ v. ap (λ (p : Stack). contains v (path_nodes p)) idle.empty in
        let less = white_work-insert edges s.color start gray (inl refl) (vertices edges) known e in
        let inv1 : IsSearch edges s1 = record {
          chain = (children-HasChildren edges start, tt, tt);
          gray_on_path = λ v g. ground (
            arith,
            g,
            color_of-insert start v gray s.color,
            idle.inv.gray_on_path v,
            none_gray v,
          );
          reported = idle.inv.reported;
        } in
        let (s2, ended, inv2, done, left) =
          explore_ends bound edges s1 path inv1 refl (omega (arith, less, idle.within, before)) in
        (
          s2,
          rw (visit_start, e) ended,
          record {
            inv = inv2;
            empty = done;
            within = omega (arith, left, less, idle.within, before);
          },
        )
    go gray e = (s, rw (visit_start, e) refl, idle)
    go black e = (s, rw (visit_start, e) refl, idle)

visit_all-IsIdle :
    (bound : ℕ) (edges : Edges) (starts : List ℕ) (s : Search)
    → All (λ v. contains v (vertices edges) ≡ true) starts
    → IsIdle edges bound s
    → (s' : Search) × (visit_all bound edges starts s ≡ some s') × IsIdle edges bound s'
unfolding visit_all
visit_all-IsIdle bound edges [] s known idle = (s, refl, idle)
visit_all-IsIdle bound edges (start ∷ starts) s known idle =
    let (s1, first, idle1) = visit_start-IsIdle bound edges start s known.0 idle in
    let (s2, others, idle2) = visit_all-IsIdle bound edges starts s1 known.1 idle1 in
    (s2, rw (visit_all, first) others, idle2)

All-contained :
    (xs ys : List ℕ)
    → ((v : ℕ) → contains v xs ≡ true → contains v ys ≡ true)
    → All (λ v. contains v ys ≡ true) xs
All-contained [] ys h = tt
All-contained (x ∷ xs) ys h = (h x (ground arith), All-contained xs ys (λ v e. h v (ground arith)))

pub nodes-vertices : (edges : Edges) → All (λ v. contains v (vertices edges) ≡ true) (nodes edges)
nodes-vertices edges =
    All-contained (nodes edges) (vertices edges)
      (λ v h. contains-sources-vertices v edges (ground (arith, contains-nodes edges v, h)))

-- The search for cycles always ends, its `expect` never fails, and every cycle that it reports is a
-- cycle of the graph: each of its transactions waits for the next one, and the last for the first.
pub find_cycles_sound :
    (edges : Edges)
    → (cycles : List Cycle) × (find_cycles edges ≡ some cycles)
      × All (λ c. still_there c.0 c.0 c.1 edges ≡ true) cycles
unfolding find_cycles color_of
find_cycles_sound edges =
    let begin : Search = record { color = []; path = []; cycles = [] } in
    let bound = white_work edges [] (vertices edges) in
    let idle : IsIdle edges bound begin = record {
      inv = record { chain = tt; gray_on_path = λ v g. cc; reported = tt };
      empty = refl;
      within = omega arith;
    } in
    let (s, ended, done) =
      visit_all-IsIdle bound edges (nodes edges) begin (nodes-vertices edges) idle in
    (s.cycles, rw (find_cycles, ended) refl, done.inv.reported)
