-- ===== src/Txn/Cycles/Clean.antt =====
-- What the inner loop of `find_cycles` of crates/pg-txn/src/deadlock.rs keeps while nothing was
-- reported.
use ams.Common.{
  ℕ, zero, suc, ◌≡◌, refl, sym, ◌⊎◌, inl, inr, Bool, true, false, ◌||◌, some, List, [], ◌∷◌, ◌++◌,
  contains, arith, Option-cases,
}
use ams.Common.Map.{Map, insert}
use ams.Txn.Deadlock.{Edges, Cycle, has_edge}
use ams.Txn.Cycles.{
  Stack, Search, Color, white, gray, black, color_of, children, cycle_from, visit, turn, explore,
}
use ams.Txn.Cycles.Sound.{color_of-insert, contains-children}
use ams.Txn.Cycles.Order.{IsOrdered}

-- The children of a node on the path are still to come, or were left, or are next on the path.
abbrev pub IsCovered : Edges → List ℕ → List ℕ → Stack → Type 0
IsCovered edges left above [] = Unit
IsCovered edges left above ((u, rest) ∷ below) =
    ((c : ℕ)
      → has_edge u c edges ≡ true
      → (contains c rest || (contains c left || contains c above)) ≡ true)
    × IsCovered edges left (u ∷ []) below

IsCovered-grow :
    (edges : Edges) (left above : List ℕ) (node : ℕ) (path : Stack)
    → IsCovered edges left above path
    → IsCovered edges (node ∷ left) above path
IsCovered-grow edges left above node [] h = tt
IsCovered-grow edges left above node ((u, rest) ∷ below) h =
    (λ c e. ground (arith, h.0 c e), IsCovered-grow edges left (u ∷ []) node below h.1)

-- Leaving a node moves it from the path to those that were left.
IsCovered-leave :
    (edges : Edges) (left : List ℕ) (node : ℕ) (path : Stack)
    → IsCovered edges left (node ∷ []) path
    → IsCovered edges (node ∷ left) [] path
IsCovered-leave edges left node [] h = tt
IsCovered-leave edges left node ((u, rest) ∷ below) h =
    (λ c e. ground (arith, h.0 c e), IsCovered-grow edges left (u ∷ []) node below h.1)

pub record IsClean (edges : Edges) (s : Search) : Type 0 where
  pub left : List ℕ
  pub black_left : (v : ℕ) → color_of v s.color ≡ black → contains v left ≡ true
  pub ordered : IsOrdered edges left
  pub covered : IsCovered edges left [] s.path

abbrev pub HasReport : Search → Type 0
HasReport s = (c : Cycle) × (cs : List Cycle) × (s.cycles ≡ c ∷ cs)

has_report :
    (cs : List Cycle) (c : Cycle) → (d : Cycle) × (ds : List Cycle) × (cs ++ (c ∷ []) ≡ d ∷ ds)
has_report [] c = (c, [], refl)
has_report (d ∷ ds) c = (d, ds ++ (c ∷ []), refl)

visit-IsClean :
    (edges : Edges) (s s' : Search) (node next : ℕ) (rest : List ℕ) (below : Stack) (c : Color)
    → color_of next s.color ≡ c
    → s.path ≡ (node, next ∷ rest) ∷ below
    → HasReport s ⊎ IsClean edges s
    → visit edges s node next rest below c ≡ some s'
    → HasReport s' ⊎ IsClean edges s'
unfolding visit
visit-IsClean edges s s' node next rest below gray color e h done =
    elim (Option-cases (cycle_from next ((node, rest) ∷ below) [])) [
      | inl bad ↦ absurd (ground arith)
      | inr (cycle, found) ↦
          let (d, ds, shape) = has_report s.cycles cycle in
          inl (d, ds, ground (arith, found, shape))
    ]
visit-IsClean edges s s' node next rest below white color e h done =
    let t : Search = record s {
      color = insert next gray s.color;
      path = (next, children edges next) ∷ (node, rest) ∷ below;
    } in
    let same : t ≡ s' = ground arith in
    elim h [
      | inl r ↦ inl (rw (sym same) r)
      | inr clean ↦
          let top : IsCovered edges clean.left [] ((node, next ∷ rest) ∷ below) =
            rw e at clean.covered in
          let now : IsClean edges t = record {
            left = clean.left;
            black_left =
                λ v b. ground (arith, b, color_of-insert next v gray s.color, clean.black_left v);
            ordered = clean.ordered;
            covered = (
              λ c edge. ground (arith, contains-children edges next c, edge),
              (λ c edge. ground (arith, top.0 c edge), top.1),
            );
          } in
          inr (rw (sym same) now)
    ]
visit-IsClean edges s s' node next rest below black color e h done =
    let t : Search = record s { path = (node, rest) ∷ below } in
    let same : t ≡ s' = ground arith in
    elim h [
      | inl r ↦ inl (rw (sym same) r)
      | inr clean ↦
          let top : IsCovered edges clean.left [] ((node, next ∷ rest) ∷ below) =
            rw e at clean.covered in
          let now : IsClean edges t = record {
            left = clean.left;
            black_left = clean.black_left;
            ordered = clean.ordered;
            covered = (λ c edge. ground (arith, top.0 c edge, clean.black_left next color), top.1);
          } in
          inr (rw (sym same) now)
    ]

turn-IsClean :
    (edges : Edges) (s s' : Search) (path : Stack)
    → s.path ≡ path
    → HasReport s ⊎ IsClean edges s
    → turn edges s path ≡ some s'
    → HasReport s' ⊎ IsClean edges s'
unfolding turn
turn-IsClean edges s s' [] e h done = let same : s ≡ s' = ground arith in rw (sym same) h
turn-IsClean edges s s' ((node, []) ∷ below) e h done =
    let t : Search = record s { color = insert node black s.color; path = below } in
    let same : t ≡ s' = ground arith in
    elim h [
      | inl r ↦ inl (rw (sym same) r)
      | inr clean ↦
          let top : IsCovered edges clean.left [] ((node, []) ∷ below) = rw e at clean.covered in
          let now : IsClean edges t = record {
            left = node ∷ clean.left;
            black_left =
                λ v b. ground (arith, b, color_of-insert node v black s.color, clean.black_left v);
            ordered = (λ c edge. ground (arith, top.0 c edge), clean.ordered);
            covered = IsCovered-leave edges clean.left node below top.1;
          } in
          inr (rw (sym same) now)
    ]
turn-IsClean edges s s' ((node, next ∷ rest) ∷ below) e h done =
    visit-IsClean edges s s' node next rest below (color_of next s.color) refl e h done

abbrev pub is_white : Color → Bool
is_white white = true
is_white _ = false

abbrev pub IsSeen : ℕ → Search → Type 0
IsSeen v s = is_white (color_of v s.color) ≡ false

pub insert-IsSeen :
    (k v : ℕ) (c : Color) (m : Map Color)
    → is_white c ≡ false
    → is_white (color_of v m) ≡ false
    → is_white (color_of v (insert k c m)) ≡ false
insert-IsSeen k v c m dark seen = ground (arith, color_of-insert k v c m)

visit-IsSeen :
    (edges : Edges) (s s' : Search) (node next : ℕ) (rest : List ℕ) (below : Stack) (c : Color)
    (v : ℕ)
    → visit edges s node next rest below c ≡ some s'
    → IsSeen v s
    → IsSeen v s'
unfolding visit
visit-IsSeen edges s s' node next rest below gray v done seen =
    elim (Option-cases (cycle_from next ((node, rest) ∷ below) [])) [
      | inl bad ↦ absurd (ground arith)
      | inr (cycle, found) ↦ ground (arith, found)
    ]
visit-IsSeen edges s s' node next rest below white v done seen =
    ground (arith, insert-IsSeen next v gray s.color refl seen)
visit-IsSeen edges s s' node next rest below black v done seen = ground arith

turn-IsSeen :
    (edges : Edges) (s s' : Search) (path : Stack) (v : ℕ)
    → turn edges s path ≡ some s'
    → IsSeen v s
    → IsSeen v s'
unfolding turn
turn-IsSeen edges s s' [] v done seen = ground arith
turn-IsSeen edges s s' ((node, []) ∷ below) v done seen =
    ground (arith, insert-IsSeen node v black s.color refl seen)
turn-IsSeen edges s s' ((node, next ∷ rest) ∷ below) v done seen =
    visit-IsSeen edges s s' node next rest below (color_of next s.color) v done seen

-- What the inner loop keeps: a report or a clean state, and the nodes that were seen.
pub explore-keeps :
    (fuel : ℕ) (edges : Edges) (s s' : Search) (path : Stack)
    → s.path ≡ path
    → HasReport s ⊎ IsClean edges s
    → explore fuel edges s path ≡ some s'
    → (HasReport s' ⊎ IsClean edges s') × ((v : ℕ) → IsSeen v s → IsSeen v s')
unfolding explore
explore-keeps fuel edges s s' [] e h done =
    let same : s ≡ s' = ground arith in (rw (sym same) h, λ v seen. rw (sym same) seen)
explore-keeps zero edges s s' (top ∷ below) e h done = absurd (ground arith)
explore-keeps (suc fuel) edges s s' (top ∷ below) e h done =
    elim (Option-cases (turn edges s (top ∷ below))) [
      | inl bad ↦ absurd (ground (arith, bad))
      | inr (s1, step) ↦
          let further : explore fuel edges s1 s1.path ≡ some s' = ground (arith, step) in
          let (clean, seen) =
            explore-keeps fuel edges s1 s' s1.path refl
              (turn-IsClean edges s s1 (top ∷ below) e h step) further in
          (clean, λ v was. seen v (turn-IsSeen edges s s1 (top ∷ below) v step was))
    ]
