-- ===== src/Txn/Cycles/Found.antt =====
-- `find_cycles` of crates/pg-txn/src/deadlock.rs misses no deadlock.
use ams.Common.{
  ℕ, ◌≡◌, refl, sym, ap, ◌∙◌, ◌⊎◌, inl, inr, true, false, ◌||◌, some, List, [], ◌∷◌, All, contains,
  arith, ◌==◌, Bool-cases,
}
use ams.Common.Map.{insert}
use ams.Txn.Deadlock.{Edges, Cycle, has_edge, still_there}
use ams.Txn.Cycles.{
  Stack, Search, Color, white, gray, black, color_of, children, sources, nodes, explore,
  visit_start, visit_all, find_cycles, vertices, white_work,
}
use ams.Txn.Cycles.Sound.{path_nodes, color_of-insert, contains-children, contains-nodes}
use ams.Txn.Cycles.Work.{IsIdle, visit_start-IsIdle, nodes-vertices}
use ams.Txn.Cycles.Order.{no_way_back}
use ams.Txn.Cycles.Clean.{HasReport, IsClean, IsSeen, is_white, insert-IsSeen, explore-keeps}

visit_start-keeps :
    (fuel : ℕ) (edges : Edges) (start : ℕ) (s s' : Search)
    → s.path ≡ []
    → HasReport s ⊎ IsClean edges s
    → visit_start fuel edges start s ≡ some s'
    → (HasReport s' ⊎ IsClean edges s') × IsSeen start s' × ((v : ℕ) → IsSeen v s → IsSeen v s')
unfolding visit_start
visit_start-keeps fuel edges start s s' empty h done = go (color_of start s.color) refl
  where
    nothing :
        (c : Color)
        → color_of start s.color ≡ c
        → is_white c ≡ false
        → (HasReport s' ⊎ IsClean edges s') × IsSeen start s' × ((v : ℕ) → IsSeen v s → IsSeen v s')
    nothing c e dark =
        let same : s ≡ s' = ground (arith, e, dark) in
        (rw (sym same) h, rw (sym same) (ground (arith, e, dark)), λ v seen. rw (sym same) seen)

    go :
        (c : Color)
        → color_of start s.color ≡ c
        → (HasReport s' ⊎ IsClean edges s') × IsSeen start s' × ((v : ℕ) → IsSeen v s → IsSeen v s')
    go gray e = nothing gray e refl
    go black e = nothing black e refl
    go white e =
        let path : Stack = (start, children edges start) ∷ [] in
        let s1 : Search = record s { color = insert start gray s.color; path = path } in
        let inside : explore fuel edges s1 path ≡ some s' = ground (arith, e) in
        let opened : HasReport s1 ⊎ IsClean edges s1 = elim h [
          | inl r ↦ inl r
          | inr clean ↦ inr (record {
            left = clean.left;
            black_left =
                λ v b. ground (arith, b, color_of-insert start v gray s.color, clean.black_left v);
            ordered = clean.ordered;
            covered = (λ c edge. ground (arith, contains-children edges start c, edge), tt);
          })
        ] in
        let (clean, seen) = explore-keeps fuel edges s1 s' path refl opened inside in
        (
          clean,
          seen start (ground (arith, color_of-insert start start gray s.color)),
          λ v was. seen v (insert-IsSeen start v gray s.color refl was),
        )

-- What the whole search ends with.
visit_all-IsEnded :
    (bound : ℕ) (edges : Edges) (starts before : List ℕ) (s : Search)
    → All (λ v. contains v (vertices edges) ≡ true) starts
    → IsIdle edges bound s
    → HasReport s ⊎ IsClean edges s
    → ((v : ℕ) → contains v before ≡ true → IsSeen v s)
    → (s' : Search) × (visit_all bound edges starts s ≡ some s')
      × (HasReport s' ⊎ IsClean edges s')
      × ((v : ℕ) → (contains v before || contains v starts) ≡ true → IsSeen v s')
      × IsIdle edges bound s'
unfolding visit_all
visit_all-IsEnded bound edges [] before s known idle clean seen =
    (s, refl, clean, λ v e. seen v (ground (arith, e)), idle)
visit_all-IsEnded bound edges (start ∷ starts) before s known idle clean seen =
    let (s1, first, idle1) = visit_start-IsIdle bound edges start s known.0 idle in
    let (clean1, seen_start, kept) =
      visit_start-keeps bound edges start s s1 idle.empty clean first in
    let so_far : (v : ℕ) → contains v (start ∷ before) ≡ true → IsSeen v s1 = λ v e.
      elim (Bool-cases (start == v)) [
        | inl same ↦ let here : start ≡ v = ground (arith, same) in rw (sym here) seen_start
        | inr other ↦ kept v (seen v (ground (arith, other, e)))
      ] in
    let (s2, others, clean2, seen2, idle2) =
      visit_all-IsEnded bound edges starts (start ∷ before) s1 known.1 idle1 clean1 so_far in
    (s2, rw (visit_all, first) others, clean2, λ v e. seen2 v (ground (arith, e)), idle2)

source_of-edge :
    (u v : ℕ) (edges : Edges) → has_edge u v edges ≡ true → contains u (sources edges) ≡ true
unfolding has_edge sources
source_of-edge u v [] h = cc
source_of-edge u v ((a, b) ∷ edges) h = ground (arith, source_of-edge u v edges, h)

pub still_there-source :
    (first cur : ℕ) (ys : List ℕ) (edges : Edges)
    → still_there first cur ys edges ≡ true
    → contains cur (sources edges) ≡ true
unfolding still_there
still_there-source first cur [] edges h = source_of-edge cur first edges h
still_there-source first cur (y ∷ ys) edges h = source_of-edge cur y edges (ground arith)

-- At the end every node that was seen was left.
left_at_end :
    (edges : Edges) (s : Search) (v : ℕ) (clean : IsClean edges s)
    → s.path ≡ []
    → (color_of v s.color ≡ gray → contains v (path_nodes s.path) ≡ true)
    → IsSeen v s
    → contains v clean.left ≡ true
left_at_end edges s v clean empty gray_on_path seen = go (color_of v s.color) refl
  where
    go : (c : Color) → color_of v s.color ≡ c → contains v clean.left ≡ true
    go white e = absurd (ground (arith, e, seen))
    go black e = clean.black_left v e
    go gray e =
        let on : contains v (path_nodes s.path) ≡ true = gray_on_path e in
        absurd (ground (arith, ap (λ (p : Stack). contains v (path_nodes p)) empty, on))

-- If transactions wait for each other in a cycle, the search reports a cycle.
pub find_cycles_complete :
    (edges : Edges) (first : ℕ) (others : List ℕ)
    → still_there first first others edges ≡ true
    → (c : Cycle) × (cs : List Cycle) × (find_cycles edges ≡ some (c ∷ cs))
unfolding find_cycles color_of
find_cycles_complete edges first others closed =
    let begin : Search = record { color = []; path = []; cycles = [] } in
    let bound = white_work edges [] (vertices edges) in
    let idle : IsIdle edges bound begin = record {
      inv = record { chain = tt; gray_on_path = λ v g. cc; reported = tt };
      empty = refl;
      within = omega arith;
    } in
    let clean : IsClean edges begin = record {
      left = [];
      black_left = λ v b. cc;
      ordered = tt;
      covered = tt;
    } in
    let (s, ended, end, seen, idle') =
      visit_all-IsEnded bound edges (nodes edges) [] begin (nodes-vertices edges) idle (inr clean)
        (λ v e. cc) in
    elim end [
      | inl (c, cs, e) ↦ (c, cs, rw (find_cycles, ended, e) refl)
      | inr done ↦
          let source : contains first (nodes edges) ≡ true =
            contains-nodes edges first ∙ still_there-source first first others edges closed in
          let on : contains first done.left ≡ true =
            left_at_end edges s first done idle'.empty (idle'.inv.gray_on_path first)
              (seen first (ground (arith, source))) in
          absurd
            (omega (arith, no_way_back edges first first others done.left done.ordered on closed))
    ]
