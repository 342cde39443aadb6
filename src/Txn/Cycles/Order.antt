-- ===== src/Txn/Cycles/Order.antt =====
-- The order in which `find_cycles` of crates/pg-txn/src/deadlock.rs leaves the nodes, when it
-- reports nothing: no cycle fits it.
use ams.Common.{
  ℕ, suc, ◌≤◌, ◌<◌, ◌≡◌, inl, inr, true, List, [], ◌∷◌, length, contains, arith, ◌==◌, Bool-cases,
  if◌then◌else◌,
}
use ams.Txn.Deadlock.{Edges, has_edge, still_there}

-- Each node after those that its edges lead to, the last one first.
abbrev pub IsOrdered : Edges → List ℕ → Type 0
IsOrdered edges [] = Unit
IsOrdered edges (v ∷ left) =
    ((c : ℕ) → has_edge v c edges ≡ true → contains c left ≡ true) × IsOrdered edges left

-- The place of a node in that order.
abbrev rank : ℕ → List ℕ → ℕ
rank v [] = 0
rank v (x ∷ xs) =
    let before = rank v xs in
    if contains v xs then before else if x == v then suc (length xs) else 0

rank_le : (v : ℕ) (xs : List ℕ) → rank v xs ≤ length xs
rank_le v [] = omega arith
rank_le v (x ∷ xs) = ground (arith, rank_le v xs)

rank_edge :
    (edges : Edges) (u v : ℕ) (xs : List ℕ)
    → IsOrdered edges xs
    → contains u xs ≡ true
    → has_edge u v edges ≡ true
    → (contains v xs ≡ true) × (rank v xs < rank u xs)
rank_edge edges u v [] ordered h e = cc
rank_edge edges u v (x ∷ xs) ordered h e = elim (Bool-cases (contains u xs)) [
  | inl later ↦
      let (on, less) = rank_edge edges u v xs ordered.1 later e in
      (ground (arith, on), ground (arith, on, less, later))
  | inr last ↦
      let same : x ≡ u = ground (arith, last, h) in
      let on : contains v xs ≡ true = ordered.0 v (rw same e) in
      (ground (arith, on), ground (arith, on, last, rank_le v xs, same))
]

-- Along edges the place only falls, so that no walk comes back.
pub no_way_back :
    (edges : Edges) (first cur : ℕ) (ys xs : List ℕ)
    → IsOrdered edges xs
    → contains cur xs ≡ true
    → still_there first cur ys edges ≡ true
    → rank first xs < rank cur xs
unfolding still_there
no_way_back edges first cur [] xs ordered on h = (rank_edge edges cur first xs ordered on h).1
no_way_back edges first cur (y ∷ ys) xs ordered on h =
    let (on', less) = rank_edge edges cur y xs ordered on (ground (arith, h)) in
    omega (arith, less, no_way_back edges first y ys xs ordered on' (ground (arith, h)))
