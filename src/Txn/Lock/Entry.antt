-- ===== src/Txn/Lock/Entry.antt =====
-- The state of one table: its holders never conflict, and the head of its queue is blocked by a
-- holder. Each operation of `LockEntry` keeps this or restores it.
use ams.Common.{
  ℕ, zero, suc, ◌≤◌, ◌≡◌, ◌≢◌, refl, sym, ◌⊎◌, true, false, not, ◌||◌, Option, none, some, List, [],
  ◌∷◌, arith, ◌==◌, length, inl, inr, Bool-cases, ==-refl,
}
use ams.Common.Map.{
  Map, lookup, insert, remove, HasKeysOnce, lookup-insert, lookup-remove, insert-HasKeysOnce,
  remove-HasKeysOnce, all-lookup, not-all-lookup,
}
use ams.Txn.Lock.{
  LockMode, conflicts_with, Waiter, LockEntry, holds_at_least, is_behind, is_compatible, can_grant,
  strengthen, pop_own, grant, regrant_loop, regrant_heads,
}
use ams.Txn.Lock.Modes.{conflicts_with_comm, strengthen_held, strengthen_new}

-- No two transactions hold modes that conflict.
pub record IsCompatible (granted : Map LockMode) : Type 0 where
  pub keys : HasKeysOnce granted
  pub pairs :
      (x y : ℕ) (a b : LockMode)
      → x ≢ y
      → lookup x granted ≡ some a
      → lookup y granted ≡ some b
      → conflicts_with a b ≡ false

-- The head of the queue could not be granted now.
abbrev pub HeadWaits : Map LockMode → List Waiter → Type 0
HeadWaits granted [] = Unit {0}
HeadWaits granted (head ∷ rest) =
    can_grant (record { granted = granted; wait_queue = head ∷ rest }) head.xid head.mode ≡ false

is_compatible-other :
    (g : Map LockMode) (x y : ℕ) (a b : LockMode)
    → is_compatible g x a ≡ true
    → x ≢ y
    → lookup y g ≡ some b
    → conflicts_with b a ≡ false
unfolding is_compatible
is_compatible-other g x y a b h ne found =
    ground
      (arith, all-lookup (λ holder held. holder == x || not (conflicts_with held a)) g y b h found)

-- The first and the third gate of `can_grant`.
gates :
    (e : LockEntry) (x : ℕ) (m : LockMode)
    → can_grant e x m ≡ true
    → (holds_at_least (lookup x e.granted) m ≡ true)
      ⊎ ((holds_at_least (lookup x e.granted) m ≡ false)
          × (is_behind e.wait_queue x ≡ false)
          × (is_compatible e.granted x m ≡ true))
unfolding can_grant
gates e x m ok = ground arith

held_mode :
    (o : Option LockMode) (m : LockMode)
    → holds_at_least o m ≡ true
    → (h : LockMode) × (o ≡ some h) × (strengthen o m ≡ h)
unfolding holds_at_least
held_mode none m p = cc
held_mode (some h) m p = (h, refl, strengthen_held h m p)

-- What is granted does not conflict with what another transaction holds.
pub granted_fits :
    (e : LockEntry) (x y : ℕ) (m b : LockMode)
    → can_grant e x m ≡ true
    → IsCompatible e.granted
    → x ≢ y
    → lookup y e.granted ≡ some b
    → conflicts_with b (strengthen (lookup x e.granted) m) ≡ false
granted_fits e x y m b ok h ne found = elim (gates e x m ok) [
  | inl held ↦
      let (a, had, same) = held_mode (lookup x e.granted) m held in
      rw same (h.pairs y x b a (λ q. ne (sym q)) found had)
  | inr (new, first, fits) ↦
      rw (strengthen_new (lookup x e.granted) m new)
        (is_compatible-other e.granted x y m b fits ne found)
]

insert-pairs :
    (g : Map LockMode) (x : ℕ) (m : LockMode)
    → IsCompatible g
    → ((y : ℕ) (b : LockMode) → x ≢ y → lookup y g ≡ some b → conflicts_with b m ≡ false)
    → (y z : ℕ) (a b : LockMode) → y ≢ z
    → lookup y (insert x m g) ≡ some a
    → lookup z (insert x m g) ≡ some b
    → conflicts_with a b ≡ false
insert-pairs g x m h fits y z a b ne py pz = ground (
  arith,
  lookup-insert x y m g,
  lookup-insert x z m g,
  h.pairs y z a b ne,
  fits y a,
  fits z b,
  conflicts_with_comm a b,
)

-- A grant that the three gates allow keeps the holders compatible.
pub grant-IsCompatible :
    (e : LockEntry) (x : ℕ) (m : LockMode)
    → can_grant e x m ≡ true
    → IsCompatible e.granted
    → IsCompatible (grant e x m).granted
unfolding grant
grant-IsCompatible e x m ok h = record {
  keys = insert-HasKeysOnce x _ e.granted h.keys;
  pairs = insert-pairs e.granted x _ h (λ y b ne found. granted_fits e x y m b ok h ne found);
}

pub remove-IsCompatible : (x : ℕ) (g : Map LockMode) → IsCompatible g → IsCompatible (remove x g)
remove-IsCompatible x g h = record {
  keys = remove-HasKeysOnce x g h.keys;
  pairs = λ y z a b ne py pz.
      ground (arith, lookup-remove x y g, lookup-remove x z g, h.pairs y z a b ne);
}

-- What each grant to a head keeps, the loop keeps.
module _ (P : LockEntry → Type 0)
    (keep : (g : Map LockMode) (head : Waiter) (rest : List Waiter)
      → (let e : LockEntry = record { granted = g; wait_queue = head ∷ rest } in
          can_grant e head.xid head.mode ≡ true → P e → P (grant e head.xid head.mode))) where
  regrant_loop_induction :
      (fuel : ℕ) (g : Map LockMode) (q : List Waiter)
      → P (record { granted = g; wait_queue = q })
      → P (regrant_loop fuel (record { granted = g; wait_queue = q }))
  unfolding regrant_loop
  regrant_loop_induction zero g q h = h
  regrant_loop_induction (suc fuel) g [] h = h
  regrant_loop_induction (suc fuel) g (head ∷ rest) h =
      let e : LockEntry = record { granted = g; wait_queue = head ∷ rest } in
      let e' : LockEntry = grant e head.xid head.mode in
      elim (Bool-cases (can_grant e head.xid head.mode)) [
        | inl ok ↦
            rw ok (regrant_loop_induction fuel e'.granted e'.wait_queue (keep g head rest ok h))
        | inr stop ↦ rw stop h
      ]

  pub regrant_heads_induction : (e : LockEntry) → P e → P (regrant_heads e)
  unfolding regrant_heads
  regrant_heads_induction e h =
      regrant_loop_induction (length e.wait_queue) e.granted e.wait_queue h

pub regrant_heads-IsCompatible :
    (e : LockEntry) → IsCompatible e.granted → IsCompatible (regrant_heads e).granted
regrant_heads-IsCompatible =
    regrant_heads_induction (λ e. IsCompatible e.granted)
      (λ g head rest ok h. grant-IsCompatible _ head.xid head.mode ok h)

-- Granting the head takes it off the queue.
pub grant_head :
    (g : Map LockMode) (head : Waiter) (rest : List Waiter) (m : LockMode)
    → grant (record { granted = g; wait_queue = head ∷ rest }) head.xid m
      ≡ record { granted = insert head.xid (strengthen (lookup head.xid g) m) g; wait_queue = rest }
unfolding grant pop_own
grant_head g head rest m = rw ==-refl

regrant_loop-HeadWaits :
    (fuel : ℕ) (g : Map LockMode) (q : List Waiter)
    → length q ≤ fuel
    → (let e' : LockEntry = regrant_loop fuel (record { granted = g; wait_queue = q }) in
        HeadWaits e'.granted e'.wait_queue)
unfolding regrant_loop
regrant_loop-HeadWaits zero g [] h = tt
regrant_loop-HeadWaits zero g (head ∷ rest) h = absurd (omega arith)
regrant_loop-HeadWaits (suc fuel) g [] h = tt
regrant_loop-HeadWaits (suc fuel) g (head ∷ rest) h =
    let e : LockEntry = record { granted = g; wait_queue = head ∷ rest } in
    elim (Bool-cases (can_grant e head.xid head.mode)) [
      | inl ok ↦ rw (ok, grant_head) (regrant_loop-HeadWaits fuel _ rest (omega arith))
      | inr stop ↦ rw stop stop
    ]

-- The loop ends with a head that has to wait, or with an empty queue.
pub regrant_heads-HeadWaits :
    (e : LockEntry) → HeadWaits (regrant_heads e).granted (regrant_heads e).wait_queue
unfolding regrant_heads
regrant_heads-HeadWaits e =
    regrant_loop-HeadWaits (length e.wait_queue) e.granted e.wait_queue (omega arith)

-- A head that waits is blocked by another transaction that holds a conflicting mode.
pub HeadWaits-blocker :
    (g : Map LockMode) (head : Waiter) (rest : List Waiter)
    → HasKeysOnce g
    → HeadWaits g (head ∷ rest)
    → (holder : ℕ) × (held : LockMode) × (holder ≢ head.xid)
      × (lookup holder g ≡ some held)
      × (conflicts_with held head.mode ≡ true)
unfolding can_grant is_behind is_compatible
HeadWaits-blocker g head rest u h =
    let (holder, held, found, bad) = not-all-lookup _ g u failed in
    (holder, held, ground arith, found, ground arith)
  where
    failed : is_compatible g head.xid head.mode ≡ false
    failed = ground (arith, ==-refl head.xid)
