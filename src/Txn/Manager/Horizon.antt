-- ===== src/Txn/Manager/Horizon.antt =====
-- The horizon of cleaning: `oldest_snapshot_xmin` bounds what snapshots may still look for.
use ams.Common.{
  ℕ, ◌≤◌, ◌≡◌, true, false, not, none, some, List, [], ◌∷◌, ◌==◌, contains, arith, All, inl, inr,
  Bool-cases, Option-cases, ==→eq, ==-refl,
}
use ams.Common.Map.{keys}
use ams.Common.Sort.{min?}
use ams.Txn.Visibility.{Snapshot}
use ams.Txn.Manager.{TxnManager, unwrap_or}
use ams.Txn.Manager.Schedule.{Schedule}
use ams.Txn.Manager.Invariant.{count, IsSound}
use ams.Common.Map.{contains-keys}
use ams.Common.Sort.{min?-none, min?-le, contains-min?}
use ams.Txn.Manager.{oldest_snapshot_xmin}

-- Nothing that runs or is registered is older than `h`.
pub record IsAbove (h : ℕ) (s : Schedule) : Type 0 where
  pub clock : h ≤ s.manager.next
  pub running : (x : ℕ) → contains x s.manager.active ≡ true → h ≤ x
  pub living : All (λ snap. h ≤ snap.xmin) s.live

-- An `xmin` that is counted belongs to a live snapshot.
live_of_count {ℓ} :
    {P : Snapshot → Type ℓ} (k : ℕ) (live : List Snapshot)
    → All P live
    → (count k live == 0) ≡ false
    → (snap : Snapshot) × P snap × (snap.xmin ≡ k)
live_of_count k [] h c = cc
live_of_count k (x ∷ live) h c = elim (Bool-cases (x.xmin == k)) [
  | inl e ↦ (x, h.0, ==→eq x.xmin k e)
  | inr n ↦ live_of_count k live h.1 (rw n at c)
]

living_of_counts :
    (h : ℕ) (live : List Snapshot)
    → ((k : ℕ) → (count k live == 0) ≡ false → h ≤ k)
    → All (λ snap. h ≤ snap.xmin) live
living_of_counts h [] f = tt
living_of_counts h (x ∷ live) f = (
  f x.xmin (ground (arith, ==-refl x.xmin)),
  living_of_counts h live (λ k c. f k (ground (arith, c))),
)

-- The registry's keys are the `xmin`s that are counted.
key-count :
    (s : Schedule) (k : ℕ)
    → IsSound s
    → contains k (keys s.manager.snapshot_xmins) ≡ not (count k s.live == 0)
key-count s k h = ground (arith, contains-keys k s.manager.snapshot_xmins, h.registered k)

-- The three answers of `oldest_snapshot_xmin`.
module _ (m : TxnManager) where
  registered_horizon : (h : ℕ) → min? (keys m.snapshot_xmins) ≡ some h → oldest_snapshot_xmin m ≡ h
  unfolding oldest_snapshot_xmin
  registered_horizon h e = ground arith

  active_horizon :
      (h : ℕ)
      → min? (keys m.snapshot_xmins) ≡ none
      → min? m.active ≡ some h
      → oldest_snapshot_xmin m ≡ h
  unfolding oldest_snapshot_xmin unwrap_or
  active_horizon h e a = ground arith

  idle_horizon :
      min? (keys m.snapshot_xmins) ≡ none → min? m.active ≡ none → oldest_snapshot_xmin m ≡ m.next
  unfolding oldest_snapshot_xmin unwrap_or
  idle_horizon e a = ground arith

unregistered_living :
    (s : Schedule) (n : ℕ)
    → IsSound s
    → min? (keys s.manager.snapshot_xmins) ≡ none
    → All (λ snap. n ≤ snap.xmin) s.live
unregistered_living s n h e =
    living_of_counts n s.live
      (λ k d. ground (arith, min?-none (keys s.manager.snapshot_xmins) k e, key-count s k h, d))

pub horizon-IsAbove : (s : Schedule) → IsSound s → IsAbove (oldest_snapshot_xmin s.manager) s
horizon-IsAbove s h = elim (Option-cases (min? (keys s.manager.snapshot_xmins))) [
  | inr (m, e) ↦
      let c : (count m s.live == 0) ≡ false =
        ground (arith, contains-min? (keys s.manager.snapshot_xmins) m e, key-count s m h) in
      let (snap, ok, same) = live_of_count m s.live h.current c in
      rw (registered_horizon s.manager m e) (record {
        clock = omega (arith, same, ok.ordered, ok.begun);
        running = λ x a. ground (arith, same, ok.knows x, ok.lowest x, ok.ordered);
        living = living_of_counts m s.live (λ k d.
            ground (arith, min?-le (keys s.manager.snapshot_xmins) m k e, key-count s k h, d));
      })
  | inl e ↦ elim (Option-cases (min? s.manager.active)) [
    | inr (m, a) ↦ rw (active_horizon s.manager m e a) (record {
      clock = omega (arith, h.allocated m (contains-min? s.manager.active m a));
      running = λ x b. min?-le s.manager.active m x a b;
      living = unregistered_living s m h e;
    })
    | inl a ↦ rw (idle_horizon s.manager e a) (record {
      clock = omega arith;
      running = λ x b. ground (arith, min?-none s.manager.active x a, b);
      living = unregistered_living s s.manager.next h e;
    })
  ]
]

-- What is below everything is below the horizon.
pub IsAbove-horizon :
    (h : ℕ) (s : Schedule) → IsSound s → IsAbove h s → h ≤ oldest_snapshot_xmin s.manager
IsAbove-horizon h s sound above = elim (Option-cases (min? (keys s.manager.snapshot_xmins))) [
  | inr (m, e) ↦
      let c : (count m s.live == 0) ≡ false =
        ground (arith, contains-min? (keys s.manager.snapshot_xmins) m e, key-count s m sound) in
      let (snap, ok, same) = live_of_count m s.live above.living c in
      omega (arith, registered_horizon s.manager m e, same, ok)
  | inl e ↦ elim (Option-cases (min? s.manager.active)) [
    | inr (m, a) ↦
        rw (active_horizon s.manager m e a) (above.running m (contains-min? s.manager.active m a))
    | inl a ↦ rw (idle_horizon s.manager e a) above.clock
  ]
]
