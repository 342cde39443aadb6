-- ===== src/Txn/Manager/Steps.antt =====
-- Every step of a schedule keeps the invariant.
use ams.Common.{
  ℕ, suc, ◌≡◌, refl, ap, none, some, List, [], ◌∷◌, ◌++◌, ◌==◌, if◌then◌else◌, arith,
  contains-set_insert, contains-set_remove, All, length, length-append,
}
use ams.Common.Map.{lookup}
use ams.Txn.Clog.{Clog}
use ams.Txn.Visibility.{Snapshot}
use ams.Txn.Manager.{begin_txn, end_txn_state, end_txn_leave, snapshot, drop_guard}
use ams.Txn.Manager.Schedule.{
  Schedule, take_snapshot, Step, begin, flip, leave, take, drop, wait, Reach, here, next, opened,
}
use ams.Txn.Manager.Invariant.{
  IsCurrent, count, count-append, IsSound, All-map, snapshot-IsCurrent, Step-IsCurrent, wait_keeps,
  next_lem, register_lem, unregister_lem,
}

pub All-drop {ℓ κ} :
    {A : Type ℓ} (P : A → Type κ) (before after : List A) (a : A)
    → All P (before ++ (a ∷ after))
    → All P (before ++ after)
All-drop P [] after a h = h.1
All-drop P (x ∷ before) after a h = (h.0, All-drop P before after a h.1)

pub All-mid {ℓ κ} :
    {A : Type ℓ} (P : A → Type κ) (before after : List A) (a : A)
    → All P (before ++ (a ∷ after))
    → P a
All-mid P [] after a h = h.0
All-mid P (x ∷ before) after a h = All-mid P before after a h.1

-- The live snapshots stay current in every step that leaves them alive.
step-IsCurrent :
    (s : Schedule) {t : Schedule}
    → Step s t
    → All (IsCurrent s.manager.next s.manager.active) s.live
    → All (IsCurrent t.manager.next t.manager.active) s.live
step-IsCurrent s step h = All-map (λ snap. Step-IsCurrent snap step) s.live h

count-drop :
    (j : ℕ) (before after : List Snapshot) (snap : Snapshot)
    → count j (before ++ (snap ∷ after))
      ≡ (if snap.xmin == j then suc (count j (before ++ after)) else count j (before ++ after))
count-drop j before after snap =
    ground (arith, count-append j before (snap ∷ after), count-append j before after)

pub Step-IsSound : {s t : Schedule} → Step s t → IsSound s → IsSound t
unfolding begin_txn end_txn_state end_txn_leave take_snapshot snapshot drop_guard
Step-IsSound {s} (begin small) h = record {
  allocated = λ x a.
      rw (next_lem s.manager.next small)
        (ground (arith, contains-set_insert s.manager.next x s.manager.active, h.allocated x));
  current = step-IsCurrent s (begin small) h.current;
  registered = h.registered;
  counted = h.counted;
}
Step-IsSound (flip xid state a) h = record {
  allocated = h.allocated;
  current = h.current;
  registered = h.registered;
  counted = h.counted;
}
Step-IsSound {s} (leave xid a) h = record {
  allocated = λ x b. ground (arith, contains-set_remove xid x s.manager.active, h.allocated x);
  current = step-IsCurrent s (leave xid a) h.current;
  registered = h.registered;
  counted = h.counted;
}
Step-IsSound {s} (take xid) h = record {
  allocated = h.allocated;
  current = (snapshot-IsCurrent s.manager xid h.allocated, h.current);
  registered = λ k.
      register_lem k _ s.manager.snapshot_xmins s.live (snapshot xid s.manager).0 refl h.registered;
  counted = omega (arith, h.counted);
}
Step-IsSound {s} (drop before after snap e) h = record {
  allocated = h.allocated;
  current = All-drop _ before after snap (rw e at h.current);
  registered = λ k.
      unregister_lem k snap.xmin s.manager.snapshot_xmins (λ j. count j (before ++ after))
        (λ j. rw (e, count-drop j before after snap) at (h.registered j));
  counted = ground (
    arith,
    length-append before (snap ∷ after),
    length-append before after,
    h.counted,
    ap length e,
  );
}
Step-IsSound {s} (wait self_xid blocking_xid) h =
    let w = wait_keeps self_xid blocking_xid s.manager in
    record {
      allocated = rw (w.0, w.1) h.allocated;
      current = step-IsCurrent s (wait self_xid blocking_xid) h.current;
      registered = rw w.3 h.registered;
      counted = rw w.4 h.counted;
    }

pub Reach-IsSound : {s t : Schedule} → Reach s t → IsSound s → IsSound t
Reach-IsSound here h = h
Reach-IsSound (next r step) h = Step-IsSound step (Reach-IsSound r h)

pub Reach-IsCurrent :
    {s t : Schedule} (snap : Snapshot)
    → Reach s t
    → IsCurrent s.manager.next s.manager.active snap
    → IsCurrent t.manager.next t.manager.active snap
Reach-IsCurrent snap here h = h
Reach-IsCurrent snap (next r step) h = Step-IsCurrent snap step (Reach-IsCurrent snap r h)

pub opened-IsSound : (start : ℕ) (clog : Clog) → IsSound (opened start clog)
opened-IsSound start clog = record {
  allocated = λ x a. cc;
  current = tt;
  registered = λ k. refl;
  counted = refl;
}

-- In every schedule, the registry counts for each `xmin` the live snapshots that have it, without an
-- entry that counts none, and `live_snapshots` is their number.
pub registry_exact :
    (start : ℕ) (clog : Clog) (s : Schedule) (k : ℕ)
    → Reach (opened start clog) s
    → (lookup k s.manager.snapshot_xmins
        ≡ (if count k s.live == 0 then none else some (count k s.live)))
      × (s.manager.live_snapshots ≡ length s.live)
registry_exact start clog s k r =
    let sound = Reach-IsSound r (opened-IsSound start clog) in (sound.registered k, sound.counted)
