-- ===== src/Txn/Lock/Modes.antt =====
-- The conflict matrix of `LockMode::conflicts_with` and the order of strength.
use ams.Common.{◌≤◌, ◌≡◌, arith, true, false, Option, none, some, refl}
use ams.Txn.Lock.{LockMode, strength, conflicts_with, holds_at_least, strengthen}

pub conflicts_with_comm : (a b : LockMode) → conflicts_with a b ≡ conflicts_with b a
unfolding conflicts_with
conflicts_with_comm a b = ground arith

-- A stronger mode conflicts with everything that a weaker one conflicts with.
pub conflicts_with_mono :
    (a b c : LockMode)
    → strength a ≤ strength b
    → conflicts_with a c ≡ true
    → conflicts_with b c ≡ true
unfolding conflicts_with
conflicts_with_mono a b c le h = ground arith

-- What a transaction holds after a grant: the stronger of the two, and at least the mode asked.
pub strengthen-holds :
    (o : Option LockMode) (m : LockMode) → holds_at_least (some (strengthen o m)) m ≡ true
unfolding strengthen holds_at_least
strengthen-holds none m = ground arith
strengthen-holds (some h) m = ground arith

-- A grant by the first gate changes nothing; any other grant gives the mode asked.
pub strengthen_held :
    (h m : LockMode) → holds_at_least (some h) m ≡ true → strengthen (some h) m ≡ h
unfolding strengthen holds_at_least
strengthen_held h m p = ground arith

pub strengthen_new :
    (o : Option LockMode) (m : LockMode) → holds_at_least o m ≡ false → strengthen o m ≡ m
unfolding strengthen holds_at_least
strengthen_new none m p = refl
strengthen_new (some h) m p = ground arith
