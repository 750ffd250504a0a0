-- ===== src/Tx/ConcurrencyMgr/Counts.antt =====
-- How many transactions hold a lock on a block, and how many own it exclusively.
use sample_db.Base.{
  ℕ, zero, suc, ◌+◌, ◌≤◌, ◌≡◌, ◌≢◌, refl, List, [], ◌∷◌, none, some, ℤ, pos, negsuc, find, arith,
  ap, if◌then◌else◌, ◌⊎◌, get_elem?, set,
}
use mathlib.Core.Path.{subst}
use sample_db.File.BlockId.{BlockId, block_eq}
use sample_db.Tx.ConcurrencyMgr.{Mode, is_none, is_exclusive}
use sample_db.Tx.ConcurrencyMgr.Held.{UniqueKeys}

abbrev pub Locks : Type 0
Locks = List (BlockId × Mode)

abbrev pub held : BlockId → Locks → ℕ
held b l = if is_none (find b l) then 0 else 1

abbrev pub owned : BlockId → Locks → ℕ
owned b l = if is_exclusive (find b l) then 1 else 0

unfoldable pub total : (Locks → ℕ) → List Locks → ℕ
total f [] = 0
total f (l ∷ ls) = f l + total f ls

pub some_locks : {a b : Locks} → some a ≡ some b → a ≡ b
some_locks e = cc

pub total-set :
    (f : Locks → ℕ) (ls : List Locks) (i : ℕ) (l m : Locks)
    → get_elem? ls i ≡ some l
    → total f (set ls i m) + f l ≡ total f ls + f m
unfolding total
total-set f [] i l m e = cc
total-set f (x ∷ ls) zero l m e = omega (arith, ap f (some_locks e))
total-set f (x ∷ ls) (suc i) l m e = omega (arith, total-set f ls i l m e)

-- The table's value of a block, the transactions that hold it, and those that own it.
abbrev pub Agrees : ℤ → ℕ → ℕ → Type 0
Agrees v h o = ((v ≡ pos h) × (o ≡ 0)) ⊎ ((v ≡ negsuc 0) × (h ≡ 1) × (o ≡ 1))

abbrev pub AllUnique : List Locks → Type 0
AllUnique [] = Unit {0}
AllUnique (l ∷ ls) = UniqueKeys l × AllUnique ls

pub AllUnique-get :
    (ls : List Locks) (i : ℕ) (l : Locks) → AllUnique ls → get_elem? ls i ≡ some l → UniqueKeys l
AllUnique-get [] i l a e = cc
AllUnique-get (x ∷ ls) zero l a e = subst UniqueKeys (some_locks e) a.0
AllUnique-get (x ∷ ls) (suc i) l a e = AllUnique-get ls i l a.1 e

pub AllUnique-set :
    (ls : List Locks) (i : ℕ) (m : Locks) → AllUnique ls → UniqueKeys m → AllUnique (set ls i m)
AllUnique-set [] i m a u = tt
AllUnique-set (x ∷ ls) zero m a u = (u, a.1)
AllUnique-set (x ∷ ls) (suc i) m a u = (a.0, AllUnique-set ls i m a.1 u)

pub owned-le-held : (b : BlockId) (ls : List Locks) → total (owned b) ls ≤ total (held b) ls
unfolding total
owned-le-held b [] = omega arith
owned-le-held b (l ∷ ls) = ground (arith, owned-le-held b ls)

pub set-set : (ls : List Locks) (i : ℕ) (l m : Locks) → set (set ls i l) i m ≡ set ls i m
set-set [] i l m = refl
set-set (x ∷ ls) zero l m = refl
set-set (x ∷ ls) (suc i) l m = ap (◌∷◌ x) (set-set ls i l m)

pub get_elem?-set_self :
    (ls : List Locks) (i : ℕ) (l m : Locks)
    → get_elem? ls i ≡ some l
    → get_elem? (set ls i m) i ≡ some m
get_elem?-set_self [] i l m e = cc
get_elem?-set_self (x ∷ ls) zero l m e = refl
get_elem?-set_self (x ∷ ls) (suc i) l m e = get_elem?-set_self ls i l m e

pub find-nil : (b : BlockId) → find {V = Mode} b [] ≡ none
unfolding find
find-nil b = refl

pub held-le-total :
    (b : BlockId) (ls : List Locks) (j : ℕ) (m : Locks)
    → get_elem? ls j ≡ some m
    → held b m ≤ total (held b) ls
unfolding total
held-le-total b [] j m e = cc
held-le-total b (x ∷ ls) zero m e = omega (arith, ap (held b) (some_locks e))
held-le-total b (x ∷ ls) (suc j) m e = omega (arith, held-le-total b ls j m e)

pub get_elem?-set_ne :
    (ls : List Locks) (i j : ℕ) (l : Locks) → i ≢ j → get_elem? (set ls i l) j ≡ get_elem? ls j
get_elem?-set_ne [] i j l d = refl
get_elem?-set_ne (x ∷ ls) zero zero l d = absurd (d refl)
get_elem?-set_ne (x ∷ ls) zero (suc j) l d = refl
get_elem?-set_ne (x ∷ ls) (suc i) zero l d = refl
get_elem?-set_ne (x ∷ ls) (suc i) (suc j) l d = get_elem?-set_ne ls i j l (λ e. d (ap suc e))

unfoldable pub no_locks : ℕ → List Locks
no_locks zero = []
no_locks (suc n) = [] ∷ no_locks n

pub total-no_locks : (f : Locks → ℕ) (n : ℕ) → f [] ≡ 0 → total f (no_locks n) ≡ 0
unfolding total no_locks
total-no_locks f zero h = refl
total-no_locks f (suc n) h = omega (arith, h, total-no_locks f n h)

pub AllUnique-no_locks : (n : ℕ) → AllUnique (no_locks n)
unfolding no_locks
AllUnique-no_locks zero = tt
AllUnique-no_locks (suc n) = (tt, AllUnique-no_locks n)
