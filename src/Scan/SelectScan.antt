-- ===== src/Scan/SelectScan.antt =====
-- scan/SelectScan.cpp: the rows of a scan that satisfy a predicate.
pub mod Rows
use sample_db.Base.{
  ℕ, zero, suc, Bool, true, false, Option, none, some, Result, ok, err, starved, thrown, ◌>>=◌,
}
use sample_db.Scan.Predicate.{Predicate, is_satisfied}
use sample_db.Scan.Interface.{ScanOps, UpdateOps}

module _ {S : Type 0} (scan : ScanOps S) (pred : Predicate) where
  -- The `while` loop of `next`, with fuel.
  unfoldable pub next_row : ℕ → S → Result (S × Bool)
  next_row zero s = err starved
  next_row (suc n) s = do
    (s', more) ← scan.next s
    elim more [
      | false ↦ ok (s', false)
      | true ↦ do
        found ← is_satisfied pred (scan.get_value s')
        elim found [ true ↦ ok (s', true) | false ↦ next_row n s' ]
    ]

  -- All else is the scan's.
  abbrev pub select_scan : ℕ → ScanOps S
  select_scan n = record {
    before_first = scan.before_first;
    next = next_row n;
    get_int = scan.get_int;
    get_bool = scan.get_bool;
    get_string = scan.get_string;
    get_value = scan.get_value;
    has_field = scan.has_field;
    close = scan.close;
  }

-- A call of the scan as one that changes its table: others throw.
abbrev pub with_update : {S A : Type 0} → Option (UpdateOps S) → (UpdateOps S → Result A) → Result A
with_update none call = err thrown
with_update (some ops) call = call ops

abbrev pub select_update : {S : Type 0} → Option (UpdateOps S) → UpdateOps S
select_update scan = record {
  set_int = λ s name value. with_update scan λ u. u.set_int s name value;
  set_string = λ s name value. with_update scan λ u. u.set_string s name value;
  set_value = λ s name value. with_update scan λ u. u.set_value s name value;
  insert = λ s. with_update scan λ u. u.insert s;
  remove = λ s. with_update scan λ u. u.remove s;
  move_to_rid = λ s rid. with_update scan λ u. u.move_to_rid s rid;
  get_rid = λ s. with_update scan λ u. u.get_rid s;
}
