-- ===== src/Plan/UpdatePlanner/Indexes.antt =====
-- The planner that keeps indexes, on a table that has none.
use mathlib.Core.Path.{subst}
use mathlib.Core.Bool.{true≢false}
use sample_db.Base.{
  ℕ, zero, suc, ◌≡◌, refl, List, [], ◌∷◌, Bool, true, false, some, none, Str, Result, ok, err,
  ◌>>=◌, find, >>=-eq-ok, ok-injective, ap, sym,
}
use sample_db.Scan.Constant.{Constant}
use sample_db.Scan.Predicate.{Predicate, Expression, evaluate, is_satisfied}
use sample_db.Scan.Interface.{ScanOps, UpdateOps, Rid}
use sample_db.Scan.SelectScan.{select_scan, select_update, next_row}
use sample_db.Plan.UpdatePlanner.{
  delete_rows, delete_indexed, remove_entries, modify_rows, modify_indexed, change_entry,
  set_values, set_indexed, add_entry, execute_delete, execute_delete_indexed, execute_modify,
  execute_modify_indexed, execute_insert, execute_insert_indexed,
}

-- What a table's scan does at its rows: a good state may come to stand on a row, by `next` or by
-- `insert`; on a row there is a place, and a value of the field; and a row that is left, removed or
-- set leaves a good state.
pub record RowLaws {S : Type 0} (scan : ScanOps S) (u : UpdateOps S) (field : Str) : Type 1 where
  pub Good : S → Type 0
  pub On : S → Type 0
  pub next_on : (s s' : S) → Good s → scan.next s ≡ ok (s', true) → On s'
  pub insert_on : (s s' : S) → Good s → u.insert s ≡ ok s' → On s'
  pub place : (s : S) → On s → (rid : Rid) × (u.get_rid s ≡ ok rid)
  pub value : (s : S) → On s → (c : Constant) × (scan.get_value s field ≡ ok c)
  pub leave : (s : S) → On s → Good s
  pub remove_good : (s s' : S) → On s → u.remove s ≡ ok s' → Good s'
  pub set_good : (s s' : S) (c : Constant) → On s → u.set_value s field c ≡ ok s' → Good s'

-- Calls that go on in the same way from what the first one gave.
bind-eq :
    {A B : Type 0} (m : Result A) (f g : A → Result B)
    → ((a : A) → m ≡ ok a → f a ≡ g a)
    → (m >>= f) ≡ (m >>= g)
bind-eq (ok a) f g h = h a refl
bind-eq (err e) f g h = refl

next-eq :
    {S B : Type 0} (m : Result (S × Bool)) (f g : S × Bool → Result B)
    → ((s : S) → f (s, false) ≡ g (s, false))
    → ((s : S) → m ≡ ok (s, true) → f (s, true) ≡ g (s, true))
    → (m >>= f) ≡ (m >>= g)
next-eq (ok (s, false)) f g h k = h s
next-eq (ok (s, true)) f g h k = k s refl
next-eq (err e) f g h k = refl

module _ {S : Type 0} (scan : ScanOps S) (u : UpdateOps S) (field : Str)
    (laws : RowLaws scan u field) where
  delete_indexed-nil :
      (n : ℕ) (s : S) (count : ℕ)
      → laws.Good s
      → delete_indexed scan u n [] s count ≡ delete_rows scan u n s count
  unfolding delete_indexed delete_rows remove_entries
  delete_indexed-nil zero s count good = refl
  delete_indexed-nil (suc n) s count good =
      next-eq (scan.next s) _ _ (λ s1. refl)
        λ s1 e.
          let on = laws.next_on s s1 good e in
          let (rid, f) = laws.place s1 on in
          rw f (
            bind-eq (u.remove s1) _ _
              λ s2 g. delete_indexed-nil n s2 (suc count) (laws.remove_good s1 s2 on g))

  modify_indexed-none :
      (n : ℕ) (expr : Expression) (s : S) (count : ℕ)
      → laws.Good s
      → modify_indexed scan u n field expr none s count ≡ modify_rows scan u n field expr s count
  unfolding modify_indexed modify_rows change_entry
  modify_indexed-none zero expr s count good = refl
  modify_indexed-none (suc n) expr s count good =
      next-eq (scan.next s) _ _ (λ s1. refl)
        λ s1 e.
          let on = laws.next_on s s1 good e in
          let (old, f) = laws.value s1 on in
          bind-eq (evaluate expr (scan.get_value s1)) _ _ λ new h. rw f (
            bind-eq (u.set_value s1 field new) _ _
              λ s2 g. modify_indexed-none n expr s2 (suc count) (laws.set_good s1 s2 new on g))

  set_indexed-nil :
      (rid : Rid) (fields : List Str) (values : List Constant) (s : S)
      → set_indexed scan u [] rid fields values s ≡ set_values scan u fields values s
  unfolding set_indexed set_values add_entry find
  set_indexed-nil rid [] values s = refl
  set_indexed-nil rid (f ∷ fields) [] s = refl
  set_indexed-nil rid (f ∷ fields) (value ∷ values) s =
      bind-eq (u.set_value s f value) _ _ λ s1 e. set_indexed-nil rid fields values s1

  -- What the select scan does with a row, and with what `next` gave.
  abbrev kept : Predicate → ℕ → S → Bool → Result (S × Bool)
  kept pred n s true = ok (s, true)
  kept pred n s false = next_row scan pred n s

  abbrev reached : Predicate → ℕ → S → Bool → Result (S × Bool)
  reached pred n s false = ok (s, false)
  reached pred n s true = do found ← is_satisfied pred (scan.get_value s); kept pred n s found

  kept-On :
      (pred : Predicate) (n : ℕ) (s s' : S) (found : Bool)
      → laws.On s
      → (laws.Good s → next_row scan pred n s ≡ ok (s', true) → laws.On s')
      → kept pred n s found ≡ ok (s', true)
      → laws.On s'
  kept-On pred n s s' true on later k =
      subst laws.On (ap (λ (x : S × Bool). x.0) (ok-injective k)) on
  kept-On pred n s s' false on later k = later (laws.leave s on) k

  reached-On :
      (pred : Predicate) (n : ℕ) (s s1 s' : S) (more : Bool)
      → laws.Good s
      → scan.next s ≡ ok (s1, more)
      → (laws.Good s1 → next_row scan pred n s1 ≡ ok (s', true) → laws.On s')
      → reached pred n s1 more ≡ ok (s', true)
      → laws.On s'
  reached-On pred n s s1 s' false good e later k =
      absurd (true≢false (sym (ap (λ (x : S × Bool). x.1) (ok-injective k))))
  reached-On pred n s s1 s' true good e later k =
      let (found, f, rest) =
        >>=-eq-ok (is_satisfied pred (scan.get_value s1)) (λ found. kept pred n s1 found) k in
      kept-On pred n s1 s' found (laws.next_on s s1 good e) later rest

  -- A row that the select scan finds is one of its scan.
  next_row-On :
      (pred : Predicate) (n : ℕ) (s s' : S)
      → laws.Good s
      → next_row scan pred n s ≡ ok (s', true)
      → laws.On s'
  unfolding next_row
  next_row-On pred zero s s' good h = cc
  next_row-On pred (suc n) s s' good h =
      let (x, e, rest) = >>=-eq-ok (scan.next s) (λ x. reached pred n x.0 x.1) h in
      reached-On pred n s x.0 s' x.1 good e (λ g k. next_row-On pred n x.0 s' g k) rest

  -- So the laws hold of the select scan.
  abbrev select_laws :
      (pred : Predicate) (fuel : ℕ)
      → RowLaws (select_scan scan pred fuel) (select_update (some u)) field
  select_laws pred fuel = record {
    Good = laws.Good;
    On = laws.On;
    next_on = next_row-On pred fuel;
    insert_on = laws.insert_on;
    place = laws.place;
    value = laws.value;
    leave = laws.leave;
    remove_good = laws.remove_good;
    set_good = laws.set_good;
  }

-- On a table without indexes, the planner that keeps indexes deletes, modifies and inserts as the
-- basic planner does, errors and counts included. The table's scan keeps the laws of its rows for
-- the field that is modified, and starts in a good state.
pub execute_indexed-nil :
    {S : Type 0} (scan : ScanOps S) (u : UpdateOps S) (fuel : ℕ) (pred : Predicate) (field : Str)
    (expr : Expression) (fields : List Str) (values : List Constant) (s : S)
    (laws : RowLaws scan u field)
    → laws.Good s
    → (execute_delete_indexed scan u fuel [] pred s ≡ execute_delete scan u fuel pred s)
      × (execute_modify_indexed scan u fuel [] field expr pred s
          ≡ execute_modify scan u fuel field expr pred s)
      × (execute_insert_indexed scan u fuel [] fields values s
          ≡ execute_insert scan u fuel fields values s)
unfolding execute_delete execute_delete_indexed execute_modify execute_modify_indexed execute_insert
    execute_insert_indexed find
execute_indexed-nil scan u fuel pred field expr fields values s laws good = (
  rw
      (delete_indexed-nil (select_scan scan pred fuel) (select_update (some u)) field
        (select_laws scan u field laws pred fuel) fuel s 0 good)
      refl,
  rw
      (modify_indexed-none (select_scan scan pred fuel) (select_update (some u)) field
        (select_laws scan u field laws pred fuel) fuel expr s 0 good)
      refl,
  bind-eq (u.insert s) _ _ λ s1 e.
      let (rid, f) = laws.place s1 (laws.insert_on s s1 good e) in
      rw (f, set_indexed-nil scan u field laws rid fields values s1) refl,
)
