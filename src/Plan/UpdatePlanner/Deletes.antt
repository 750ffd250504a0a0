-- ===== src/Plan/UpdatePlanner/Deletes.antt =====
-- What DELETE does with the rows of a table, for any scan that keeps the laws of a table's scan.
use mathlib.Core.Path.{subst}
use sample_db.Base.{
  ℕ, zero, suc, ◌+◌, ◌<◌, ◌≡◌, refl, sym, ◌∙◌, List, [], ◌∷◌, ◌++◌, append_assoc, append-nil,
  length, Bool, true, false, some, ok, Succeeds, Succeeds-bind, Succeeds-map, ◌⊎◌, inl, inr, arith,
}
use sample_db.Scan.Predicate.{Predicate, Row, is_satisfied}
use sample_db.Scan.Interface.{ScanOps, UpdateOps}
use sample_db.Scan.SelectScan.{next_row, select_scan, select_update}
use sample_db.Plan.UpdatePlanner.{delete_rows, execute_delete}

-- A scan of a table on which rows are removed: it stands before rows, on a row, or past the last
-- one, and has left rows behind.
pub record TableLaws {S : Type 0} (scan : ScanOps S) (u : UpdateOps S) : Type 1 where
  pub Before : S → List Row → List Row → Type 0
  pub On : S → List Row → Row → List Row → Type 0
  pub Past : S → List Row → Type 0
  pub next_none :
      (s : S) (b : List Row)
      → Before s b []
      → Succeeds (λ x. (x.1 ≡ false) × Past x.0 b) (scan.next s)
  pub next_some :
      (s : S) (b : List Row) (r : Row) (a : List Row)
      → Before s b (r ∷ a)
      → Succeeds (λ x. (x.1 ≡ true) × On x.0 b r a) (scan.next s)
  pub value_on : (s : S) (b : List Row) (r : Row) (a : List Row) → On s b r a → scan.get_value s ≡ r
  pub pass_on :
      (s : S) (b : List Row) (r : Row) (a : List Row) → On s b r a → Before s (b ++ r ∷ []) a
  pub remove_on :
      (s : S) (b : List Row) (r : Row) (a : List Row)
      → On s b r a
      → Succeeds (λ s'. Before s' b a) (u.remove s)
  pub close_past : (s : S) (b : List Row) → Past s b → Succeeds (λ s'. Past s' b) (scan.close s)

-- The test of each row returns: the rows that do not satisfy the predicate are kept, and the others
-- are counted.
pub data Split (pred : Predicate) : List Row → List Row → ℕ → Type 0 where
  done : Split pred [] [] 0
  keep :
      {r : Row} {rs ks : List Row} {n : ℕ}
      → is_satisfied pred r ≡ ok false
      → Split pred rs ks n
      → Split pred (r ∷ rs) (r ∷ ks) n
  drop :
      {r : Row} {rs ks : List Row} {n : ℕ}
      → is_satisfied pred r ≡ ok true
      → Split pred rs ks n
      → Split pred (r ∷ rs) ks (suc n)

module _ {S : Type 0} (scan : ScanOps S) (u : UpdateOps S) (laws : TableLaws scan u)
    (pred : Predicate) where
  -- Where the select scan's `next` leaves the table: past the end, or on the first row that
  -- satisfies the predicate.
  abbrev Found : List Row → ℕ → ℕ → S × Bool → Type 0
  Found final n bound x =
      ((x.1 ≡ false) × (n ≡ 0) × laws.Past x.0 final)
      ⊎ ((x.1 ≡ true)
          × (b : List Row) × (r : Row) × (a : List Row) × (ks : List Row) × (k : ℕ) × laws.On x.0 b
              r a
          × Split pred a ks k
          × (b ++ ks ≡ final)
          × (n ≡ suc k)
          × (length a < bound))

  Found-weaken :
      (final : List Row) (n bound : ℕ) (x : S × Bool)
      → Found final n bound x
      → Found final n (suc bound) x
  Found-weaken final n bound x (inl h) = inl h
  Found-weaken final n bound x (inr (m, b, r, a, ks, k, on, p, e, f, lt)) =
      inr (m, b, r, a, ks, k, on, p, e, f, omega arith)

  next_row-Found :
      (m : ℕ) (s : S) (b final : List Row) {rs ks : List Row} {n : ℕ}
      → Split pred rs ks n
      → laws.Before s b rs
      → b ++ ks ≡ final
      → length rs < m
      → Succeeds (Found final n (length rs)) (next_row scan pred m s)
  unfolding next_row
  next_row-Found zero s b final p before e lt = absurd (omega arith)
  next_row-Found (suc m) s b final done before e lt =
      Succeeds-bind (λ x. (x.1 ≡ false) × laws.Past x.0 b) (Found final 0 0) (scan.next s) _
        (laws.next_none s b before)
        (λ x (none_left, past).
          rw none_left (inl (refl, refl, subst (laws.Past x.0) (sym (append-nil b) ∙ e) past)))
  next_row-Found (suc m) s b final (keep {r = r} {rs = rs} {ks = ks} {n = n} sat p) before e lt =
      Succeeds-bind (λ x. (x.1 ≡ true) × laws.On x.0 b r rs) (Found final n (suc (length rs)))
        (scan.next s) _ (laws.next_some s b r rs before)
        (λ x (found, on).
          rw (found, laws.value_on x.0 b r rs on, sat)
            (Succeeds-map (Found final n (length rs)) (Found final n (suc (length rs))) _
              (next_row-Found m x.0 (b ++ r ∷ []) final p (laws.pass_on x.0 b r rs on)
                (append_assoc b (r ∷ []) ks ∙ e) (omega arith))
              (Found-weaken final n (length rs))))
  next_row-Found (suc m) s b final (drop {r = r} {rs = rs} {ks = ks} {n = n} sat p) before e lt =
      Succeeds-bind (λ x. (x.1 ≡ true) × laws.On x.0 b r rs) (Found final (suc n) (suc (length rs)))
        (scan.next s) _ (laws.next_some s b r rs before)
        (λ x (found, on).
          rw (found, laws.value_on x.0 b r rs on, sat)
            (inr (refl, b, r, rs, ks, n, on, p, e, refl, omega arith)))

  -- The table is at its end, with these rows left, and the count is this.
  abbrev Deleted : List Row → ℕ → S × ℕ → Type 0
  Deleted final n x = laws.Past x.0 final × (x.1 ≡ n)

  delete_rows-Deleted :
      (fuel k : ℕ) (s : S) (b final : List Row) (count : ℕ) {rs ks : List Row} {n : ℕ}
      → Split pred rs ks n
      → laws.Before s b rs
      → b ++ ks ≡ final
      → length rs < fuel
      → length rs < k
      → Succeeds
          (Deleted final (count + n))
          (delete_rows (select_scan scan pred fuel) (select_update (some u)) k s count)
  unfolding delete_rows
  delete_rows-Deleted fuel zero s b final count p before e lt lt' = absurd (omega arith)
  delete_rows-Deleted fuel (suc k) s b final count {rs = rs} {ks = ks} {n = n} p before e lt lt' =
      Succeeds-bind (Found final n (length rs)) (Deleted final (count + n))
        (next_row scan pred fuel s) _ (next_row-Found fuel s b final p before e lt)
        (λ x found. elim found [
          | inl (none_left, no_more, past) ↦ rw none_left (past, omega arith)
          | inr (more, b', r, a, ks', n', on, p', e', f, less) ↦ rw more (
              Succeeds-bind (λ s'. laws.Before s' b' a) (Deleted final (count + n)) (u.remove x.0) _
                (laws.remove_on x.0 b' r a on)
                (λ s' before'.
                  Succeeds-map (Deleted final (suc count + n')) (Deleted final (count + n)) _
                    (delete_rows-Deleted fuel k s' b' final (suc count) p' before' e' (omega arith)
                      (omega arith))
                    (λ y (past, g). (past, omega arith))))
        ])

  -- A deletion returns, on a table whose scan keeps the laws and stands before its rows. The rows
  -- that are left are those that do not satisfy the predicate, in their order, and the count is the
  -- number of the others. The test of each row returns, and the fuel is above the number of rows.
  pub execute_delete-Deleted :
      (fuel : ℕ) (s : S) (rs ks : List Row) (n : ℕ)
      → Split pred rs ks n
      → laws.Before s [] rs
      → length rs < fuel
      → Succeeds (λ x. laws.Past x.0 ks × (x.1 ≡ n)) (execute_delete scan u fuel pred s)
  unfolding execute_delete
  execute_delete-Deleted fuel s rs ks n p before lt =
      Succeeds-bind (Deleted ks (0 + n)) (Deleted ks n) _ _
        (delete_rows-Deleted fuel fuel s [] ks 0 p before refl lt lt)
        (λ x (past, e).
          Succeeds-bind (λ s'. laws.Past s' ks) (Deleted ks n) (scan.close x.0) _
            (laws.close_past x.0 ks past) (λ s' past'. (past', e ∙ omega arith)))
