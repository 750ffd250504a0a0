-- ===== src/Materialize/SortPlan/Merging.antt =====
-- The loop of merges in `SortPlan::open` comes to an end.
use mathlib.Core.Path.{subst}
use sample_db.Base.{
  ℕ, zero, suc, ◌+◌, ◌≤◌, ◌≡◌, sym, List, [], ◌∷◌, ◌++◌, append_assoc, length, Str, ◌>>=◌, Succeeds,
  Succeeds-bind, arith,
}
use sample_db.Materialize.SortPlan.{TempTables, merge_two_runs, do_a_merge_iteration, merge_all}

-- `Runs w runs` says that the state has these runs, one after the other.
module _ {W T H : Type 0} (temps : TempTables W T H) (fields sort_fields : List Str) (n : ℕ)
    (Runs : W → List T → Type 0) where
  -- A merge of two neighbours among the runs returns, and its result takes their place.
  abbrev pub Merges : Type 0
  Merges =
      (w : W) (before : List T) (run1 run2 : T) (behind : List T)
      → Runs w (before ++ run1 ∷ run2 ∷ behind)
      → Succeeds (λ x. Runs x.0 (before ++ x.1 ∷ behind))
          (merge_two_runs temps fields sort_fields n run1 run2 w)

  -- Half of the runs are left, rounded up.
  abbrev Halved : List T → List T → W × List T → Type 0
  Halved before runs x = Runs x.0 (before ++ x.1) × (length x.1 + length x.1 ≤ suc (length runs))

  do_a_merge_iteration-Halved :
      Merges
      → (before runs : List T) (w : W) → Runs w (before ++ runs)
      → Succeeds (Halved before runs) (do_a_merge_iteration temps fields sort_fields n runs w)
  unfolding do_a_merge_iteration
  do_a_merge_iteration-Halved merges before [] w g = (g, omega arith)
  do_a_merge_iteration-Halved merges before (run ∷ []) w g = (g, omega arith)
  do_a_merge_iteration-Halved merges before (run1 ∷ run2 ∷ runs) w g =
      Succeeds-bind (λ x. Runs x.0 (before ++ x.1 ∷ runs)) (Halved before (run1 ∷ run2 ∷ runs)) _ _
        (merges w before run1 run2 runs g)
        (λ x g1.
          Succeeds-bind (Halved (before ++ x.1 ∷ []) runs) (Halved before (run1 ∷ run2 ∷ runs)) _ _
            (do_a_merge_iteration-Halved merges (before ++ x.1 ∷ []) runs x.0
              (subst (Runs x.0) (sym (append_assoc before (x.1 ∷ []) runs)) g1))
            (λ y (g2, h). (subst (Runs y.0) (append_assoc before (x.1 ∷ []) y.1) g2, omega arith)))

  -- Another iteration.
  merge_all_more :
      (k : ℕ) (runs : List T) (w : W)
      → suc 2 ≤ length runs
      → merge_all temps fields sort_fields n (suc k) runs w ≡ (
          do_a_merge_iteration temps fields sort_fields n runs w >>= λ x.
          merge_all temps fields sort_fields n k x.1 x.0)
  unfolding merge_all
  merge_all_more k runs w h = ground arith

  -- With fuel for one step more than there are runs, the loop of merges returns, and the state has
  -- the runs that it leaves, at most two. The state has the runs at the start; and a merge of two
  -- neighbours among the runs that the state has returns, and puts its result in their place.
  pub merge_all-Succeeds :
      Merges
      → (k : ℕ) (runs : List T) (w : W) → Runs w runs
      → length runs ≤ k
      → Succeeds
          (λ x. Runs x.0 x.1 × (length x.1 ≤ 2))
          (merge_all temps fields sort_fields n (suc k) runs w)
  unfolding merge_all
  merge_all-Succeeds merges k [] w g le = (g, omega arith)
  merge_all-Succeeds merges k (a ∷ []) w g le = (g, omega arith)
  merge_all-Succeeds merges k (a ∷ b ∷ []) w g le = (g, omega arith)
  merge_all-Succeeds merges zero (a ∷ b ∷ c ∷ runs) w g le = absurd (omega arith)
  merge_all-Succeeds merges (suc k) (a ∷ b ∷ c ∷ runs) w g le =
      rw (merge_all_more (suc k) (a ∷ b ∷ c ∷ runs) w (omega arith)) (
        Succeeds-bind (Halved [] (a ∷ b ∷ c ∷ runs)) _ _ _
          (do_a_merge_iteration-Halved merges [] (a ∷ b ∷ c ∷ runs) w g)
          (λ x (g1, h). merge_all-Succeeds merges k x.1 x.0 g1 (omega arith)))
