-- ===== src/Materialize/SortPlan.antt =====
-- materialize/SortPlan.cpp and the `open` of materialize/MaterializePlan.cpp: rows are copied to
-- temporary tables. The tables and the scans on them are a parameter, on a state that all scans
-- share. The loops over rows and over lists of runs have fuel.
pub mod Merging
use sample_db.Base.{
  ℕ, zero, suc, List, [], ◌∷◌, ◌++◌, length, Bool, true, false, Str, pos, int_lt, Result, ok, err,
  starved, ◌>>=◌, ltb,
}
use sample_db.Scan.Interface.{ScanOps, UpdateOps}
use sample_db.Materialize.RecordComparator.{compare}

-- On a state `W`: temporary tables `T`, and open scans `H` on them.
pub record TempTables (W T H : Type 0) : Type 0 where
  pub new_temp : W → Result (W × T)
  pub open_temp : T → W → Result (W × H)
  pub scan_of : H → ScanOps W
  pub update_of : H → UpdateOps W

module _ {W T H : Type 0} (temps : TempTables W T H) (fields : List Str) where
  -- The loop of `copy`.
  unfoldable pub copy_fields : ScanOps W → UpdateOps W → List Str → W → Result W
  copy_fields src dest [] w = ok w
  copy_fields src dest (field ∷ names) w = do
    c ← src.get_value w field
    w' ← dest.set_value w field c
    copy_fields src dest names w'

  -- `copy`: a new row with the values of the current one; then the source's next row.
  unfoldable pub copy : ScanOps W → H → W → Result (W × Bool)
  copy src dest w = do
    w1 ← (temps.update_of dest).insert w
    w2 ← copy_fields src (temps.update_of dest) fields w1
    src.next w2

  -- `while (hasmore) hasmore = copy(src, dest)`.
  unfoldable pub copy_rest : ℕ → ScanOps W → H → Bool → W → Result W
  copy_rest zero src dest more w = err starved
  copy_rest (suc n) src dest more w = elim more [
    | false ↦ ok w
    | true ↦ do (w', more') ← copy src dest w; copy_rest n src dest more' w'
  ]

  -- The loop of `materialize`, where the source goes on before a row is copied.
  unfoldable pub materialize_rows : ℕ → ScanOps W → H → W → Result W
  materialize_rows n src dest w = do (w', more) ← src.next w; copy_rest n src dest more w'

  -- `open` of a materialized plan.
  unfoldable pub open_materialized : ℕ → ScanOps W → T → W → Result (W × H)
  open_materialized n src temp w = do
    (w1, dest) ← temps.open_temp temp w
    w2 ← materialize_rows n src dest w1
    w3 ← src.close w2
    w4 ← (temps.scan_of dest).before_first w3
    ok (w4, dest)

  module _ (sort_fields : List Str) where
    -- The loop of `splitIntoRuns`: a row that is less than the last one begins a new run.
    unfoldable pub split_loop : ℕ → ScanOps W → H → List T → W → Result (W × List T)
    split_loop zero src current runs w = err starved
    split_loop (suc n) src current runs w = do
      (w1, more) ← copy src current w
      elim more [
        | false ↦ do w2 ← (temps.scan_of current).close w1; ok (w2, runs)
        | true ↦ do
          c ← compare sort_fields (src.get_value w1) ((temps.scan_of current).get_value w1)
          elim (int_lt c (pos 0)) [
            | false ↦ split_loop n src current runs w1
            | true ↦ do
              w2 ← (temps.scan_of current).close w1
              (w3, temp) ← temps.new_temp w2
              (w4, current') ← temps.open_temp temp w3
              split_loop n src current' (runs ++ temp ∷ []) w4
          ]
      ]

    -- No rows are no runs.
    unfoldable pub split_into_runs : ℕ → ScanOps W → W → Result (W × List T)
    split_into_runs n src w = do
      w1 ← src.before_first w
      (w2, more) ← src.next w1
      elim more [
        | false ↦ ok (w2, [])
        | true ↦ do
          (w3, temp) ← temps.new_temp w2
          (w4, current) ← temps.open_temp temp w3
          split_loop n src current (temp ∷ []) w4
      ]

    -- The first loop of `mergeTwoRuns`, while both runs have rows.
    unfoldable pub merge_rows : ℕ → H → H → H → Bool → Bool → W → Result (W × Bool × Bool)
    merge_rows zero src1 src2 dest more1 more2 w = err starved
    merge_rows (suc n) src1 src2 dest false more2 w = ok (w, false, more2)
    merge_rows (suc n) src1 src2 dest true false w = ok (w, true, false)
    merge_rows (suc n) src1 src2 dest true true w = do
      c ← compare sort_fields ((temps.scan_of src1).get_value w) ((temps.scan_of src2).get_value w)
      elim (int_lt c (pos 0)) [
        | true ↦ do
          (w', more) ← copy (temps.scan_of src1) dest w
          merge_rows n src1 src2 dest more true w'
        | false ↦ do
          (w', more) ← copy (temps.scan_of src2) dest w
          merge_rows n src1 src2 dest true more w'
      ]

    -- Then the rows that are left in one of them.
    unfoldable pub merge_rest : ℕ → H → H → H → Bool → Bool → W → Result W
    merge_rest n src1 src2 dest true more2 w = copy_rest n (temps.scan_of src1) dest true w
    merge_rest n src1 src2 dest false more2 w = copy_rest n (temps.scan_of src2) dest more2 w

    unfoldable pub merge_two_runs : ℕ → T → T → W → Result (W × T)
    merge_two_runs n run1 run2 w = do
      (w1, src1) ← temps.open_temp run1 w
      (w2, src2) ← temps.open_temp run2 w1
      (w3, result) ← temps.new_temp w2
      (w4, dest) ← temps.open_temp result w3
      (w5, more1) ← (temps.scan_of src1).next w4
      (w6, more2) ← (temps.scan_of src2).next w5
      (w7, left1, left2) ← merge_rows n src1 src2 dest more1 more2 w6
      w8 ← merge_rest n src1 src2 dest left1 left2 w7
      w9 ← (temps.scan_of src1).close w8
      w10 ← (temps.scan_of src2).close w9
      w11 ← (temps.scan_of dest).close w10
      ok (w11, result)

    -- `doAMergeIteration`: two runs at a time; a run that is left over stays.
    unfoldable pub do_a_merge_iteration : ℕ → List T → W → Result (W × List T)
    do_a_merge_iteration n [] w = ok (w, [])
    do_a_merge_iteration n (run ∷ []) w = ok (w, run ∷ [])
    do_a_merge_iteration n (run1 ∷ run2 ∷ runs) w = do
      (w1, run) ← merge_two_runs n run1 run2 w
      (w2, rest) ← do_a_merge_iteration n runs w1
      ok (w2, run ∷ rest)

    -- The loop of `open`, on fuel of its own.
    unfoldable pub merge_all : ℕ → ℕ → List T → W → Result (W × List T)
    merge_all n zero runs w = err starved
    merge_all n (suc k) runs w = elim (ltb 2 (length runs)) [
      | false ↦ ok (w, runs)
      | true ↦ do (w', runs') ← do_a_merge_iteration n runs w; merge_all n k runs' w'
    ]

    -- `open`: the runs of a sort scan.
    unfoldable pub open_runs : ℕ → ℕ → ScanOps W → W → Result (W × List T)
    open_runs n k src w = do
      (w1, runs) ← split_into_runs n src w
      w2 ← src.close w1
      merge_all n k runs w2
