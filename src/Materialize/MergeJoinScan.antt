-- ===== src/Materialize/MergeJoinScan.antt =====
-- materialize/MergeJoinScan.cpp: the pairs of rows of two sorted scans that agree on a field.
use sample_db.Base.{
  ℕ, zero, suc, List, Bool, true, false, Str, ℤ, Result, ok, err, starved, ◌>>=◌, if◌then◌else◌,
}
use sample_db.Scan.Constant.{Constant, assign, constant_eq, constant_lt, constant_gt}
use sample_db.Scan.Interface.{ScanOps, UpdateOps}
use sample_db.Materialize.SortScan.{SortScan}
use sample_db.Materialize.SortScan

-- `S` is the state of the first scan, `T` that of the runs of the second.
pub record MergeJoinScan (S T : Type 0) : Type 0 where
  pub s1 : S
  pub s2 : SortScan T
  pub join_value : Constant

module _ {S T : Type 0} (scan : ScanOps S) (run : ScanOps T) (u : UpdateOps T)
    (sort_fields : List Str) (fld1 fld2 : Str) where
  unfoldable pub close : MergeJoinScan S T → Result (MergeJoinScan S T)
  close j = do
    s1 ← scan.close j.s1
    s2 ← SortScan.close run sort_fields j.s2
    ok (record j { s1 = s1; s2 = s2 })

  unfoldable pub before_first : MergeJoinScan S T → Result (MergeJoinScan S T)
  before_first j = do
    s1 ← scan.before_first j.s1
    s2 ← SortScan.before_first run sort_fields j.s2
    ok (record j { s1 = s1; s2 = s2 })

  -- `_s2->getValue(_fld2)`.
  abbrev pub value2 : MergeJoinScan S T → Result Constant
  value2 j = SortScan.get_value run sort_fields j.s2 fld2

  -- The loop at the end of `next`, with fuel: the scan with the smaller value goes on.
  unfoldable pub merge_loop :
      ℕ → MergeJoinScan S T → Bool → Bool → Result (MergeJoinScan S T × Bool)
  merge_loop zero j more1 more2 = err starved
  merge_loop (suc fuel) j false more2 = ok (j, false)
  merge_loop (suc fuel) j true false = ok (j, false)
  merge_loop (suc fuel) j true true = do
    v1 ← scan.get_value j.s1 fld1
    v2 ← value2 j
    less ← constant_lt v1 v2
    elim less [
      | true ↦ do (s1, more1) ← scan.next j.s1; merge_loop fuel (record j { s1 = s1 }) more1 true
      | false ↦ do
        greater ← constant_gt v1 v2
        elim greater [
          | true ↦ do
            (s2, more2) ← SortScan.next run sort_fields j.s2
            merge_loop fuel (record j { s2 = s2 }) true more2
          | false ↦ do
            s2 ← SortScan.save_position run sort_fields u j.s2
            ok (record j { s2 = s2; join_value = assign j.join_value v2 }, true)
        ]
    ]

  -- The second test of `next`: another row of the first scan with the value of the last pair.
  unfoldable pub next_first : ℕ → MergeJoinScan S T → Bool → Result (MergeJoinScan S T × Bool)
  next_first fuel j more2 = do
    (s1, more1) ← scan.next j.s1
    let j' : MergeJoinScan S T = record j { s1 = s1 }
    same ← if more1 then (scan.get_value s1 fld1 >>= λ v. constant_eq v j.join_value) else ok false
    elim same [
      | true ↦ do
        s2 ← SortScan.restore_position run sort_fields u j'.s2
        ok (record j' { s2 = s2 }, true)
      | false ↦ merge_loop fuel j' more1 more2
    ]

  -- `next`: the first test asks for the value of the second scan when that has NO more rows.
  unfoldable pub next : ℕ → MergeJoinScan S T → Result (MergeJoinScan S T × Bool)
  next fuel j = do
    (s2, more2) ← SortScan.next run sort_fields j.s2
    let j' : MergeJoinScan S T = record j { s2 = s2 }
    same ← if more2 then ok false else (value2 j' >>= λ v. constant_eq v j.join_value)
    elim same [ true ↦ ok (j', true) | false ↦ next_first fuel j' more2 ]

  -- A field is the first scan's, if that has it.
  unfoldable pub get_value : MergeJoinScan S T → Str → Result Constant
  get_value j field =
      if scan.has_field j.s1 field
      then scan.get_value j.s1 field
      else SortScan.get_value run sort_fields j.s2 field

  unfoldable pub get_int : MergeJoinScan S T → Str → Result ℤ
  get_int j field =
      if scan.has_field j.s1 field
      then scan.get_int j.s1 field
      else SortScan.get_int run sort_fields j.s2 field

  unfoldable pub get_bool : MergeJoinScan S T → Str → Result Bool
  get_bool j field =
      if scan.has_field j.s1 field
      then scan.get_bool j.s1 field
      else SortScan.get_bool run sort_fields j.s2 field

  unfoldable pub get_string : MergeJoinScan S T → Str → Result Str
  get_string j field =
      if scan.has_field j.s1 field
      then scan.get_string j.s1 field
      else SortScan.get_string run sort_fields j.s2 field

  unfoldable pub has_field : MergeJoinScan S T → Str → Result Bool
  has_field j field =
      if scan.has_field j.s1 field then ok true else SortScan.has_field run sort_fields j.s2 field
