-- ===== src/Materialize/SortScan.antt =====
-- materialize/SortScan.cpp: the rows of at most two sorted runs, as one sorted scan.
pub mod Rows
pub mod Order
use sample_db.Base.{
  List, [], ◌∷◌, Bool, true, false, ◌&&◌, ◌||◌, Option, none, some, Str, ℤ, pos, int_lt, Result, ok,
  err, fault, ◌>>=◌, of_option, if◌then◌else◌,
}
use sample_db.Scan.Constant.{Constant}
use sample_db.Scan.Interface.{ScanOps, UpdateOps, Rid}
use sample_db.Materialize.RecordComparator.{compare}

-- `_s1` or `_s2`.
pub data Which : Type 0 where
  first second : Which

pub record SortScan (S : Type 0) : Type 0 where
  pub s1 : S
  pub s2 : Option S
  pub current : Option Which
  pub has_more1 : Bool
  pub has_more2 : Bool
  pub saved_position : List Rid

module _ {S : Type 0} (scan : ScanOps S) (fields : List Str) where
  -- The second run, if there is one, at its first row.
  unfoldable pub open_second : SortScan S → List S → Result (SortScan S)
  open_second st [] = ok st
  open_second st (s ∷ runs) = do
    (s', more) ← scan.next s
    ok (record st { s2 = some s'; has_more2 = more })

  -- The constructor, on runs that were opened: it reads the first of them, and from the third on
  -- none.
  unfoldable pub new_sort_scan : List S → Result (SortScan S)
  new_sort_scan [] = err fault
  new_sort_scan (s ∷ runs) = do
    (s', more) ← scan.next s
    open_second
        (record {
          s1 = s';
          s2 = none;
          current = none;
          has_more1 = more;
          has_more2 = false;
          saved_position = [];
        })
        runs

  -- The end of `beforeFirst`: the second run from its start.
  unfoldable pub restart_second : SortScan S → Option S → Result (SortScan S)
  restart_second st none = ok (record st { current = none })
  restart_second st (some s) = do
    s' ← scan.before_first s
    (s'', more) ← scan.next s'
    ok (record st { s2 = some s''; has_more2 = more; current = none })

  unfoldable pub before_first : SortScan S → Result (SortScan S)
  before_first st = do
    s ← scan.before_first st.s1
    (s', more) ← scan.next s
    restart_second (record st { s1 = s'; has_more1 = more }) st.s2

  -- The run of the current row goes to its next row.
  unfoldable pub advance : SortScan S → Option Which → Result (SortScan S)
  advance st none = ok st
  advance st (some first) = do
    (s, more) ← scan.next st.s1
    ok (record st { s1 = s; has_more1 = more })
  advance st (some second) = do
    s ← of_option st.s2 fault
    (s', more) ← scan.next s
    ok (record st { s2 = some s'; has_more2 = more })

  -- Which run has the next row: of two, the first if its row is less.
  unfoldable pub choose : SortScan S → Bool → Bool → Result (Option Which)
  choose st false false = ok none
  choose st true false = ok (some first)
  choose st false true = ok (some second)
  choose st true true = do
    s2 ← of_option st.s2 fault
    c ← compare fields (scan.get_value st.s1) (scan.get_value s2)
    ok (some (if int_lt c (pos 0) then first else second))

  -- Without a row the current run stays.
  abbrev pub chosen : SortScan S → Option Which → SortScan S × Bool
  chosen st none = (st, false)
  chosen st (some w) = (record st { current = some w }, true)

  unfoldable pub next : SortScan S → Result (SortScan S × Bool)
  next st = do
    st' ← advance st st.current
    w ← choose st' st'.has_more1 st'.has_more2
    ok (chosen st' w)

  -- The run that has the current row.
  unfoldable pub current_scan : SortScan S → Option Which → Result S
  current_scan st none = err fault
  current_scan st (some first) = ok st.s1
  current_scan st (some second) = of_option st.s2 fault

  unfoldable pub close_second : SortScan S → Option S → Result (SortScan S)
  close_second st none = ok st
  close_second st (some s) = do s' ← scan.close s; ok (record st { s2 = some s' })

  unfoldable pub close : SortScan S → Result (SortScan S)
  close st = do s ← scan.close st.s1; close_second (record st { s1 = s }) st.s2

  unfoldable pub get_value : SortScan S → Str → Result Constant
  get_value st field = do s ← current_scan st st.current; scan.get_value s field

  unfoldable pub get_int : SortScan S → Str → Result ℤ
  get_int st field = do s ← current_scan st st.current; scan.get_int s field

  unfoldable pub get_bool : SortScan S → Str → Result Bool
  get_bool st field = do s ← current_scan st st.current; scan.get_bool s field

  unfoldable pub get_string : SortScan S → Str → Result Str
  get_string st field = do s ← current_scan st st.current; scan.get_string s field

  -- `hasField` is asked of the current run: before the first row there is none.
  unfoldable pub has_field : SortScan S → Str → Result Bool
  has_field st field = do s ← current_scan st st.current; ok (scan.has_field s field)

  unfoldable pub save_position : UpdateOps S → SortScan S → Result (SortScan S)
  save_position u st = do
    rid1 ← u.get_rid st.s1
    s2 ← of_option st.s2 fault
    rid2 ← u.get_rid s2
    ok (record st { saved_position = rid1 ∷ rid2 ∷ [] })

  -- Both runs go to the positions of the last `savePosition`.
  unfoldable pub move_back : UpdateOps S → SortScan S → List Rid → Result (SortScan S)
  move_back u st (rid1 ∷ rid2 ∷ rids) = do
    s1 ← u.move_to_rid st.s1 rid1
    s2 ← of_option st.s2 fault
    s2' ← u.move_to_rid s2 rid2
    ok (record st { s1 = s1; s2 = some s2' })
  move_back u st (rid1 ∷ []) = err fault
  move_back u st [] = err fault

  abbrev pub restore_position : UpdateOps S → SortScan S → Result (SortScan S)
  restore_position u st = move_back u st st.saved_position
