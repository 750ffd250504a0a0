-- ===== src/Examples/Operators.antt =====
-- Sorting and grouping of rows that are listed, and a search in a page of index records.
use mathlib.Core.List.{Perm}
use sample_db.Scan.Constant.Order.{is_int}
use sample_db.Materialize.SortScan.Order.{InOrder, new_sort_scan-InOrder}
use sample_db.Base.{
  ◌≡◌, refl, List, [], ◌∷◌, ◌++◌, codes, true, none, some, ℕ, ℤ, pos, negsuc, ◌+ℤ◌, ok, ◌>>=◌,
  Succeeds, arith, str_beq, find, put, replicate,
}
use sample_db.File.Page.{Page, get_int}
use sample_db.File.Page.Words.{decode_int, le_value, of_word}
use sample_db.Tx.Transaction.{Transaction}
use sample_db.Scan.Constant.{int_constant, constant_lt, constant_gt, constant_eq, compare_by}
use sample_db.Scan.Predicate.{Row}
use sample_db.Scan.SelectScan.Rows.{Yields}
use sample_db.Record.Schema.{field_type}
use sample_db.Record.Layout.{Layout}
use sample_db.Record.Layout
use sample_db.Materialize.RecordComparator.{compare}
use sample_db.Materialize.SortScan.{SortScan, new_sort_scan}
use sample_db.Materialize.SortScan.Rows.{SortYields}
use sample_db.Materialize.AggregationFn.{new_count_fn, count_fn, process_first, process_next}
use sample_db.Materialize.GroupByScan.{
  GroupByScan, GroupValue, new_group_value, group_eq, same_value, each_fn, next,
}
use sample_db.Materialize.GroupByScan.Rows.{Span, other, same, fold_fns, Stands, next-Span}
use sample_db.Indexing.BTreePage.{BTreePage, data_val, find_slot_before}
use sample_db.Indexing.BTreePage.Search.{HasKeys, IsPlace, find_slot_before-IsPlace}
use sample_db.Examples.Scans.{Listed, listed_scan, no_row, aged, people, people-Yields}
use sample_db.Examples.Recovery.{at_once, transaction, data_block}

abbrev age : List (List ℕ)
age = codes "age" ∷ []

abbrev others : List Row
others = aged (pos 25) ∷ []

others-Yields : Yields listed_scan (no_row, others) others
others-Yields = ((aged (pos 25), []), refl, refl, ((aged (pos 25), []), refl))

new_sort_scan-InOrder_example :
    (st : SortScan Listed) × (out : List Row) × (new_sort_scan listed_scan age
        ((no_row, people) ∷ (no_row, others) ∷ [])
      ≡ ok st)
    × SortYields listed_scan age st out
    × Perm out (people ++ others)
    × InOrder age out
unfolding compare constant_lt constant_gt compare_by
new_sort_scan-InOrder_example =
    new_sort_scan-InOrder listed_scan (λ name. true) age (no_row, people) (no_row, others) people
      others people-Yields others-Yields
      (
        ((int_constant (pos 20), refl, is_int (pos 20)), tt),
        (((int_constant (pos 30), refl, is_int (pos 30)), tt), tt),
      )
      (((int_constant (pos 25), refl, is_int (pos 25)), tt), tt) ((negsuc 0, refl, refl), (tt, tt))
      (tt, tt)

-- Two rows of one group, and one of another.
abbrev two_and_one : List Row
two_and_one = aged (pos 20) ∷ aged (pos 30) ∷ []

abbrev grouping : GroupByScan Listed
grouping = record {
  src = (aged (pos 20), two_and_one);
  group_fields = age;
  agg_fns = new_count_fn ∷ [];
  current_group = none;
  more_groups = true;
}

abbrev twenty : GroupValue
twenty = (codes "age", int_constant (pos 20)) ∷ []

members : Span age twenty two_and_one (aged (pos 20) ∷ []) (aged (pos 30) ∷ [])
unfolding new_group_value group_eq same_value constant_eq compare_by put find str_beq
members =
    same {gv = twenty} refl refl (other {gv = (codes "age", int_constant (pos 30)) ∷ []} refl refl)

made : new_group_value (aged (pos 20)) age ≡ ok twenty
unfolding new_group_value put
made = refl

firsts : each_fn (process_first (aged (pos 20))) (new_count_fn ∷ []) ≡ ok (count_fn (pos 1) ∷ [])
unfolding each_fn process_first
firsts = refl

counted : fold_fns (aged (pos 20) ∷ []) (count_fn (pos 1) ∷ []) ≡ ok (count_fn (pos 2) ∷ [])
unfolding fold_fns each_fn process_next ◌+ℤ◌
counted = refl

next-Span_example :
    (s : Listed) × (next listed_scan 3 grouping
      ≡ ok (
        record {
          src = s;
          group_fields = age;
          agg_fns = count_fn (pos 2) ∷ [];
          current_group = some twenty;
          more_groups = true;
        },
        true,
      ))
    × Stands listed_scan s (aged (pos 30) ∷ [])
next-Span_example =
    next-Span listed_scan 3 grouping (aged (pos 20)) twenty (count_fn (pos 1) ∷ [])
      (count_fn (pos 2) ∷ []) refl (refl, people-Yields) made firsts members counted (omega arith)

-- A page of two records with the keys 10 and 20, in slots of four bytes.
abbrev key_page : Page
key_page = record {
  bytes = replicate 4 0 ++ (2 ∷ 0 ∷ 0 ∷ 0 ∷ 10 ∷ 0 ∷ 0 ∷ 0 ∷ 20 ∷ replicate 51 0);
}

abbrev reader : Transaction
reader = record transaction {
  bm = record transaction.bm {
    pool =
        record { page = key_page; blk = data_block; pins = pos 1; txnum = pos 7; lsn = pos 2 } ∷ [];
  };
}

abbrev keys : BTreePage
keys = record {
  blk = data_block;
  layout = record {
    schema = record {
      fields = data_val ∷ [];
      field_info = (data_val, record { type = 0; length = 0 }) ∷ [];
    };
    offsets = (data_val, 0) ∷ [];
    slot_size = 4;
  };
}

keys-HasKeys : HasKeys reader keys key_page 0 2
unfolding find str_beq field_type Layout.offset get_int decode_int le_value of_word
keys-HasKeys = record {
  sees = record {
    index = 0;
    frame = _;
    mine = refl;
    listed = refl;
    there = refl;
    assigned = refl;
    page = refl;
  };
  type = refl;
  field = refl;
  number = refl;
  inside = λ k lt. omega (arith, lt);
}

find_slot_before-IsPlace_example :
    Succeeds
      (λ (x : Transaction × ℤ).
        (x.0 ≡ reader) × ((m : ℕ) × (x.1 ≡ pos m +ℤ negsuc 0) × IsPlace key_page 4 0 2 (pos 15) m))
      (find_slot_before at_once 3 reader keys (int_constant (pos 15)))
find_slot_before-IsPlace_example =
    find_slot_before-IsPlace at_once 3 reader keys key_page 0 2 (pos 15) keys-HasKeys (omega arith)
