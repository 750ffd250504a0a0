-- ===== src/Materialize/AggregationFn.antt =====
-- materialize/CountFn.cpp, MaxFn.cpp, MinFn.cpp and SumFn.cpp: the aggregation functions, each with
-- the value that it has so far. A scan is the value of a field in its current row.
use sample_db.Base.{◌++◌, Str, ℤ, pos, ◌+ℤ◌, Result, ok, to_int, ◌>>=◌, if◌then◌else◌}
use sample_db.Parse.Word
use sample_db.Scan.Constant.{
  Constant, int_constant, null_constant, assign, add_constant, constant_gt, constant_lt,
}
use sample_db.Scan.Predicate.{Row}

pub data AggregationFn : Type 0 where
  count_fn : ℤ → AggregationFn
  max_fn : Str → Constant → AggregationFn
  min_fn : Str → Constant → AggregationFn
  sum_fn : Str → Constant → AggregationFn

-- The constructors.
abbrev pub new_count_fn : AggregationFn
new_count_fn = count_fn (pos 0)

abbrev pub new_max_fn : Str → AggregationFn
new_max_fn field = max_fn field null_constant

abbrev pub new_min_fn : Str → AggregationFn
new_min_fn field = min_fn field null_constant

abbrev pub new_sum_fn : Str → AggregationFn
new_sum_fn field = sum_fn field null_constant

-- `processFirst` of the functions of a field: the value of the row is assigned.
unfoldable pub first_value : Row → Str → Constant → Result Constant
first_value row field value = do v ← row field; ok (assign value v)

unfoldable pub process_first : Row → AggregationFn → Result AggregationFn
unfolding first_value
process_first row (count_fn n) = ok (count_fn (pos 1))
process_first row (max_fn field value) = do v ← first_value row field value; ok (max_fn field v)
process_first row (min_fn field value) = do v ← first_value row field value; ok (min_fn field v)
process_first row (sum_fn field value) = do v ← first_value row field value; ok (sum_fn field v)

-- `processNext` of each function.
unfoldable pub max_next : Row → Str → Constant → Result Constant
unfolding constant_gt assign
max_next row field value = do
  v ← row field
  more ← constant_gt v value
  ok (if more then assign value v else value)

unfoldable pub min_next : Row → Str → Constant → Result Constant
unfolding constant_lt assign
min_next row field value = do
  v ← row field
  less ← constant_lt v value
  ok (if less then assign value v else value)

unfoldable pub sum_next : Row → Str → Constant → Result Constant
unfolding add_constant
sum_next row field value = do v ← row field; add_constant value v

unfoldable pub process_next : Row → AggregationFn → Result AggregationFn
unfolding max_next min_next sum_next
process_next row (count_fn n) = do k ← to_int (n +ℤ pos 1); ok (count_fn k)
process_next row (max_fn field value) = do v ← max_next row field value; ok (max_fn field v)
process_next row (min_fn field value) = do v ← min_next row field value; ok (min_fn field v)
process_next row (sum_fn field value) = do v ← sum_next row field value; ok (sum_fn field v)

-- `fieldName`.
abbrev pub field_name : AggregationFn → Str
field_name (count_fn n) = Word.count
field_name (max_fn field value) = Word.max ++ field
field_name (min_fn field value) = Word.min ++ field
field_name (sum_fn field value) = Word.sum ++ field

-- `value`.
abbrev pub value_of : AggregationFn → Constant
value_of (count_fn n) = int_constant n
value_of (max_fn field value) = value
value_of (min_fn field value) = value
value_of (sum_fn field value) = value
