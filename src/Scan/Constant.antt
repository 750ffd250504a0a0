-- ===== src/Scan/Constant.antt =====
-- scan/Constant.cpp: an integer or a string. Both pointers may be set, or neither (the null
-- constant), and a null pointer that is read is a fault.
pub mod Order
use sample_db.Base.{
  ◌≡◌, Bool, true, false, not, Option, none, some, Str, str_eq, str_lt, ℤ, int_eq, int_lt, ◌+ℤ◌,
  Result, ok, err, fault, ◌>>=◌, of_option, to_int, ◌==◌, Eq, ◌&&◌,
}

pub record Constant : Type 0 where
  pub ival : Option ℤ
  pub sval : Option Str

abbrev pub int_constant : ℤ → Constant
int_constant n = record { ival = some n; sval = none }

abbrev pub string_constant : Str → Constant
string_constant s = record { ival = none; sval = some s }

abbrev pub null_constant : Constant
null_constant = record { ival = none; sval = none }

abbrev pub is_none {ℓ} : {A : Type ℓ} → Option A → Bool
is_none none = true
is_none (some a) = false

-- `isNull`.
abbrev pub is_null : Constant → Bool
is_null c = is_none c.ival && is_none c.sval

-- The comparisons branch on the left side's integer.
unfoldable pub compare_by :
    (ℤ → ℤ → Bool) → (Str → Str → Bool) → Option ℤ → Constant → Constant → Result Bool
compare_by ints strings (some n) lhs rhs = do m ← of_option rhs.ival fault; ok (ints n m)
compare_by ints strings none lhs rhs = do
  s ← of_option lhs.sval fault
  t ← of_option rhs.sval fault
  ok (strings s t)

-- `operator==`.
unfoldable pub constant_eq : Constant → Constant → Result Bool
unfolding compare_by
constant_eq lhs rhs = compare_by (λ n m. n == m) (λ s t. s == t) lhs.ival lhs rhs

-- `operator<` and `operator>`.
unfoldable pub constant_lt : Constant → Constant → Result Bool
unfolding compare_by
constant_lt lhs rhs = compare_by int_lt str_lt lhs.ival lhs rhs

unfoldable pub constant_gt : Constant → Constant → Result Bool
unfolding compare_by
constant_gt lhs rhs = compare_by (λ n m. int_lt m n) (λ s t. str_lt t s) lhs.ival lhs rhs

-- `operator+=`: only integers are added, and a sum that does not fit an `int` overflows.
unfoldable pub add_constant : Constant → Constant → Result Constant
add_constant lhs rhs = elim lhs.ival [
  | none ↦ ok lhs
  | some n ↦ do m ← of_option rhs.ival fault; k ← to_int (n +ℤ m); ok (record lhs { ival = some k })
]

abbrev pub keep_or {ℓ} : {A : Type ℓ} → Option A → Option A → Option A
keep_or none old = old
keep_or (some a) old = some a

-- `operator=`: what the other constant does not have is kept.
unfoldable pub assign : Constant → Constant → Constant
assign target other = record {
  ival = keep_or other.ival target.ival;
  sval = keep_or other.sval target.sval;
}

-- `asInt` and `asString`.
abbrev pub as_int : Constant → Result ℤ
as_int c = of_option c.ival fault

abbrev pub as_string : Constant → Result Str
as_string c = of_option c.sval fault
