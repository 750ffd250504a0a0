-- ===== src/Scan/Predicate.antt =====
-- scan/Expression.cpp, scan/Term.cpp and scan/Predicate.cpp. A scan is here what these classes use
-- of it: the value of a field in the current row.
pub mod Satisfied
pub mod Equates
use sample_db.Base.{
  ℕ, ◌*◌, List, [], ◌∷◌, ◌++◌, Bool, true, false, not, ◌&&◌, ◌||◌, Option, none, some, Str, str_eq,
  ◌==◌, Result, ok, err, ◌>>=◌, if◌then◌else◌, leb,
}
use sample_db.Scan.Constant.{Constant, null_constant, is_null, constant_eq}
use sample_db.Record.Schema.{Schema, has_field, add_all, empty_schema}

-- `scan->getValue(field)` in the current row.
abbrev pub Row : Type 0
Row = Str → Result Constant

-- An expression is a constant, or a field name with the null constant.
pub record Expression : Type 0 where
  pub value : Constant
  pub field_name : Str

abbrev pub constant_expression : Constant → Expression
constant_expression c = record { value = c; field_name = [] }

abbrev pub field_expression : Str → Expression
field_expression name = record { value = null_constant; field_name = name }

abbrev pub is_field_name : Expression → Bool
is_field_name e = not (e.field_name == [])

unfoldable pub evaluate : Expression → Row → Result Constant
evaluate e row = if is_null e.value then row e.field_name else ok e.value

unfoldable pub expression_applies_to : Expression → Schema → Bool
unfolding has_field
expression_applies_to e schema = if is_null e.value then has_field schema e.field_name else true

pub record Term : Type 0 where
  pub lhs : Expression
  pub rhs : Expression

unfoldable pub term_is_satisfied : Term → Row → Result Bool
unfolding evaluate constant_eq
term_is_satisfied t row = do l ← evaluate t.lhs row; r ← evaluate t.rhs row; constant_eq l r

unfoldable pub term_applies_to : Term → Schema → Bool
unfolding expression_applies_to
term_applies_to t schema = expression_applies_to t.lhs schema && expression_applies_to t.rhs schema

-- `equatesWithConstant`: the null constant where there is no match.
unfoldable pub term_equates_with_constant : Term → Str → Constant
term_equates_with_constant t field =
    if is_field_name t.lhs && t.lhs.field_name == field && not (is_field_name t.rhs)
    then t.rhs.value
    else if is_field_name t.rhs && t.rhs.field_name == field && not (is_field_name t.lhs)
    then t.lhs.value
    else null_constant

-- `equatesWithField`: the empty name where there is no match.
unfoldable pub term_equates_with_field : Term → Str → Str
term_equates_with_field t field =
    if is_field_name t.lhs && t.lhs.field_name == field && is_field_name t.rhs
    then t.rhs.field_name
    else if is_field_name t.rhs && t.rhs.field_name == field && is_field_name t.lhs
    then t.lhs.field_name
    else []

abbrev pub int_max : ℕ
int_max = 2_147_483_647

abbrev max : ℕ → ℕ → ℕ
max a b = if leb a b then b else a

-- `reductionFactor`, given the plan's `distinctValues`.
unfoldable pub term_reduction_factor : Term → (Str → ℕ) → Result ℕ
unfolding constant_eq
term_reduction_factor t distinct_values =
    if is_field_name t.lhs && is_field_name t.rhs
    then ok (max (distinct_values t.lhs.field_name) (distinct_values t.rhs.field_name))
    else if is_field_name t.lhs
    then ok (distinct_values t.lhs.field_name)
    else if is_field_name t.rhs
    then ok (distinct_values t.rhs.field_name)
    else (do same ← constant_eq t.lhs.value t.rhs.value; ok (if same then 1 else int_max))

-- A predicate: its terms, all of which must hold.
abbrev pub Predicate : Type 0
Predicate = List Term

abbrev pub conjoin_with : Predicate → Predicate → Predicate
conjoin_with p q = p ++ q

-- The terms are tried in order, up to the first that fails.
unfoldable pub is_satisfied : Predicate → Row → Result Bool
unfolding term_is_satisfied
is_satisfied [] row = ok true
is_satisfied (t ∷ ts) row = do
  b ← term_is_satisfied t row
  let rest = is_satisfied ts row
  if b then rest else ok false

-- The loop of `reductionFactor`, without its overflow.
unfoldable pub reduction_factor : ℕ → Predicate → (Str → ℕ) → Result ℕ
unfolding term_reduction_factor
reduction_factor factor [] distinct_values = ok factor
reduction_factor factor (t ∷ ts) distinct_values = do
  n ← term_reduction_factor t distinct_values
  reduction_factor (factor * n) ts distinct_values

unfoldable pub select_terms : (Term → Bool) → Predicate → Predicate
select_terms test [] = []
select_terms test (t ∷ ts) = let rest = select_terms test ts in if test t then t ∷ rest else rest

-- `selectSubPredicate`: the terms that speak of this schema only.
abbrev pub select_sub_predicate : Predicate → Schema → Predicate
select_sub_predicate p schema = select_terms (λ t. term_applies_to t schema) p

-- `joinSubPredicate`: the terms that need both schemas.
unfoldable pub join_sub_predicate : Predicate → Schema → Schema → Result Predicate
unfolding select_terms
join_sub_predicate p schema1 schema2 = do
  s ← add_all empty_schema schema1
  both ← add_all s schema2
  ok (
      select_terms
        (λ t.
          not (term_applies_to t schema1)
          && not (term_applies_to t schema2)
          && term_applies_to t both)
        p)

-- The first term that equates the field with a constant.
unfoldable pub equates_with_constant : Predicate → Str → Constant
unfolding term_equates_with_constant
equates_with_constant [] field = null_constant
equates_with_constant (t ∷ ts) field =
    let c = term_equates_with_constant t field in
    let rest = equates_with_constant ts field in if is_null c then rest else c

unfoldable pub equates_with_field : Predicate → Str → Str
unfolding term_equates_with_field
equates_with_field [] field = []
equates_with_field (t ∷ ts) field =
    let name = term_equates_with_field t field in
    let rest = equates_with_field ts field in if name == [] then rest else name
