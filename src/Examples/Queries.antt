-- ===== src/Examples/Queries.antt =====
-- Predicates, layouts, constants and parsing.
use sample_db.Base.{
  ◌↔◌, ◌+◌, ◌≡◌, ◌≢◌, ◌≤◌, refl, [], ◌∷◌, Str, codes, true, false, ◌⊎◌, pos, ok, ◌>>=◌, find, put,
  str_beq, if◌then◌else◌,
}
use sample_db.Record.Schema.{
  Schema, empty_schema, add_int_field, add_string_field, add_field, add, add_names, field_type,
  field_length, has_field,
}
use sample_db.Record.Layout.{Layout, new_layout, offset, length_in_bytes, place}
use sample_db.Record.Layout.Disjoint.{new_layout_apart, new_layout_within}
use sample_db.Scan.Constant.{int_constant, string_constant, is_null, constant_eq, compare_by}
use sample_db.Scan.Predicate.{
  Predicate, Row, constant_expression, field_expression, is_satisfied, select_sub_predicate,
  join_sub_predicate, equates_with_constant, conjoin_with, term_is_satisfied, evaluate,
  expression_applies_to, term_applies_to, term_equates_with_constant,
}
use sample_db.Scan.Predicate.Satisfied.{
  AllTerms, applies, needs_both, union_of, is_satisfied-conjoin_with, is_satisfied-sub_predicates,
}
use sample_db.Scan.Predicate.Equates.{AllProper, HasValue, equates_with_constant-HasValue}

-- `age = 30 and city = 'rome'`, over rows that have both fields.
abbrev age : Str
age = codes "age"

abbrev city : Str
city = codes "city"

abbrev in_rome : Predicate
in_rome =
    record { lhs = field_expression age; rhs = constant_expression (int_constant (pos 30)) }
    ∷ record {
      lhs = field_expression city;
      rhs = constant_expression (string_constant (codes "rome"));
    }
    ∷ []

abbrev row : Row
row f = if str_beq f age then ok (int_constant (pos 30)) else ok (string_constant (codes "rome"))

row_fits : is_satisfied in_rome row ≡ ok true
unfolding is_satisfied term_is_satisfied evaluate constant_eq compare_by str_beq
row_fits = refl

is_satisfied-conjoin_with_example :
    is_satisfied (conjoin_with in_rome in_rome) row
    ≡ (do b ← is_satisfied in_rome row; if b then is_satisfied in_rome row else ok false)
is_satisfied-conjoin_with_example = is_satisfied-conjoin_with in_rome in_rome row

abbrev people : Schema
people = add_string_field (add_int_field empty_schema age) city 10

abbrev places : Schema
places = add_string_field empty_schema (codes "place") 10

-- `age = 30 and city = place`, where the second term needs both schemas.
abbrev at_home : Predicate
at_home =
    record { lhs = field_expression age; rhs = constant_expression (int_constant (pos 30)) }
    ∷ record { lhs = field_expression city; rhs = field_expression (codes "place") }
    ∷ []

abbrev all_fields : Schema
all_fields = add_string_field people (codes "place") 10

united : union_of people places ≡ ok all_fields
unfolding add_names add field_type field_length add_field find put str_beq
united = refl

at_home-AllTerms : AllTerms (applies all_fields) at_home
unfolding add_field find put str_beq has_field expression_applies_to term_applies_to
at_home-AllTerms = (refl, (refl, tt))

is_satisfied-sub_predicates_example :
    (q : Predicate) × (join_sub_predicate at_home people places ≡ ok q)
    × AllTerms (applies people) (select_sub_predicate at_home people)
    × AllTerms (applies places) (select_sub_predicate at_home places)
    × AllTerms (needs_both people places all_fields) q
    × ((is_satisfied at_home row ≡ ok true) ↔ (
        (is_satisfied (select_sub_predicate at_home people) row ≡ ok true)
        × (is_satisfied (select_sub_predicate at_home places) row ≡ ok true)
        × (is_satisfied q row ≡ ok true)))
is_satisfied-sub_predicates_example =
    is_satisfied-sub_predicates at_home people places all_fields row united at_home-AllTerms

terms_proper : AllProper in_rome
unfolding str_beq
terms_proper = ((λ e. refl), (λ e. cc), ((λ e. refl), (λ e. cc), tt))

age_equated : is_null (equates_with_constant in_rome age) ≡ false
unfolding equates_with_constant term_equates_with_constant str_beq
age_equated = refl

equates_with_constant-HasValue_example : HasValue row age (equates_with_constant in_rome age)
equates_with_constant-HasValue_example =
    equates_with_constant-HasValue in_rome row age terms_proper row_fits age_equated

-- The layout of `people`: age at 4, city at 8 with 14 bytes.
abbrev people_layout : Layout
people_layout = record { schema = people; offsets = (age, 4) ∷ (city, 8) ∷ []; slot_size = 22 }

laid_out : new_layout people ≡ ok people_layout
unfolding new_layout place length_in_bytes add_field find put str_beq field_type field_length
laid_out = refl

offset-age : offset people_layout age ≡ ok 4
unfolding offset find str_beq
offset-age = refl

offset-city : offset people_layout city ≡ ok 8
unfolding offset find str_beq
offset-city = refl

length_in_bytes-age : length_in_bytes people_layout.schema age ≡ ok 4
unfolding length_in_bytes add_field find put str_beq field_type field_length
length_in_bytes-age = refl

length_in_bytes-city : length_in_bytes people_layout.schema city ≡ ok 14
unfolding length_in_bytes add_field find put str_beq field_type field_length
length_in_bytes-city = refl

new_layout_apart_example : (4 + 4 ≤ 8) ⊎ (8 + 14 ≤ 4)
new_layout_apart_example =
    new_layout_apart people people_layout age city 4 8 4 14 laid_out differ offset-age offset-city
      length_in_bytes-age length_in_bytes-city
  where
    differ : age ≢ city
    differ e = cc

new_layout_within_example : (4 ≤ 8) × (8 + 14 ≤ 22)
new_layout_within_example =
    new_layout_within people people_layout city 8 14 laid_out offset-city length_in_bytes-city
