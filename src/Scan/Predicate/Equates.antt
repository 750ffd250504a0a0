-- ===== src/Scan/Predicate/Equates.antt =====
-- What an index look-up relies on: a field that a predicate equates with a constant has that value.
use sample_db.Base.{
  ◌≡◌, [], ◌∷◌, Bool, true, false, not, ◌&&◌, Str, str_eq, ◌==◌, eq_iff, Result, ok, ◌>>=◌, arith,
  Bool-cases, >>=-eq-ok, ok-injective, sym, ◌∙◌, ◌⊎◌, inl, inr, ap,
}
use mathlib.Core.Path.{subst}
use sample_db.Scan.Constant.{Constant, is_null, constant_eq}
use sample_db.Scan.Predicate.{
  Row, Expression, Term, Predicate, is_field_name, evaluate, is_satisfied, term_is_satisfied,
  term_equates_with_constant, equates_with_constant,
}

-- As the constructors make it: an expression with a field name has no constant.
abbrev pub IsProper : Expression → Type 0
IsProper e = is_field_name e ≡ true → is_null e.value ≡ true

abbrev pub AllProper : Predicate → Type 0
AllProper [] = Unit {0}
AllProper (t ∷ ts) = IsProper t.lhs × IsProper t.rhs × AllProper ts

-- The row's value of the field is equal to the constant, on one side of `==` or the other.
abbrev pub HasValue : Row → Str → Constant → Type 0
HasValue row field c =
    (v : Constant) × (row field ≡ ok v)
    × ((constant_eq v c ≡ ok true) ⊎ (constant_eq c v ≡ ok true))

evaluate_field :
    (e : Expression) (row : Row)
    → IsProper e
    → is_field_name e ≡ true
    → evaluate e row ≡ row e.field_name
unfolding evaluate
evaluate_field e row p h = rw (p h)

evaluate_constant :
    (e : Expression) (row : Row) → is_null e.value ≡ false → evaluate e row ≡ ok e.value
unfolding evaluate
evaluate_constant e row h = rw h

abbrev compare_with : Term → Row → Constant → Result Bool
compare_with t row l = evaluate t.rhs row >>= constant_eq l

satisfied_parts :
    (t : Term) (row : Row)
    → term_is_satisfied t row ≡ ok true
    → (l r : Constant) × (evaluate t.lhs row ≡ ok l)
      × (evaluate t.rhs row ≡ ok r)
      × (constant_eq l r ≡ ok true)
unfolding term_is_satisfied
satisfied_parts t row h =
    let (l, el, rest) = >>=-eq-ok (evaluate t.lhs row) (compare_with t row) h in
    let (r, er, same) = >>=-eq-ok (evaluate t.rhs row) (constant_eq l) rest in (l, r, el, er, same)

and_true : (a b : Bool) → (a && b) ≡ true → (a ≡ true) × (b ≡ true)
and_true a b h = ground arith

-- One side is the field, and the other is a constant.
field_side :
    (e c : Expression) (row : Row) (field : Str) (l r : Constant)
    → IsProper e
    → (is_field_name e && e.field_name == field && not (is_field_name c)) ≡ true
    → is_null c.value ≡ false
    → evaluate e row ≡ ok l
    → evaluate c row ≡ ok r
    → (row field ≡ ok l) × (r ≡ c.value)
field_side e c row field l r p h n el er =
    let both = and_true (is_field_name e && e.field_name == field) (not (is_field_name c)) h in
    let (named, same) = and_true (is_field_name e) (e.field_name == field) both.0 in
    (
      ap row (sym ((eq_iff e.field_name field).0 same)) ∙ sym (evaluate_field e row p named) ∙ el,
      ok-injective (sym er ∙ evaluate_constant c row n),
    )

abbrev names : Expression → Expression → Str → Bool
names e c field = is_field_name e && e.field_name == field && not (is_field_name c)

-- One term: the two ways in which it can equate the field with a constant.
term_equates-HasValue :
    (t : Term) (row : Row) (field : Str)
    → IsProper t.lhs
    → IsProper t.rhs
    → term_is_satisfied t row ≡ ok true
    → is_null (term_equates_with_constant t field) ≡ false
    → HasValue row field (term_equates_with_constant t field)
unfolding term_equates_with_constant
term_equates-HasValue t row field p q h n =
    let (l, r, el, er, same) = satisfied_parts t row h in
    elim (Bool-cases (names t.lhs t.rhs field)) [
      | inl left ↦
          let (v, c) = field_side t.lhs t.rhs row field l r p left (rw left at n) el er in
          rw left (l, v, inl (subst (λ k. constant_eq l k ≡ ok true) c same))
      | inr other ↦ elim (Bool-cases (names t.rhs t.lhs field)) [
        | inl right ↦
            let (v, c) =
              field_side t.rhs t.lhs row field r l q right (rw (other, right) at n) er el in
            rw (other, right) (r, v, inr (subst (λ k. constant_eq k r ≡ ok true) c same))
        | inr neither ↦ absurd (ground arith)
      ]
    ]

satisfied_cons :
    (t : Term) (ts : Predicate) (row : Row)
    → is_satisfied (t ∷ ts) row ≡ ok true
    → (term_is_satisfied t row ≡ ok true) × (is_satisfied ts row ≡ ok true)
unfolding is_satisfied
satisfied_cons t ts row h = ground arith

-- A row that satisfies a predicate has the constant that the predicate equates the field with.
pub equates_with_constant-HasValue :
    (p : Predicate) (row : Row) (field : Str)
    → AllProper p
    → is_satisfied p row ≡ ok true
    → is_null (equates_with_constant p field) ≡ false
    → HasValue row field (equates_with_constant p field)
unfolding equates_with_constant is_satisfied
equates_with_constant-HasValue [] row field a h n = cc
equates_with_constant-HasValue (t ∷ ts) row field a h n =
    let (holds, rest) = satisfied_cons t ts row h in
    elim (Bool-cases (is_null (term_equates_with_constant t field))) [
      | inl none_here ↦
          rw none_here (equates_with_constant-HasValue ts row field a.2 rest (rw none_here at n))
      | inr here ↦ rw here (term_equates-HasValue t row field a.0 a.1 holds here)
    ]
