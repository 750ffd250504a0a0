-- ===== src/Scan/Predicate/Satisfied.antt =====
-- Conjunctions and parts of predicates.
use sample_db.Base.{
  ◌≡◌, refl, ap, ◌∙◌, not, ◌&&◌, [], ◌∷◌, Bool, true, false, Result, ok, ◌>>=◌, if◌then◌else◌,
  arith, >>=-eq-ok, Bool-cases, inl, inr, ◌⊎◌, ◌↔◌,
}
use sample_db.Record.Schema.{Schema, add_all, empty_schema}
use sample_db.Scan.Predicate.{
  Row, Term, Predicate, is_satisfied, select_terms, join_sub_predicate, select_sub_predicate,
  term_applies_to, term_is_satisfied, conjoin_with,
}

-- A conjunction is tried like `p && q`: the second part only where the first holds.
pub is_satisfied-conjoin_with :
    (p q : Predicate) (row : Row)
    → is_satisfied (conjoin_with p q) row
      ≡ (do b ← is_satisfied p row; if b then is_satisfied q row else ok false)
unfolding is_satisfied
is_satisfied-conjoin_with [] q row = refl
is_satisfied-conjoin_with (t ∷ p) q row = ground (arith, is_satisfied-conjoin_with p q row)

-- Each term of a predicate passes a test.
abbrev pub AllTerms : (Term → Bool) → Predicate → Type 0
AllTerms test [] = Unit {0}
AllTerms test (t ∷ p) = (test t ≡ true) × AllTerms test p

AllTerms-select_terms : (test : Term → Bool) (p : Predicate) → AllTerms test (select_terms test p)
unfolding select_terms
AllTerms-select_terms test [] = tt
AllTerms-select_terms test (t ∷ p) = elim (Bool-cases (test t)) [
  | inl e ↦ rw e (e, AllTerms-select_terms test p)
  | inr e ↦ rw e (AllTerms-select_terms test p)
]

if_holds :
    (b : Bool) (r : Result Bool)
    → (if b then r else ok false) ≡ ok true
    → (b ≡ true) × (r ≡ ok true)
if_holds true r h = (refl, h)
if_holds false r h = cc

-- A term that holds, in front of others.
holds_first :
    (t : Term) (p : Predicate) (row : Row)
    → is_satisfied (t ∷ p) row ≡ ok true
    → (term_is_satisfied t row ≡ ok true) × (is_satisfied p row ≡ ok true)
unfolding is_satisfied
holds_first t p row h =
    let (b, e, k) =
      >>=-eq-ok (term_is_satisfied t row) (λ b. if b then is_satisfied p row else ok false) h in
    let (f, g) = if_holds b (is_satisfied p row) k in (e ∙ ap ok f, g)

holds_both :
    (t : Term) (p : Predicate) (row : Row)
    → term_is_satisfied t row ≡ ok true
    → is_satisfied p row ≡ ok true
    → is_satisfied (t ∷ p) row ≡ ok true
unfolding is_satisfied
holds_both t p row h k = rw (h, k) refl

-- A row that satisfies a predicate satisfies each selection of its terms.
is_satisfied-select_terms :
    (test : Term → Bool) (p : Predicate) (row : Row)
    → is_satisfied p row ≡ ok true
    → is_satisfied (select_terms test p) row ≡ ok true
unfolding is_satisfied select_terms
is_satisfied-select_terms test [] row h = refl
is_satisfied-select_terms test (t ∷ p) row h = ground (arith, is_satisfied-select_terms test p row)

-- A term that passes a test holds, if the selection of its predicate does.
selected-holds :
    (test : Term → Bool) (t : Term) (p : Predicate) (row : Row)
    → test t ≡ true
    → is_satisfied (select_terms test (t ∷ p)) row ≡ ok true
    → term_is_satisfied t row ≡ ok true
unfolding select_terms
selected-holds test t p row e h = (holds_first t (select_terms test p) row (rw e at (h))).0

-- The rest of a selection.
selected-rest :
    (test : Term → Bool) (t : Term) (p : Predicate) (row : Row)
    → is_satisfied (select_terms test (t ∷ p)) row ≡ ok true
    → is_satisfied (select_terms test p) row ≡ ok true
unfolding select_terms
selected-rest test t p row h = elim (Bool-cases (test t)) [
  | inl e ↦ (holds_first t (select_terms test p) row (rw e at (h))).1
  | inr e ↦ rw e at (h)
]

-- Terms that are all in one of three selections hold, if the selections do.
is_satisfied-of_selections :
    (both test1 test2 test3 : Term → Bool) (p : Predicate) (row : Row)
    → ((t : Term) → both t ≡ true → (test1 t ≡ true) ⊎ (test2 t ≡ true) ⊎ (test3 t ≡ true))
    → AllTerms both p
    → is_satisfied (select_terms test1 p) row ≡ ok true
    → is_satisfied (select_terms test2 p) row ≡ ok true
    → is_satisfied (select_terms test3 p) row ≡ ok true
    → is_satisfied p row ≡ ok true
is_satisfied-of_selections both test1 test2 test3 [] row cover all h1 h2 h3 =
    unfold is_satisfied in refl
is_satisfied-of_selections both test1 test2 test3 (t ∷ p) row cover (a, all) h1 h2 h3 =
    holds_both t p row
      (elim (cover t a) [
        | inl e ↦ selected-holds test1 t p row e h1
        | inr (inl e) ↦ selected-holds test2 t p row e h2
        | inr (inr e) ↦ selected-holds test3 t p row e h3
      ])
      (is_satisfied-of_selections both test1 test2 test3 p row cover all
        (selected-rest test1 t p row h1) (selected-rest test2 t p row h2)
        (selected-rest test3 t p row h3))

abbrev pub applies : Schema → Term → Bool
applies schema t = term_applies_to t schema

-- A term for both schemas that is for none of them alone.
abbrev pub needs_both : Schema → Schema → Schema → Term → Bool
needs_both schema1 schema2 both t =
    not (applies schema1 t) && not (applies schema2 t) && applies both t

-- The fields of two schemas, as the code puts them together.
abbrev pub union_of : Schema → Schema → Result Schema
union_of schema1 schema2 = add_all empty_schema schema1 >>= λ s. add_all s schema2

needs_both-cover :
    (schema1 schema2 both : Schema) (t : Term)
    → applies both t ≡ true
    → (applies schema1 t ≡ true)
      ⊎ (applies schema2 t ≡ true)
      ⊎ (needs_both schema1 schema2 both t ≡ true)
needs_both-cover schema1 schema2 both t e = elim (Bool-cases (applies schema1 t)) [
  | inl f ↦ inl f
  | inr f ↦ elim (Bool-cases (applies schema2 t)) [
    | inl g ↦ inr (inl g)
    | inr g ↦ inr (inr (rw (f, g, e) refl))
  ]
]

join_sub_predicate-eq :
    (p : Predicate) (schema1 schema2 both : Schema)
    → union_of schema1 schema2 ≡ ok both
    → join_sub_predicate p schema1 schema2 ≡ ok (select_terms (needs_both schema1 schema2 both) p)
unfolding join_sub_predicate
join_sub_predicate-eq p schema1 schema2 both e =
    let (s, es, eb) = >>=-eq-ok (add_all empty_schema schema1) (λ s. add_all s schema2) e in
    rw (es, eb) refl

-- A predicate falls into the part for one schema, the part for another, and the part that joins
-- them: the terms of the first two parts apply to their schema, those of the third to neither alone
-- but to both together, and a row satisfies the predicate if and only if it satisfies the three
-- parts. The two schemas have a union, to which each term of the predicate applies.
pub is_satisfied-sub_predicates :
    (p : Predicate) (schema1 schema2 both : Schema) (row : Row)
    → union_of schema1 schema2 ≡ ok both
    → AllTerms (applies both) p
    → (q : Predicate) × (join_sub_predicate p schema1 schema2 ≡ ok q)
      × AllTerms (applies schema1) (select_sub_predicate p schema1)
      × AllTerms (applies schema2) (select_sub_predicate p schema2)
      × AllTerms (needs_both schema1 schema2 both) q
      × ((is_satisfied p row ≡ ok true) ↔ (
          (is_satisfied (select_sub_predicate p schema1) row ≡ ok true)
          × (is_satisfied (select_sub_predicate p schema2) row ≡ ok true)
          × (is_satisfied q row ≡ ok true)))
is_satisfied-sub_predicates p schema1 schema2 both row e all = (
  select_terms (needs_both schema1 schema2 both) p,
  join_sub_predicate-eq p schema1 schema2 both e,
  AllTerms-select_terms (applies schema1) p,
  AllTerms-select_terms (applies schema2) p,
  AllTerms-select_terms (needs_both schema1 schema2 both) p,
  (
    λ h. (
      is_satisfied-select_terms (applies schema1) p row h,
      is_satisfied-select_terms (applies schema2) p row h,
      is_satisfied-select_terms (needs_both schema1 schema2 both) p row h,
    ),
    λ h.
        is_satisfied-of_selections (applies both) (applies schema1) (applies schema2)
          (needs_both schema1 schema2 both) p row (needs_both-cover schema1 schema2 both) all h.0
          h.1 h.2,
  ),
)
