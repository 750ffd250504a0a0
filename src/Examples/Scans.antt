-- ===== src/Examples/Scans.antt =====
-- Scans over rows that are listed.
use sample_db.Base.{
  ◌↔◌, ℕ, ◌≡◌, refl, List, [], ◌∷◌, codes, true, false, Bool, ℤ, pos, Result, ok, err, thrown,
  ◌>>=◌, arith, str_beq,
}
use sample_db.Scan.Constant.{int_constant, constant_eq, compare_by}
use sample_db.Scan.Predicate.{
  Predicate, Row, constant_expression, field_expression, is_satisfied, term_is_satisfied, evaluate,
}
use sample_db.Scan.Interface.{ScanOps}
use sample_db.Scan.SelectScan.{select_scan}
use sample_db.Scan.SelectScan.Rows.{Yields, Chosen, take, skip, none, select_scan-Yields}
use sample_db.Scan.ProjectScan.{project_scan}
use sample_db.Scan.ProjectScan.Rows.{AllShow, IsAmong, project_scan-Yields}
use sample_db.Scan.ProductScan.{open_product, next_product, product_scan}
use sample_db.Scan.ProductScan.Rows.{Restarts, pairs, open_product-Yields}
use sample_db.Scan.ProductScan.Empty.{next-open_product_empty}

-- The current row, and those that are left.
abbrev pub Listed : Type 0
Listed = Row × List Row

abbrev pub next_listed : Listed → Result (Listed × Bool)
next_listed (r, []) = ok ((r, []), false)
next_listed (r, q ∷ qs) = ok ((q, qs), true)

abbrev pub listed_scan : ScanOps Listed
listed_scan = record {
  before_first = λ x. ok x;
  next = next_listed;
  get_int = λ x name. err thrown;
  get_bool = λ x name. err thrown;
  get_string = λ x name. err thrown;
  get_value = λ x name. x.0 name;
  has_field = λ x name. true;
  close = λ x. ok x;
}

-- A person of this age, whatever the field.
abbrev pub aged : ℤ → Row
aged n name = ok (int_constant n)

abbrev pub no_row : Row
no_row name = err thrown

abbrev pub is_30 : Predicate
is_30 =
    record {
      lhs = field_expression (codes "age");
      rhs = constant_expression (int_constant (pos 30));
    }
    ∷ []

abbrev pub people : List Row
people = aged (pos 20) ∷ aged (pos 30) ∷ []

pub people-Yields : Yields listed_scan (no_row, people) people
people-Yields = (
  (aged (pos 20), aged (pos 30) ∷ []),
  refl,
  refl,
  ((aged (pos 30), []), refl, refl, ((aged (pos 30), []), refl)),
)

one-Chosen : Chosen is_30 people (aged (pos 30) ∷ [])
unfolding is_satisfied term_is_satisfied evaluate constant_eq compare_by str_beq
one-Chosen = skip refl (take refl none)

select_scan-Yields_example :
    Yields (select_scan listed_scan is_30 3) (no_row, people) (aged (pos 30) ∷ [])
select_scan-Yields_example =
    select_scan-Yields listed_scan is_30 3 (no_row, people) one-Chosen people-Yields (omega arith)

project_scan-Yields_example :
    ((qs : List Row) × Yields (project_scan listed_scan (codes "age" ∷ [])) (no_row, people) qs
      × AllShow (codes "age" ∷ []) qs people)
    × ((name : List ℕ)
        → ((project_scan listed_scan (codes "age" ∷ [])).has_field (no_row, people) name ≡ true)
          ↔ IsAmong name (codes "age" ∷ []))
project_scan-Yields_example =
    project_scan-Yields listed_scan (codes "age" ∷ []) (no_row, people) people people-Yields

-- The same rows, which can be gone through again.
abbrev people_again : ScanOps Listed
people_again = record listed_scan { before_first = λ x. ok (no_row, people) }

abbrev people-Restarts : Restarts people_again people
people-Restarts = record {
  Again = λ t. Unit {0};
  next_again = λ t t' more a e. tt;
  start_again = λ t a. ((no_row, people), refl, tt, people-Yields);
}

abbrev has_age : List ℕ → Bool
has_age name = true

open_product-Yields_example :
    (x : Listed × Listed) × (open_product listed_scan people_again (no_row, people) (no_row, people)
      ≡ ok x)
    × Yields (product_scan listed_scan people_again) x (pairs has_age people people)
open_product-Yields_example =
    open_product-Yields listed_scan people_again has_age (λ s. refl) (no_row, people)
      (no_row, people) (aged (pos 20)) (aged (pos 30) ∷ []) people people-Restarts people-Yields tt
      people-Yields

next-open_product_empty_example :
    (do
      x ← open_product listed_scan listed_scan (no_row, []) (no_row, people)
      next_product listed_scan listed_scan x)
    ≡ ok (((no_row, []), (aged (pos 20), aged (pos 30) ∷ [])), true)
next-open_product_empty_example =
    next-open_product_empty listed_scan listed_scan (no_row, []) (no_row, []) (no_row, people)
      (aged (pos 20), aged (pos 30) ∷ []) refl refl
