-- ===== src/Base/Outcome.antt =====
-- What a C++ function that may throw or end the process gives.
use mathlib.Core.Path.{◌≡◌, refl, subst}
use mathlib.Core.Bool.{Bool, true, false}
use sample_db.Base.Tests.{if◌then◌else◌}
use sample_db.Base.Int.{ℤ, fits_int}
use mathlib.Core.Option.{Option, none, some}
use mathlib.Core.Logic.{◌⊎◌, inl, inr}

-- `fault`: `exit(1)`, a null dereference, an access out of bounds, or a number that does not fit an
-- `int`, for all of which C++ promises nothing. `thrown`: a
-- `std::runtime_error`. `starved`: the fuel of a loop ran out, which no run of the code does.
pub data Failure : Type 0 where
  fault thrown starved : Failure

-- A value that came back, or how the call ended.
pub data Result {κ} (R : Type κ) : Type κ where
  err : Failure → Result R
  ok : R → Result R

abbrev pub guard : Bool → Failure → Result (Unit {0})
guard false why = err why
guard true why = ok tt

infixl 5 ◌>>=◌
abbrev pub ◌>>=◌ {ℓ κ} : {R : Type ℓ} {S : Type κ} → Result R → (R → Result S) → Result S
err why >>= next = err why
ok r >>= next = next r

-- A call for its effect, and then the rest.
infixl 5 ◌>>◌
abbrev pub ◌>>◌ {κ} : {S : Type κ} → Result (Unit {0}) → Result S → Result S
effect >> rest = effect >>= λ done. rest

abbrev pub of_option {ℓ} : {A : Type ℓ} → Option A → Failure → Result A
of_option none e = err e
of_option (some a) e = ok a

-- A number that is computed or cut to an `int`.
abbrev pub to_int : ℤ → Result ℤ
to_int n = if fits_int n then ok n else err fault

pub ok-injective {ℓ} : {A : Type ℓ} {a b : A} → ok a ≡ ok b → a ≡ b
ok-injective e = cc

-- When a sequence of two calls succeeds, so did the first, and the second on its value.
pub >>=-eq-ok {ℓ κ} :
    {R : Type ℓ} {S : Type κ} (first : Result R) (rest : R → Result S) {s : S}
    → (first >>= rest) ≡ ok s
    → (r : R) × (first ≡ ok r) × (rest r ≡ ok s)
>>=-eq-ok (err why) rest e = cc
>>=-eq-ok (ok r) rest e = (r, refl, e)

pub Result-cases {ℓ} :
    {A : Type ℓ} (r : Result A) → ((a : A) × (r ≡ ok a)) ⊎ ((e : Failure) × (r ≡ err e))
Result-cases (ok a) = inl (a, refl)
Result-cases (err e) = inr (e, refl)

-- The call returns, and its result satisfies `P`.
abbrev pub Succeeds : {A : Type 0} → (A → Type 0) → Result A → Type 0
Succeeds P (ok a) = P a
Succeeds P (err e) = ⊥

pub Succeeds-bind :
    {A B : Type 0} (P : A → Type 0) (Q : B → Type 0) (m : Result A) (f : A → Result B)
    → Succeeds P m
    → ((a : A) → P a → Succeeds Q (f a))
    → Succeeds Q (m >>= f)
Succeeds-bind P Q (ok a) f h k = k a h
Succeeds-bind P Q (err e) f h k = absurd h

pub Succeeds-map :
    {A : Type 0} (P Q : A → Type 0) (m : Result A)
    → Succeeds P m
    → ((a : A) → P a → Q a)
    → Succeeds Q m
Succeeds-map P Q (ok a) h k = k a h
Succeeds-map P Q (err e) h k = absurd h

pub Succeeds-eq :
    {A : Type 0} (P : A → Type 0) (r : Result A) → Succeeds P r → (a : A) × (r ≡ ok a) × P a
Succeeds-eq P (ok a) h = (a, refl, h)
Succeeds-eq P (err e) h = absurd h

-- A result that does not come from a lack of fuel.
abbrev pub Runs : {A : Type 0} → Result A → Type 0
Runs (ok a) = Unit {0}
Runs (err fault) = Unit {0}
Runs (err thrown) = Unit {0}
Runs (err starved) = ⊥

pub bind-Runs :
    {A B : Type 0} (r : Result A) (f : A → Result B)
    → Runs r
    → ((a : A) → Runs (f a))
    → Runs (r >>= f)
bind-Runs (ok a) f h g = g a
bind-Runs (err fault) f h g = h
bind-Runs (err thrown) f h g = h
bind-Runs (err starved) f h g = h

pub >>=-map {ℓ κ μ} :
    {A : Type ℓ} {B : Type κ} {C : Type μ} (m : Result A) (g : A → B) (f : B → Result C)
    → ((m >>= λ a. ok (g a)) >>= f) ≡ (m >>= λ a. f (g a))
>>=-map (ok a) g f = refl
>>=-map (err e) g f = refl

pub Succeeds-ok :
    {A : Type 0} (P : A → Type 0) (r : Result A) (a : A) → r ≡ ok a → Succeeds P r → P a
Succeeds-ok P (ok b) a e h = subst P (ok-injective e) h
Succeeds-ok P (err f) a e h = absurd h

-- The same, where the rest may use what the first call gave.
pub bind-Runs_eq :
    {A B : Type 0} (r : Result A) (f : A → Result B)
    → Runs r
    → ((a : A) → r ≡ ok a → Runs (f a))
    → Runs (r >>= f)
bind-Runs_eq (ok a) f h g = g a refl
bind-Runs_eq (err fault) f h g = h
bind-Runs_eq (err thrown) f h g = h
bind-Runs_eq (err starved) f h g = h

-- The call does not run out of fuel, and what it gives, if it does, satisfies `P`.
abbrev pub RunsTo : {A : Type 0} → (A → Type 0) → Result A → Type 0
RunsTo P (ok a) = P a
RunsTo P (err fault) = Unit {0}
RunsTo P (err thrown) = Unit {0}
RunsTo P (err starved) = ⊥

pub bind-RunsTo :
    {A B : Type 0} (P : B → Type 0) (r : Result A) (f : A → Result B)
    → Runs r
    → ((a : A) → RunsTo P (f a))
    → RunsTo P (r >>= f)
bind-RunsTo P (ok a) f h g = g a
bind-RunsTo P (err fault) f h g = h
bind-RunsTo P (err thrown) f h g = h
bind-RunsTo P (err starved) f h g = h

pub RunsTo-bind :
    {A B : Type 0} (P : A → Type 0) (Q : B → Type 0) (r : Result A) (f : A → Result B)
    → RunsTo P r
    → ((a : A) → P a → RunsTo Q (f a))
    → RunsTo Q (r >>= f)
RunsTo-bind P Q (ok a) f h g = g a h
RunsTo-bind P Q (err fault) f h g = h
RunsTo-bind P Q (err thrown) f h g = h
RunsTo-bind P Q (err starved) f h g = h

pub RunsTo-Runs : {A : Type 0} (P : A → Type 0) (r : Result A) → RunsTo P r → Runs r
RunsTo-Runs P (ok a) h = tt
RunsTo-Runs P (err fault) h = h
RunsTo-Runs P (err thrown) h = h
RunsTo-Runs P (err starved) h = h

pub RunsTo-map :
    {A : Type 0} (P Q : A → Type 0) (r : Result A) → RunsTo P r → ((a : A) → P a → Q a) → RunsTo Q r
RunsTo-map P Q (ok a) h k = k a h
RunsTo-map P Q (err fault) h k = h
RunsTo-map P Q (err thrown) h k = h
RunsTo-map P Q (err starved) h k = h
