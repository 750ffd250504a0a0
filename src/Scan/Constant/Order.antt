-- ===== src/Scan/Constant/Order.antt =====
-- The comparisons order the constants of one kind.
use sample_db.Base.{
  ◌≡◌, refl, ◌⊎◌, inl, inr, [], ◌∷◌, Bool, true, false, Str, str_eq, str_lt, str_beq, ℤ, pos,
  negsuc, int_lt, int_beq, ok, ok-injective, ap, arith, int_eq, ◌==◌,
}
use sample_db.Scan.Constant.{
  Constant, constant_eq, constant_lt, constant_gt, int_constant, string_constant, assign, as_int,
}

-- Exactly one of three tests holds.
abbrev pub OneOf : {A : Type 0} → (Bool → A) → A → A → A → Type 0
OneOf f a b c =
    ((a ≡ f true) × (b ≡ f false) × (c ≡ f false))
    ⊎ ((a ≡ f false) × (b ≡ f true) × (c ≡ f false))
    ⊎ ((a ≡ f false) × (b ≡ f false) × (c ≡ f true))

abbrev plain : Bool → Bool
plain b = b

str_trichotomy : (s t : Str) → OneOf plain (str_lt s t) (str_beq s t) (str_lt t s)
unfolding str_lt str_beq
str_trichotomy [] [] = inr (inl (refl, refl, refl))
str_trichotomy [] (y ∷ t) = inl (refl, refl, refl)
str_trichotomy (x ∷ s) [] = inr (inr (refl, refl, refl))
str_trichotomy (x ∷ s) (y ∷ t) = ground (arith, str_trichotomy s t)

int_trichotomy : (n m : ℤ) → OneOf plain (int_lt n m) (int_beq n m) (int_lt m n)
int_trichotomy (pos n) (pos m) = ground arith
int_trichotomy (pos n) (negsuc m) = ground arith
int_trichotomy (negsuc n) (pos m) = ground arith
int_trichotomy (negsuc n) (negsuc m) = ground arith

-- A constant that is an integer, `true`, or a string, `false`.
pub data HasKind : Bool → Constant → Type 0 where
  is_int : (n : ℤ) → HasKind true (int_constant n)
  is_string : (s : Str) → HasKind false (string_constant s)

-- Of two constants of one kind exactly one of `<`, `==` and `>` holds, and none of them faults.
pub constant_trichotomy :
    {k : Bool} {a b : Constant}
    → HasKind k a
    → HasKind k b
    → OneOf ok (constant_lt a b) (constant_eq a b) (constant_gt a b)
unfolding constant_lt constant_eq constant_gt
constant_trichotomy (is_int n) (is_int m) = ground (arith, int_trichotomy n m)
constant_trichotomy (is_string s) (is_string t) = ground (arith, str_trichotomy s t)

str_lt_trans : (s t u : Str) → str_lt s t ≡ true → str_lt t u ≡ true → str_lt s u ≡ true
unfolding str_lt
str_lt_trans s [] u h k = absurd (ground arith)
str_lt_trans s (y ∷ t) [] h k = cc
str_lt_trans [] (y ∷ t) (z ∷ u) h k = refl
str_lt_trans (x ∷ s) (y ∷ t) (z ∷ u) h k = ground (arith, str_lt_trans s t u)

int_lt_trans : (n m k : ℤ) → int_lt n m ≡ true → int_lt m k ≡ true → int_lt n k ≡ true
int_lt_trans (pos n) (pos m) (pos k) h g = ground arith
int_lt_trans (pos n) (pos m) (negsuc k) h g = cc
int_lt_trans (pos n) (negsuc m) k h g = cc
int_lt_trans (negsuc n) (pos m) (pos k) h g = refl
int_lt_trans (negsuc n) (pos m) (negsuc k) h g = cc
int_lt_trans (negsuc n) (negsuc m) (pos k) h g = refl
int_lt_trans (negsuc n) (negsuc m) (negsuc k) h g = ground arith

-- `<` is transitive on constants of one kind.
constant_lt_trans :
    {k : Bool} {a b c : Constant}
    → HasKind k a
    → HasKind k b
    → HasKind k c
    → constant_lt a b ≡ ok true
    → constant_lt b c ≡ ok true
    → constant_lt a c ≡ ok true
unfolding constant_lt
constant_lt_trans (is_int n) (is_int m) (is_int k) h g =
    ap ok (int_lt_trans n m k (ok-injective h) (ok-injective g))
constant_lt_trans (is_string s) (is_string t) (is_string u) h g =
    ap ok (str_lt_trans s t u (ok-injective h) (ok-injective g))

-- Assigning a string to a constant that was an integer leaves it the integer that it was: every
-- comparison with it goes on to use that.
pub assign-string :
    (n m : ℤ) (s : Str)
    → (as_int (assign (int_constant n) (string_constant s)) ≡ ok n)
      × (constant_eq (assign (int_constant n) (string_constant s)) (int_constant m) ≡ ok (n == m))
unfolding assign constant_eq
assign-string n m s = (refl, refl)
