-- ===== src/Parse/Parser/Fuel.antt =====
-- The fuel of the parser: more than the number of tokens is enough. Every step that takes a token
-- leaves fewer of them, so no list, predicate or query runs out of fuel.
use sample_db.Base.{
  ℕ, suc, ◌<◌, ◌≤◌, ◌≡◌, refl, [], ◌∷◌, Str, Bool, true, false, Bool-cases, Result, ok, err, fault,
  thrown, starved, length, arith, Runs, leb, ltb, if◌then◌else◌, inl, inr, str_eq, str_beq,
}
use sample_db.Parse.StreamTokenizer.{
  Tokens, ttype, sval, nval, starts_with, tt_eof, cut_to_int, double_limit, digits_value,
}
use sample_db.Parse.Lexer.{
  Parse, take_if, unquote, match_delimiter, match_integer, match_string, match_keyword,
  match_identifier, eat_delimiter, eat_integer, eat_string, eat_keyword, eat_identifier,
}

-- Not out of fuel, and fewer than `k` tokens left.
abbrev pub Under : {A : Type 0} → ℕ → Result (A × Tokens) → Type 0
Under k (ok (a, rest)) = length rest < k
Under k (err fault) = Unit {0}
Under k (err thrown) = Unit {0}
Under k (err starved) = ⊥

-- A step that takes at least one token.
abbrev pub Eats : {A : Type 0} → Parse A → Type 0
Eats m = (ts : Tokens) → Under (length ts) (m ts)

pub Under-step :
    {A B : Type 0} (k j : ℕ) (f : A → Parse B) (r : Result (A × Tokens))
    → Under j r
    → ((a : A) (rest : Tokens) → length rest < j → Under k (f a rest))
    → Under k (elim r [ ok (a, rest) ↦ f a rest | err e ↦ err e ])
Under-step k j f (ok (a, rest)) h g = g a rest h
Under-step k j f (err fault) h g = h
Under-step k j f (err thrown) h g = h
Under-step k j f (err starved) h g = h

pub Under-cond :
    {A : Type 0} (k : ℕ) (b : Bool) (m n : Result (A × Tokens))
    → Under k m
    → Under k n
    → Under k (elim b [ true ↦ m | false ↦ n ])
Under-cond k true m n h g = h
Under-cond k false m n h g = g

pub Under-weaken : {A : Type 0} (j k : ℕ) (r : Result (A × Tokens)) → j ≤ k → Under j r → Under k r
Under-weaken j k (ok (a, rest)) le h = omega arith
Under-weaken j k (err fault) le h = h
Under-weaken j k (err thrown) le h = h
Under-weaken j k (err starved) le h = h

-- Where a step that takes a token begins below a bound, it ends below the bound.
pub Eats-Under :
    {A : Type 0} (m : Parse A) (k : ℕ) (ts : Tokens) → Eats m → length ts < k → Under k (m ts)
Eats-Under m k ts e h = Under-weaken (length ts) k (m ts) (omega arith) (e ts)

taken-Under :
    {A : Type 0} (r : Result A) (t : Str) (ts : Tokens)
    → Runs r
    → Under (suc (length ts)) (elim r [ ok a ↦ ok (a, ts) | err e ↦ err e ])
taken-Under (ok a) t ts h = omega arith
taken-Under (err fault) t ts h = h
taken-Under (err thrown) t ts h = h
taken-Under (err starved) t ts h = h

-- A step that takes a token if the test holds, which it does not at the end.
take_if-Eats :
    {A : Type 0} (to_lower : Str → Str) (test : Tokens → Bool) (value : Tokens → Result A)
    → test [] ≡ false
    → ((ts : Tokens) → Runs (value ts))
    → Eats (λ ts. take_if to_lower (test ts) (value ts) ts)
take_if-Eats to_lower test value h g [] = rw (take_if, h) tt
take_if-Eats to_lower test value h g (t ∷ ts) = elim (Bool-cases (test (t ∷ ts))) [
  | inl e ↦ rw (take_if, e) (taken-Under (value (t ∷ ts)) t ts (g (t ∷ ts)))
  | inr e ↦ rw (take_if, e) tt
]

module _ (to_lower : Str → Str) where
  pub eat_delimiter-Eats : (c : ℕ) → starts_with c tt_eof ≡ false → Eats (eat_delimiter to_lower c)
  unfolding eat_delimiter match_delimiter ttype
  eat_delimiter-Eats c h =
      take_if-Eats to_lower (match_delimiter to_lower c) (λ ts. ok tt) h (λ ts. tt)

  pub eat_keyword-Eats : (w : Str) → Eats (eat_keyword to_lower w)
  unfolding eat_keyword match_keyword ttype str_beq
  eat_keyword-Eats w =
      take_if-Eats to_lower (match_keyword to_lower w) (λ ts. ok tt) refl (λ ts. tt)

  pub eat_identifier-Eats : Eats (eat_identifier to_lower)
  unfolding eat_identifier match_identifier ttype str_beq
  eat_identifier-Eats =
      take_if-Eats to_lower (match_identifier to_lower) (λ ts. ok (sval to_lower ts)) refl
        (λ ts. tt)

  pub eat_string-Eats : Eats (eat_string to_lower)
  unfolding eat_string match_string ttype
  eat_string-Eats =
      take_if-Eats to_lower (match_string to_lower) (λ ts. ok (unquote (sval to_lower ts))) refl
        (λ ts. tt)

  either-Runs :
      {A : Type 0} (b : Bool) (r q : Result A) → Runs r → Runs q → Runs (if b then r else q)
  either-Runs true r q h k = h
  either-Runs false r q h k = k

  cut_to_int-Runs : (r : Result ℕ) → Runs r → Runs (cut_to_int r)
  cut_to_int-Runs (ok n) h = either-Runs (ltb n 2_147_483_648) (ok n) (err fault) tt tt
  cut_to_int-Runs (err e) h = h

  nval-Runs : (ts : Tokens) → Runs (nval ts)
  unfolding nval
  nval-Runs [] = tt
  nval-Runs ([] ∷ rest) = tt
  nval-Runs ((c ∷ cs) ∷ rest) =
      either-Runs (leb double_limit (digits_value 0 (c ∷ cs))) (err thrown)
        (ok (digits_value 0 (c ∷ cs))) tt tt

  pub eat_integer-Eats : Eats (eat_integer to_lower)
  unfolding eat_integer match_integer ttype str_beq
  eat_integer-Eats =
      take_if-Eats to_lower (match_integer to_lower) (λ ts. cut_to_int (nval ts)) refl
        λ ts. cut_to_int-Runs (nval ts) (nval-Runs ts)
