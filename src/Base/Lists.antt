-- ===== src/Base/Lists.antt =====
-- Lists measured and indexed by native numbers, and the copying of a run of bytes (`memcpy`).
use Prim.Native.Nat.{ℕ, zero, suc, ◌+◌, ◌≤◌}
use mathlib.Core.Path.{◌≡◌, refl, ap}
use mathlib.Core.List.{List, [], ◌∷◌, ◌++◌}
use mathlib.Core.Option.{Option, none, some}
use native.Mathlib.Omega.{arith}

module _ {ℓ} {A : Type ℓ} where
  abbrev pub length : List A → ℕ
  length [] = 0
  length (x ∷ xs) = suc (length xs)

  abbrev pub get_elem? : List A → ℕ → Option A
  get_elem? [] i = none
  get_elem? (x ∷ xs) zero = some x
  get_elem? (x ∷ xs) (suc i) = get_elem? xs i

  -- A write out of bounds changes nothing.
  abbrev pub set : List A → ℕ → A → List A
  set [] i v = []
  set (x ∷ xs) zero v = v ∷ xs
  set (x ∷ xs) (suc i) v = x ∷ set xs i v

  abbrev pub take : ℕ → List A → List A
  take zero xs = []
  take (suc n) [] = []
  take (suc n) (x ∷ xs) = x ∷ take n xs

  abbrev pub drop : ℕ → List A → List A
  drop zero xs = xs
  drop (suc n) [] = []
  drop (suc n) (x ∷ xs) = drop n xs

  abbrev pub replicate : ℕ → A → List A
  replicate zero a = []
  replicate (suc n) a = a ∷ replicate n a

  pub length-append : (xs ys : List A) → length (xs ++ ys) ≡ length xs + length ys
  length-append [] ys = omega arith
  length-append (x ∷ xs) ys = omega (arith, length-append xs ys)

  pub drop-nil : (n : ℕ) → drop n [] ≡ []
  drop-nil zero = refl
  drop-nil (suc n) = refl

  pub length-replicate : (n : ℕ) (a : A) → length (replicate n a) ≡ n
  length-replicate zero a = refl
  length-replicate (suc n) a = ap suc (length-replicate n a)

  pub length-set : (xs : List A) (i : ℕ) (v : A) → length (set xs i v) ≡ length xs
  length-set [] i v = refl
  length-set (x ∷ xs) zero v = refl
  length-set (x ∷ xs) (suc i) v = ap suc (length-set xs i v)

  -- `len` elements from `off` on.
  abbrev pub slice : ℕ → ℕ → List A → List A
  slice off len xs = take len (drop off xs)

  -- `memcpy(&xs[off], bs)`: what would run past the end is cut.
  unfoldable pub splice : List A → ℕ → List A → List A
  splice [] off bs = []
  splice (x ∷ xs) zero [] = x ∷ xs
  splice (x ∷ xs) zero (b ∷ bs) = b ∷ splice xs zero bs
  splice (x ∷ xs) (suc off) bs = x ∷ splice xs off bs

module _ {ℓ} {A : Type ℓ} where
  pub take_length : (xs : List A) → take (length xs) xs ≡ xs
  take_length [] = refl
  take_length (x ∷ xs) = ap (◌∷◌ x) (take_length xs)

  pub splice_whole : (xs bs : List A) → length bs ≡ length xs → splice xs 0 bs ≡ bs
  unfolding splice
  splice_whole [] [] h = refl
  splice_whole [] (b ∷ bs) h = absurd (omega arith)
  splice_whole (x ∷ xs) [] h = absurd (omega arith)
  splice_whole (x ∷ xs) (b ∷ bs) h = ap (◌∷◌ b) (splice_whole xs bs (omega arith))

  pub length-splice : (xs : List A) (off : ℕ) (bs : List A) → length (splice xs off bs) ≡ length xs
  unfolding splice
  length-splice [] off bs = refl
  length-splice (x ∷ xs) zero [] = refl
  length-splice (x ∷ xs) zero (b ∷ bs) = ap suc (length-splice xs zero bs)
  length-splice (x ∷ xs) (suc off) bs = ap suc (length-splice xs off bs)

  -- What was copied in is read back.
  pub slice-splice_self :
      (xs : List A) (off : ℕ) (bs : List A)
      → off + length bs ≤ length xs
      → slice off (length bs) (splice xs off bs) ≡ bs
  unfolding splice
  slice-splice_self xs zero [] h = refl
  slice-splice_self xs (suc off) [] h = refl
  slice-splice_self [] zero (b ∷ bs) h = absurd (omega arith)
  slice-splice_self [] (suc off) (b ∷ bs) h = absurd (omega arith)
  slice-splice_self (x ∷ xs) zero (b ∷ bs) h =
      ap (◌∷◌ b) (slice-splice_self xs zero bs (omega arith))
  slice-splice_self (x ∷ xs) (suc off) (b ∷ bs) h = slice-splice_self xs off (b ∷ bs) (omega arith)

  -- A copy leaves what lies after it alone.
  pub drop-splice_after :
      (xs : List A) (off : ℕ) (bs : List A) (at : ℕ)
      → off + length bs ≤ at
      → drop at (splice xs off bs) ≡ drop at xs
  unfolding splice
  drop-splice_after [] off bs at h = refl
  drop-splice_after (x ∷ xs) zero [] at h = refl
  drop-splice_after (x ∷ xs) zero (b ∷ bs) zero h = absurd (omega arith)
  drop-splice_after (x ∷ xs) zero (b ∷ bs) (suc at) h =
      drop-splice_after xs zero bs at (omega arith)
  drop-splice_after (x ∷ xs) (suc off) bs zero h = absurd (omega arith)
  drop-splice_after (x ∷ xs) (suc off) bs (suc at) h = drop-splice_after xs off bs at (omega arith)

  -- A copy leaves what lies before it alone.
  pub slice-splice_before :
      (xs : List A) (off : ℕ) (bs : List A) (at len : ℕ)
      → at + len ≤ off
      → slice at len (splice xs off bs) ≡ slice at len xs
  unfolding splice
  slice-splice_before [] off bs at len h = refl
  slice-splice_before (x ∷ xs) zero bs zero zero h = refl
  slice-splice_before (x ∷ xs) zero bs zero (suc len) h = absurd (omega arith)
  slice-splice_before (x ∷ xs) zero bs (suc at) len h = absurd (omega arith)
  slice-splice_before (x ∷ xs) (suc off) bs zero zero h = refl
  slice-splice_before (x ∷ xs) (suc off) bs zero (suc len) h =
      ap (◌∷◌ x) (slice-splice_before xs off bs zero len (omega arith))
  slice-splice_before (x ∷ xs) (suc off) bs (suc at) len h =
      slice-splice_before xs off bs at len (omega arith)

  pub length-slice :
      (xs : List A) (off len : ℕ) → off + len ≤ length xs → length (slice off len xs) ≡ len
  length-slice xs zero zero h = refl
  length-slice [] zero (suc len) h = absurd (omega arith)
  length-slice (x ∷ xs) zero (suc len) h = ap suc (length-slice xs zero len (omega arith))
  length-slice [] (suc off) zero h = refl
  length-slice [] (suc off) (suc len) h = absurd (omega arith)
  length-slice (x ∷ xs) (suc off) len h = length-slice xs off len (omega arith)

  pub slice-replicate :
      (n at len : ℕ) (a : A) → at + len ≤ n → slice at len (replicate n a) ≡ replicate len a
  slice-replicate zero zero zero a h = refl
  slice-replicate zero zero (suc len) a h = absurd (omega arith)
  slice-replicate zero (suc at) len a h = absurd (omega arith)
  slice-replicate (suc n) zero zero a h = refl
  slice-replicate (suc n) zero (suc len) a h =
      ap (◌∷◌ a) (slice-replicate n zero len a (omega arith))
  slice-replicate (suc n) (suc at) len a h = slice-replicate n at len a (omega arith)
