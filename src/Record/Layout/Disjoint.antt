-- ===== src/Record/Layout/Disjoint.antt =====
-- The fields of a record do not overlap, and lie between the flag and the end of the slot.
use sample_db.Base.{
  ℕ, ◌+◌, ◌≤◌, ◌≡◌, ◌≢◌, ◌⊎◌, inl, inr, refl, List, [], ◌∷◌, some, Str, str_eq, ok, find, put,
  find-put, arith, eq_iff, Result-cases, ok-injective,
}
use mathlib.Core.Path.{subst}
use sample_db.Record.Schema.{Schema}
use sample_db.Record.Layout.{Layout, length_in_bytes, place, new_layout, offset}

-- The fields that have been placed lie between the flag and `end`, and do not overlap.
record IsPlaced (schema : Schema) (offsets : List (Str × ℕ)) (end : ℕ) : Type 0 where
  start : 4 ≤ end
  within :
      (f : Str) (a n : ℕ)
      → find f offsets ≡ some a
      → length_in_bytes schema f ≡ ok n
      → (4 ≤ a) × (a + n ≤ end)
  apart :
      (f g : Str) (a b n m : ℕ)
      → f ≢ g
      → find f offsets ≡ some a
      → find g offsets ≡ some b
      → length_in_bytes schema f ≡ ok n
      → length_in_bytes schema g ≡ ok m
      → (a + n ≤ b) ⊎ (b + m ≤ a)

IsPlaced-put :
    (schema : Schema) (offsets : List (Str × ℕ)) (end n : ℕ) (name : Str)
    → IsPlaced schema offsets end
    → length_in_bytes schema name ≡ ok n
    → IsPlaced schema (put name end offsets) (end + n)
IsPlaced-put schema offsets end n name v e = record {
  start = omega (arith, v.start);
  within = λ f a k p q.
      ground (arith, find-put name f end offsets, eq_iff name f, v.start, v.within f a k);
  apart = λ f g a b k m d p q r s. ground (
    arith,
    find-put name f end offsets,
    eq_iff name f,
    find-put name g end offsets,
    eq_iff name g,
    v.within f a k,
    v.within g b m,
    v.apart f g a b k m d,
  );
}

place-IsPlaced :
    (schema : Schema) (names : List Str) (offsets : List (Str × ℕ)) (end : ℕ) (l : Layout)
    → IsPlaced schema offsets end
    → place schema names offsets end ≡ ok l
    → (l.schema ≡ schema) × IsPlaced schema l.offsets l.slot_size
unfolding place
place-IsPlaced schema [] offsets end l v e =
    subst (λ k. (k.schema ≡ schema) × IsPlaced schema k.offsets k.slot_size) (ok-injective e)
      (refl, v)
place-IsPlaced schema (name ∷ names) offsets end l v e =
    elim (Result-cases (length_in_bytes schema name)) [
      | inl (n, h) ↦
          place-IsPlaced schema names (put name end offsets) (end + n) l
            (IsPlaced-put schema offsets end n name v h) (ground arith)
      | inr (f, h) ↦ absurd (ground arith)
    ]

nothing-IsPlaced : (schema : Schema) → IsPlaced schema [] 4
unfolding find
nothing-IsPlaced schema = record {
  start = omega arith;
  within = λ f a n p q. cc;
  apart = λ f g a b n m d p q r s. cc;
}

offset-find : (l : Layout) (f : Str) (a : ℕ) → offset l f ≡ ok a → find f l.offsets ≡ some a
unfolding offset
offset-find l f a e = ground arith

-- A field lies behind the flag and inside the slot.
pub new_layout_within :
    (schema : Schema) (l : Layout) (f : Str) (a n : ℕ)
    → new_layout schema ≡ ok l
    → offset l f ≡ ok a
    → length_in_bytes l.schema f ≡ ok n
    → (4 ≤ a) × (a + n ≤ l.slot_size)
unfolding new_layout
new_layout_within schema l f a n e p q =
    let (same, v) = place-IsPlaced schema schema.fields [] 4 l (nothing-IsPlaced schema) e in
    v.within f a n (offset-find l f a p) (rw (← same) q)

-- Two fields of a record never share a byte.
pub new_layout_apart :
    (schema : Schema) (l : Layout) (f g : Str) (a b n m : ℕ)
    → new_layout schema ≡ ok l
    → f ≢ g
    → offset l f ≡ ok a
    → offset l g ≡ ok b
    → length_in_bytes l.schema f ≡ ok n
    → length_in_bytes l.schema g ≡ ok m
    → (a + n ≤ b) ⊎ (b + m ≤ a)
unfolding new_layout
new_layout_apart schema l f g a b n m e d p q r s =
    let (same, v) = place-IsPlaced schema schema.fields [] 4 l (nothing-IsPlaced schema) e in
    v.apart f g a b n m d (offset-find l f a p) (offset-find l g b q) (rw (← same) r)
      (rw (← same) s)
