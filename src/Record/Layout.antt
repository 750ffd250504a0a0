-- ===== src/Record/Layout.antt =====
-- record/Layout.cpp: where the fields of a record stand in its slot. The first four bytes are the
-- flag that says whether the slot is used.
pub mod Disjoint
use sample_db.Base.{
  ℕ, ◌+◌, List, [], ◌∷◌, Option, none, some, Str, str_eq, Result, ok, err, thrown, fault, guard,
  ltb, ◌>>=◌, ◌>>◌, find, put, of_option, if◌then◌else◌, nat_beq,
}
use sample_db.File.Page.{size_of_int, max_length}
use sample_db.Record.Schema.{Schema, field_type, field_length, integer, varchar, boolean}

pub record Layout : Type 0 where
  pub schema : Schema
  pub offsets : List (Str × ℕ)
  pub slot_size : ℕ

unfoldable pub length_in_bytes : Schema → Str → Result ℕ
unfolding field_type field_length
length_in_bytes schema name = do
  type ← field_type schema name
  if nat_beq type integer
      then ok size_of_int
      else if nat_beq type boolean
      then ok size_of_int
      else if nat_beq type varchar
      then (do n ← field_length schema name; ok (max_length n))
      else err thrown

-- The loop of the constructor: each field begins where the one before it ends. The sum is an `int`.
unfoldable pub place : Schema → List Str → List (Str × ℕ) → ℕ → Result Layout
unfolding length_in_bytes put
place schema [] offsets at = ok (record { schema = schema; offsets = offsets; slot_size = at })
place schema (name ∷ names) offsets at = do
  n ← length_in_bytes schema name
  guard (ltb (at + n) 2_147_483_648) fault
  place schema names (put name at offsets) (at + n)

unfoldable pub new_layout : Schema → Result Layout
unfolding place
new_layout schema = place schema schema.fields [] size_of_int

unfoldable pub offset : Layout → Str → Result ℕ
unfolding find
offset l name = of_option (find name l.offsets) thrown
