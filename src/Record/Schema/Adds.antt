-- ===== src/Record/Schema/Adds.antt =====
-- Copying fields from a schema: what may go wrong.
use sample_db.Base.{List, [], ◌∷◌, Str, str_eq, find, inl, inr, Option-cases, Runs, bind-Runs}
use sample_db.Record.Schema.{Schema, add, add_names, field_type, field_length}

-- The schemas' part throws at most.
pub field_type-Runs : (s : Schema) (name : Str) → Runs (field_type s name)
unfolding field_type
field_type-Runs s name = elim (Option-cases (find name s.field_info)) [
  | inl e ↦ rw e tt
  | inr e ↦ rw (e.1) tt
]

pub field_length-Runs : (s : Schema) (name : Str) → Runs (field_length s name)
unfolding field_length
field_length-Runs s name = elim (Option-cases (find name s.field_info)) [
  | inl e ↦ rw e tt
  | inr e ↦ rw (e.1) tt
]

add-Runs : (s : Schema) (name : Str) (other : Schema) → Runs (add s name other)
unfolding add
add-Runs s name other =
    bind-Runs _ _ (field_type-Runs other name)
      λ type. bind-Runs _ _ (field_length-Runs other name) λ length. tt

pub add_names-Runs : (names : List Str) (s other : Schema) → Runs (add_names names s other)
unfolding add_names
add_names-Runs [] s other = tt
add_names-Runs (name ∷ names) s other =
    bind-Runs (add s name other) _ (add-Runs s name other) λ s'. add_names-Runs names s' other
