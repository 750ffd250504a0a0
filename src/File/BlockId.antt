-- ===== src/File/BlockId.antt =====
-- file/BlockId.cpp: a block of a file. The number is signed: -1 marks the end of a file.
use sample_db.Base.{
  ◌≡◌, ◌↔◌, Bool, true, ◌&&◌, arith, Str, ℤ, Eq, ◌==◌, eq_iff, str_eq, int_eq, int_lt, str_lt, [],
  if◌then◌else◌, nat_eq,
}

pub record BlockId : Type 0 where
  pub file_name : Str
  pub number : ℤ

-- `operator==` and `equals`.
abbrev pub block_beq : BlockId → BlockId → Bool
block_beq a b = (a.file_name == b.file_name) && (a.number == b.number)

pub block_beq_iff : (a b : BlockId) → (block_beq a b ≡ true) ↔ (a ≡ b)
block_beq_iff a b = ground (arith, eq_iff a.file_name b.file_name, eq_iff a.number b.number)

instance abbrev pub block_eq : Eq BlockId
block_eq = record { test = block_beq; decides = block_beq_iff }

-- `operator<`, the order of the maps.
unfoldable pub block_lt : BlockId → BlockId → Bool
block_lt a b =
    if a.file_name == b.file_name then int_lt a.number b.number else str_lt a.file_name b.file_name

-- The null block has the empty file name.
unfoldable pub is_null : BlockId → Bool
is_null b = b.file_name == []
