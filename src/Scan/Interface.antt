-- ===== src/Scan/Interface.antt =====
-- scan/Scan.h and scan/UpdateScan.h: what a scan offers, and what a scan that changes its table
-- offers besides. record/RID.cpp: the place of a record.
use sample_db.Base.{Str, Bool, ℤ, int_eq, ◌==◌, ◌&&◌, Result}
use sample_db.Scan.Constant.{Constant}

-- A block number and a slot.
pub record Rid : Type 0 where
  pub block_number : ℤ
  pub slot : ℤ

-- `operator==` of RID.
abbrev pub rid_beq : Rid → Rid → Bool
rid_beq a b = a.block_number == b.block_number && a.slot == b.slot

-- `S` is the state of the scan.
pub record ScanOps (S : Type 0) : Type 0 where
  pub before_first : S → Result S
  pub next : S → Result (S × Bool)
  pub get_int : S → Str → Result ℤ
  pub get_bool : S → Str → Result Bool
  pub get_string : S → Str → Result Str
  pub get_value : S → Str → Result Constant
  pub has_field : S → Str → Bool
  pub close : S → Result S

pub record UpdateOps (S : Type 0) : Type 0 where
  pub set_int : S → Str → ℤ → Result S
  pub set_string : S → Str → Str → Result S
  pub set_value : S → Str → Constant → Result S
  pub insert : S → Result S
  pub remove : S → Result S
  pub move_to_rid : S → Rid → Result S
  pub get_rid : S → Result Rid
