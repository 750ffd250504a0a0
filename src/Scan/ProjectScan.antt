-- ===== src/Scan/ProjectScan.antt =====
-- scan/ProjectScan.cpp: a scan with some of its fields.
pub mod Rows
use sample_db.Base.{
  List, [], ◌∷◌, Str, str_eq, ◌==◌, Bool, true, false, ◌||◌, Result, err, thrown, if◌then◌else◌,
}
use sample_db.Scan.Interface.{ScanOps}

-- `std::find` among the fields.
unfoldable pub is_listed : Str → List Str → Bool
is_listed name [] = false
is_listed name (f ∷ fs) = let later = is_listed name fs in f == name || later

abbrev pub project_scan : {S : Type 0} → ScanOps S → List Str → ScanOps S
project_scan scan fields = record {
  before_first = scan.before_first;
  next = scan.next;
  get_int = λ s name. if is_listed name fields then scan.get_int s name else err thrown;
  get_bool = λ s name. if is_listed name fields then scan.get_bool s name else err thrown;
  get_string = λ s name. if is_listed name fields then scan.get_string s name else err thrown;
  get_value = λ s name. if is_listed name fields then scan.get_value s name else err thrown;
  has_field = λ s name. is_listed name fields;
  close = scan.close;
}
