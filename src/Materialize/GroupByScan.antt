-- ===== src/Materialize/GroupByScan.antt =====
-- materialize/GroupByScan.cpp and GroupValue.cpp: the rows of a scan in groups of neighbours that
-- agree on some fields, each group with its aggregates.
pub mod Rows
pub mod Aggregates
use sample_db.Base.{
  ℕ, zero, suc, List, [], ◌∷◌, Bool, true, false, not, ◌||◌, Option, none, some, Str, str_eq, ℤ,
  pos, int_eq, ◌==◌, Result, ok, err, fault, thrown, starved, ◌>>=◌, of_option, find, put,
  if◌then◌else◌,
}
use sample_db.Scan.Constant.{Constant, constant_eq}
use sample_db.Scan.Predicate.{Row}
use sample_db.Scan.Interface.{ScanOps}
use sample_db.Materialize.AggregationFn.{
  AggregationFn, process_first, process_next, field_name, value_of,
}

-- The values of the group's fields. A missing one throws.
abbrev pub GroupValue : Type 0
GroupValue = List (Str × Constant)

-- The constructor.
unfoldable pub new_group_value : Row → List Str → Result GroupValue
new_group_value row [] = ok []
new_group_value row (field ∷ fields) = do
  v ← row field
  more ← new_group_value row fields
  ok (put field v more)

-- Whether the other group has the field with the same value.
unfoldable pub same_value : Option Constant → Constant → Result Bool
same_value none v = ok false
same_value (some w) v = constant_eq w v

-- `operator==`: each value of the first group is that of the second.
unfoldable pub group_eq : GroupValue → GroupValue → Result Bool
group_eq [] other = ok true
group_eq ((field, v) ∷ values) other = do
  same ← same_value (find field other) v
  if same then group_eq values other else ok false

abbrev pub get_group_value : GroupValue → Str → Result Constant
get_group_value g field = of_option (find field g) thrown

-- `S` is the state of the scan below.
pub record GroupByScan (S : Type 0) : Type 0 where
  pub src : S
  pub group_fields : List Str
  pub agg_fns : List AggregationFn
  pub current_group : Option GroupValue
  pub more_groups : Bool

-- A call of each function, in order.
unfoldable pub each_fn :
    (AggregationFn → Result AggregationFn) → List AggregationFn → Result (List AggregationFn)
each_fn call [] = ok []
each_fn call (fn ∷ fns) = do fn' ← call fn; fns' ← each_fn call fns; ok (fn' ∷ fns')

-- The value of the first function with a field name.
unfoldable pub find_fn : Str → List AggregationFn → Option Constant
find_fn field [] = none
find_fn field (fn ∷ fns) =
    let later = find_fn field fns in if field_name fn == field then some (value_of fn) else later

unfoldable pub is_group_field : Str → List Str → Bool
is_group_field field [] = false
is_group_field field (f ∷ fs) = let later = is_group_field field fs in f == field || later

module _ {S : Type 0} (scan : ScanOps S) where
  unfoldable pub before_first : GroupByScan S → Result (GroupByScan S)
  before_first g = do
    s ← scan.before_first g.src
    (s', more) ← scan.next s
    ok (record g { src = s'; more_groups = more })

  -- The constructor.
  abbrev pub new_group_by_scan : S → List Str → List AggregationFn → Result (GroupByScan S)
  new_group_by_scan src fields fns = before_first (record {
    src = src;
    group_fields = fields;
    agg_fns = fns;
    current_group = none;
    more_groups = false;
  })

  -- The loop of `next`, with fuel: the rows that agree with the group.
  unfoldable pub rest_of_group :
      ℕ → List Str → GroupValue → S → List AggregationFn → Result (S × List AggregationFn × Bool)
  rest_of_group zero fields group s fns = err starved
  rest_of_group (suc fuel) fields group s fns = do
    (s', more) ← scan.next s
    elim more [
      | false ↦ ok (s', fns, false)
      | true ↦ do
        gv ← new_group_value (scan.get_value s') fields
        same ← group_eq group gv
        elim same [
          | false ↦ ok (s', fns, true)
          | true ↦ do
            fns' ← each_fn (process_next (scan.get_value s')) fns
            rest_of_group fuel fields group s' fns'
        ]
    ]

  -- `next`, when there is a group.
  unfoldable pub next_group : ℕ → GroupByScan S → Result (GroupByScan S)
  next_group fuel g = do
    fns ← each_fn (process_first (scan.get_value g.src)) g.agg_fns
    group ← new_group_value (scan.get_value g.src) g.group_fields
    (s, fns', more) ← rest_of_group fuel g.group_fields group g.src fns
    ok (record g { src = s; agg_fns = fns'; current_group = some group; more_groups = more })

  unfoldable pub next : ℕ → GroupByScan S → Result (GroupByScan S × Bool)
  next fuel g = if g.more_groups then (next_group fuel g >>= λ g'. ok (g', true)) else ok (g, false)

  unfoldable pub get_value : GroupByScan S → Str → Result Constant
  get_value g field =
      if is_group_field field g.group_fields
      then (of_option g.current_group fault >>= λ group. get_group_value group field)
      else of_option (find_fn field g.agg_fns) thrown

  -- `getInt`, `getBool` and `getString`: a constant without the part is a fault.
  unfoldable pub get_int : GroupByScan S → Str → Result ℤ
  get_int g field = do c ← get_value g field; of_option c.ival fault

  abbrev pub get_bool : GroupByScan S → Str → Result Bool
  get_bool g field = do n ← get_int g field; ok (not (n == pos 0))

  unfoldable pub get_string : GroupByScan S → Str → Result Str
  get_string g field = do c ← get_value g field; of_option c.sval fault

  abbrev pub is_some {ℓ} : {A : Type ℓ} → Option A → Bool
  is_some none = false
  is_some (some a) = true

  unfoldable pub has_field : GroupByScan S → Str → Bool
  has_field g field =
      if is_group_field field g.group_fields then true else is_some (find_fn field g.agg_fns)

  unfoldable pub close : GroupByScan S → Result (GroupByScan S)
  close g = do s ← scan.close g.src; ok (record g { src = s })

  abbrev pub group_by_scan : ℕ → ScanOps (GroupByScan S)
  group_by_scan fuel = record {
    before_first = before_first;
    next = next fuel;
    get_int = get_int;
    get_bool = get_bool;
    get_string = get_string;
    get_value = get_value;
    has_field = has_field;
    close = close;
  }
