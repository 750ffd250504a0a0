-- ===== src/Indexing/BTreePage/Search.antt =====
-- The search for a key in a page with integer keys that the transaction has locked exclusively.
use mathlib.Core.Path.{subst}
use native.Mathlib.Decide.{dec_lt}
use sample_db.Base.{
  ℕ, zero, suc, ◌+◌, ◌*◌, ◌≤◌, ◌<◌, ◌≡◌, refl, sym, ap, ◌∙◌, Bool, true, false, str_eq, ℤ, pos,
  negsuc, ◌+ℤ◌, int_lt, ok, ◌>>=◌, Succeeds, Succeeds-eq, length, arith, slice,
}
use sample_db.File.Page.{Page}
use sample_db.File.Page
use sample_db.File.Page.Words.{decode_int}
use sample_db.File.Page.RoundTrip.{get_int-fits}
use sample_db.Tx.Transaction.{Transaction, Waits}
use sample_db.Tx.Transaction.Lookup.{Sees, get_int-Sees}
use sample_db.Record.Schema.{field_type, integer}
use sample_db.Record.Layout
use sample_db.Scan.Constant.{Constant, int_constant, constant_lt, compare_by}
use sample_db.Indexing.BTreePage.{
  BTreePage, data_val, get_num_recs, get_data_val, get_int, get_value, fld_pos, slot_of_key,
  find_slot_before,
}

-- The key of record `k` on a page, with its field at `off` in a slot.
abbrev pub key_at : Page → ℕ → ℕ → ℕ → ℤ
key_at p size off k = decode_int (slice (8 + k * size + off) 4 p.bytes)

-- A page of `count` records with integer keys, which lie in it.
pub record HasKeys (t : Transaction) (b : BTreePage) (p : Page) (off count : ℕ) : Type 0 where
  pub sees : Sees t b.blk p
  pub type : field_type b.layout.schema data_val ≡ ok integer
  pub field : Layout.offset b.layout data_val ≡ ok off
  pub number : Page.get_int p 4 ≡ ok (pos count)
  pub inside : (k : ℕ) → k < count → 8 + k * b.layout.slot_size + off + 4 ≤ length p.bytes

-- The keys before place `m` are less than the key, and the one there is not.
abbrev pub IsPlace : Page → ℕ → ℕ → ℕ → ℤ → ℕ → Type 0
IsPlace p size off count key m =
    (m ≤ count)
    × ((k : ℕ) → k < m → int_lt (key_at p size off k) key ≡ true)
    × (m < count → int_lt (key_at p size off m) key ≡ false)

module _ (env : Transaction → Waits) where
  get_num_recs-HasKeys :
      (t : Transaction) (b : BTreePage) (p : Page) (off count : ℕ)
      → HasKeys t b p off count
      → get_num_recs env t b ≡ ok (t, pos count)
  get_num_recs-HasKeys t b p off count h = get_int-Sees env t b.blk p 4 h.sees ∙ rw (h.number) refl

  get_data_val-HasKeys :
      (t : Transaction) (b : BTreePage) (p : Page) (off count k : ℕ)
      → HasKeys t b p off count
      → k < count
      → get_data_val env t b (pos k) ≡ ok (t, int_constant (key_at p b.layout.slot_size off k))
  unfolding get_value get_int fld_pos ◌+ℤ◌
  get_data_val-HasKeys t b p off count k h lt =
      rw
        (
          h.type,
          h.field,
          get_int-Sees env t b.blk p (8 + k * b.layout.slot_size + off) h.sees,
          get_int-fits p (8 + k * b.layout.slot_size + off) (h.inside k lt),
        )
        refl

  -- The loop, on a key that is still less, and where it stops.
  slot_of_key-step :
      (fuel : ℕ) (t : Transaction) (b : BTreePage) (key : Constant) (slot n : ℤ) (val : Constant)
      (less : Bool)
      → get_num_recs env t b ≡ ok (t, n)
      → int_lt slot n ≡ true
      → get_data_val env t b slot ≡ ok (t, val)
      → constant_lt val key ≡ ok less
      → slot_of_key env (suc fuel) t b key slot
        ≡ elim less [ false ↦ ok (t, slot) | true ↦ slot_of_key env fuel t b key (slot +ℤ pos 1) ]
  unfolding slot_of_key
  slot_of_key-step fuel t b key slot n val less e lt f g = rw (slot_of_key, e, ◌>>=◌, lt, f, g) refl

  slot_of_key-end :
      (fuel : ℕ) (t : Transaction) (b : BTreePage) (key : Constant) (slot n : ℤ)
      → get_num_recs env t b ≡ ok (t, n)
      → int_lt slot n ≡ false
      → slot_of_key env (suc fuel) t b key slot ≡ ok (t, slot)
  unfolding slot_of_key
  slot_of_key-end fuel t b key slot n e ge = rw (slot_of_key, e, ◌>>=◌, ge) refl

  abbrev pub Placed : Transaction → Page → ℕ → ℕ → ℕ → ℤ → Transaction × ℤ → Type 0
  Placed t p size off count key x =
      (x.0 ≡ t) × ((m : ℕ) × (x.1 ≡ pos m) × IsPlace p size off count key m)

  longer : (P : ℕ → Type 0) (n : ℕ) → ((k : ℕ) → k < n → P k) → P n → (k : ℕ) → k < suc n → P k
  longer P n before here k lt = elim (dec_lt k n) [
    | yes below ↦ before k below
    | no above ↦ subst P (omega (arith, above)) here
  ]

  next_slot : (n : ℕ) → pos n +ℤ pos 1 ≡ pos (suc n)
  next_slot n = unfold ◌+ℤ◌ in ap pos (omega arith)

  slot_of_key-Placed :
      (fuel : ℕ) (t : Transaction) (b : BTreePage) (p : Page) (off count : ℕ) (key : ℤ) (n : ℕ)
      → HasKeys t b p off count
      → n ≤ count
      → ((k : ℕ) → k < n → int_lt (key_at p b.layout.slot_size off k) key ≡ true)
      → count < fuel + n
      → Succeeds
          (Placed t p b.layout.slot_size off count key)
          (slot_of_key env fuel t b (int_constant key) (pos n))
  slot_of_key-Placed zero t b p off count key n h le before lt = absurd (omega arith)
  slot_of_key-Placed (suc fuel) t b p off count key n h le before lt = elim (dec_lt n count) [
    | no ge ↦
        rw
          (slot_of_key-end fuel t b (int_constant key) (pos n) (pos count)
            (get_num_recs-HasKeys t b p off count h) (outside n count (omega (arith, ge))))
          (refl, (n, refl, (le, before, λ lt'. absurd (omega (arith, ge)))))
    | yes inside ↦
        rw
          (slot_of_key-step fuel t b (int_constant key) (pos n) (pos count)
            (int_constant (key_at p b.layout.slot_size off n))
            (int_lt (key_at p b.layout.slot_size off n) key)
            (get_num_recs-HasKeys t b p off count h) (within n count inside)
            (get_data_val-HasKeys t b p off count n h inside)
            (unfold constant_lt compare_by in refl))
          (turn (int_lt (key_at p b.layout.slot_size off n) key) refl inside λ less.
            subst
              (λ (k : ℤ).
                Succeeds (Placed t p b.layout.slot_size off count key)
                  (slot_of_key env fuel t b (int_constant key) k))
              (sym (next_slot n))
              (slot_of_key-Placed fuel t b p off count key (suc n) h (omega arith)
                (longer (λ k. int_lt (key_at p b.layout.slot_size off k) key ≡ true) n before less)
                (omega arith)))
  ]
    where
      turn :
          (less : Bool)
          → int_lt (key_at p b.layout.slot_size off n) key ≡ less
          → n < count
          → (int_lt (key_at p b.layout.slot_size off n) key ≡ true
              → Succeeds
                  (Placed t p b.layout.slot_size off count key)
                  (slot_of_key env fuel t b (int_constant key) (pos n +ℤ pos 1)))
          → Succeeds (Placed t p b.layout.slot_size off count key) (elim less [
            | false ↦ ok (t, pos n)
            | true ↦ slot_of_key env fuel t b (int_constant key) (pos n +ℤ pos 1)
          ])
      turn true e inside rest = rest e
      turn false e inside rest = (refl, (n, refl, (le, before, λ lt'. e)))

      outside : (a b : ℕ) → b ≤ a → int_lt (pos a) (pos b) ≡ false
      outside a b h = ground arith

      within : (a b : ℕ) → a < b → int_lt (pos a) (pos b) ≡ true
      within a b h = ground arith

  -- On a page that the transaction has locked exclusively, whose records have integer keys, the
  -- search returns and changes nothing. It gives the slot in front of a place: every record before
  -- the place has a key that is less than the one searched for, and the record at the place, if
  -- there is one, has not. One turn for each record and one more are enough.
  pub find_slot_before-IsPlace :
      (fuel : ℕ) (t : Transaction) (b : BTreePage) (p : Page) (off count : ℕ) (key : ℤ)
      → HasKeys t b p off count
      → count < fuel
      → Succeeds
          (λ (x : Transaction × ℤ).
            (x.0 ≡ t)
            × ((m : ℕ) × (x.1 ≡ pos m +ℤ negsuc 0) × IsPlace p b.layout.slot_size off count key m))
          (find_slot_before env fuel t b (int_constant key))
  unfolding find_slot_before
  find_slot_before-IsPlace fuel t b p off count key h lt =
      let (x, e, (same, (m, at, place))) =
        Succeeds-eq (Placed t p b.layout.slot_size off count key)
          (slot_of_key env fuel t b (int_constant key) (pos 0))
          (slot_of_key-Placed fuel t b p off count key 0 h (omega arith)
            (λ k below. absurd (omega (arith, below))) (omega arith)) in
      rw e (same, (m, ap (λ (k : ℤ). k +ℤ negsuc 0) at, place))
