-- ===== src/Record/RecordPage/Search.antt =====
-- The search for a slot with a flag, on a block that the transaction has locked exclusively.
use mathlib.Core.Path.{subst}
use native.Mathlib.Decide.{dec_lt, dec_le}
use sample_db.Base.{
  ℕ, zero, suc, ◌+◌, ◌*◌, ◌≤◌, ◌<◌, ◌≡◌, ◌≢◌, refl, ◌∙◌, Bool, true, false, not, ℤ, pos, negsuc,
  ◌+ℤ◌, int_lt, int_eq, ◌==◌, eq_iff, ok, Succeeds, Succeeds-map, length, arith, ◌⊎◌, inl, inr,
  slice,
}
use sample_db.File.Page.{Page}
use sample_db.File.Page.Words.{decode_int}
use sample_db.File.Page.RoundTrip.{get_int-fits}
use sample_db.Tx.Transaction.{Transaction, Waits, block_size}
use sample_db.Tx.Transaction
use sample_db.Tx.Transaction.Lookup.{Sees, get_int-Sees}
use sample_db.Record.RecordPage.{RecordPage, is_valid_slot, slot_offset, search_from, search_after}

-- The flag of slot `n` of a page.
abbrev pub flag_at : Page → ℕ → ℕ → ℤ
flag_at p size n = decode_int (slice (n * size) 4 p.bytes)

-- Slot `n` lies in a block of `bytes` bytes.
abbrev pub InBlock : ℕ → ℕ → ℕ → Type 0
InBlock size bytes n = suc n * size ≤ bytes

-- No slot from `n` on and before `m` that lies in the block has the flag.
abbrev pub NoneBefore : Page → ℕ → ℤ → ℕ → ℕ → Type 0
NoneBefore p size flag n m =
    (k : ℕ) → n ≤ k → k < m → InBlock size (length p.bytes) k → flag_at p size k ≢ flag

-- The first slot from `n` on with the flag, or -1.
abbrev pub FirstFrom : Page → ℕ → ℤ → ℕ → ℤ → Type 0
FirstFrom p size flag n r =
    ((m : ℕ) × (r ≡ pos m)
      × (n ≤ m)
      × InBlock size (length p.bytes) m
      × (flag_at p size m ≡ flag)
      × NoneBefore p size flag n m)
    ⊎ ((r ≡ negsuc 0) × ((m : ℕ) → NoneBefore p size flag n m))

valid_iff :
    (bytes n size : ℕ)
    → (suc n * size ≤ bytes → not (int_lt (pos bytes) (pos (suc n * size))) ≡ true)
      × (bytes < suc n * size → not (int_lt (pos bytes) (pos (suc n * size))) ≡ false)
valid_iff bytes n size = (λ e. ground arith, λ e. ground arith)

beyond : (bytes size n k : ℕ) → bytes < suc n * size → n ≤ k → suc k * size ≤ bytes → ⊥
beyond bytes size n k h le g = grind arith

next_slot : (n : ℕ) → pos n +ℤ pos 1 ≡ pos (suc n)
unfolding ◌+ℤ◌
next_slot n = ground arith

earlier :
    (p : Page) (size : ℕ) (flag : ℤ) (n m : ℕ)
    → flag_at p size n ≢ flag
    → NoneBefore p size flag (suc n) m
    → NoneBefore p size flag n m
earlier p size flag n m h none k le lt i = elim (dec_lt n k) [
  | yes above ↦ none k above lt i
  | no below ↦ subst (λ j. flag_at p size j ≢ flag) (omega (arith, below)) h
]

later-FirstFrom :
    (p : Page) (size : ℕ) (flag : ℤ) (n : ℕ) (r : ℤ)
    → flag_at p size n ≢ flag
    → FirstFrom p size flag (suc n) r
    → FirstFrom p size flag n r
later-FirstFrom p size flag n r h (inl (m, e, le, inside, same, none)) =
    inl (m, e, omega arith, inside, same, earlier p size flag n m h none)
later-FirstFrom p size flag n r h (inr (e, none)) = inr (e, λ m. earlier p size flag n m h (none m))

module _ (env : Transaction → Waits) where
  abbrev Found : Transaction → RecordPage → Page → ℕ → ℤ → Transaction × ℤ → Type 0
  Found t rp p n flag x = (x.0 ≡ t) × FirstFrom p rp.layout.slot_size flag n x.1

  past_the_end :
      (fuel : ℕ) (t : Transaction) (rp : RecordPage) (p : Page) (n : ℕ) (flag : ℤ)
      → length p.bytes ≡ block_size t
      → block_size t < suc n * rp.layout.slot_size
      → Succeeds (Found t rp p n flag) (search_from env (suc fuel) t rp (pos n) flag)
  unfolding search_from
  past_the_end fuel t rp p n flag e lt =
      rw (search_from, next_slot n, (valid_iff (block_size t) n rp.layout.slot_size).1 lt)
        (
          refl,
          inr (
            refl,
            λ m k le h i. absurd (beyond (block_size t) rp.layout.slot_size n k lt le (rw⁻¹ e i)),
          ),
        )

  -- One turn of the loop in the block.
  search_from-step :
      (fuel : ℕ) (t t' : Transaction) (rp : RecordPage) (slot flag val : ℤ)
      → is_valid_slot t rp slot ≡ true
      → Transaction.get_int env t rp.blk (slot_offset rp.layout slot) ≡ ok (t', val)
      → search_from env (suc fuel) t rp slot flag ≡ elim (val == flag) [
        | true ↦ ok (t', slot)
        | false ↦ search_from env fuel t' rp (slot +ℤ pos 1) flag
      ]
  unfolding search_from
  search_from-step fuel t t' rp slot flag val v e = rw (search_from, v, e) refl

  search_from-Found :
      (fuel : ℕ) (t : Transaction) (rp : RecordPage) (p : Page) (n : ℕ) (flag : ℤ)
      → Sees t rp.blk p
      → length p.bytes ≡ block_size t
      → 4 ≤ rp.layout.slot_size
      → length p.bytes < fuel + n
      → Succeeds (Found t rp p n flag) (search_from env (suc fuel) t rp (pos n) flag)
  unfolding search_from
  search_from-Found zero t rp p n flag h e four lt =
      past_the_end zero t rp p n flag e
        (far (block_size t) n rp.layout.slot_size (omega arith) four)
    where
      far : (b n s : ℕ) → b < n → 4 ≤ s → b < suc n * s
      far b n s lt le = grind arith
  search_from-Found (suc fuel) t rp p n flag h e four lt =
      let ih = search_from-Found fuel t rp p (suc n) flag h e four (omega arith) in
      elim (dec_le (suc n * rp.layout.slot_size) (block_size t)) [
        | no over ↦ past_the_end (suc fuel) t rp p n flag e (omega (arith, over))
        | yes inside ↦
            rw
              (search_from-step (suc fuel) t t rp (pos n) flag (flag_at p rp.layout.slot_size n)
                (rw (next_slot n) ((valid_iff (block_size t) n rp.layout.slot_size).0 inside))
                (get_int-Sees env t rp.blk p (n * rp.layout.slot_size) h
                  ∙ rw
                      (get_int-fits p (n * rp.layout.slot_size)
                        (flag_inside (length p.bytes) n rp.layout.slot_size four (rw e inside)))
                      refl))
              (turn (flag_at p rp.layout.slot_size n == flag) refl (rw e inside)
                (rw (next_slot n) ih))
      ]
    where
      flag_inside : (b n s : ℕ) → 4 ≤ s → suc n * s ≤ b → n * s + 4 ≤ b
      flag_inside b n s four le = grind arith

      turn :
          (b : Bool)
          → (flag_at p rp.layout.slot_size n == flag) ≡ b
          → InBlock rp.layout.slot_size (length p.bytes) n
          → Succeeds
              (Found t rp p (suc n) flag)
              (search_from env (suc fuel) t rp (pos n +ℤ pos 1) flag)
          → Succeeds (Found t rp p n flag) (elim b [
            | true ↦ ok (t, pos n)
            | false ↦ search_from env (suc fuel) t rp (pos n +ℤ pos 1) flag
          ])
      turn true same inside next = (
        refl,
        inl (
          n,
          refl,
          omega arith,
          inside,
          (eq_iff _ flag).0 same,
          λ k le lt' i. absurd (omega arith),
        ),
      )
      turn false other inside next =
          Succeeds-map (Found t rp p (suc n) flag) (Found t rp p n flag)
            (search_from env (suc fuel) t rp (pos n +ℤ pos 1) flag) next
            λ x g. (g.0, later-FirstFrom p rp.layout.slot_size flag n x.1 (differs other) g.1)
        where
          differs :
              (flag_at p rp.layout.slot_size n == flag) ≡ false
              → flag_at p rp.layout.slot_size n ≢ flag
          differs o s = grind (arith, eq_iff (flag_at p rp.layout.slot_size n) flag)

  -- On a block that the transaction has locked exclusively and pinned, `searchAfter` gives the first
  -- slot after the one given that has the flag, or -1 when no slot of the block after it has it, and
  -- changes nothing. A slot has room for its flag, and two more turns than the block has bytes are
  -- enough.
  pub search_after-FirstFrom :
      (fuel : ℕ) (t : Transaction) (rp : RecordPage) (p : Page) (n : ℕ) (flag : ℤ)
      → Sees t rp.blk p
      → length p.bytes ≡ block_size t
      → 4 ≤ rp.layout.slot_size
      → length p.bytes < fuel
      → Succeeds
          (λ (x : Transaction × ℤ). (x.0 ≡ t) × FirstFrom p rp.layout.slot_size flag n x.1)
          (search_after env (suc fuel) t rp (pos n +ℤ negsuc 0) flag)
  unfolding ◌+ℤ◌
  search_after-FirstFrom fuel t rp p n flag h e four lt =
      rw (back n) (search_from-Found fuel t rp p n flag h e four (omega arith))
    where
      back : (n : ℕ) → pos n +ℤ negsuc 0 +ℤ pos 1 ≡ pos n
      back n = ground arith
