-- ===== src/File/FileMgr/Disk.antt =====
-- A file as its bytes: writing at an offset extends it, and a gap reads as zeros.
use sample_db.Base.{
  ℕ, zero, suc, ◌+◌, ◌≤◌, ◌≡◌, refl, ap, ◌∙◌, drop-nil, List, [], ◌∷◌, Bool, Str, length, slice,
  drop, take, arith, if◌then◌else◌, str_eq, str_beq, ◌==◌, codes,
}

unfoldable pub file_write : List ℕ → ℕ → List ℕ → List ℕ
file_write [] zero ds = ds
file_write [] (suc off) ds = 0 ∷ file_write [] off ds
file_write (x ∷ xs) zero [] = x ∷ xs
file_write (x ∷ xs) zero (d ∷ ds) = d ∷ file_write xs zero ds
file_write (x ∷ xs) (suc off) ds = x ∷ file_write xs off ds

-- The file name begins with "temp".
abbrev is_temporary : Str → Bool
is_temporary name = take 4 name == codes "temp"

unfoldable pub drop_temporary : List (Str × List ℕ) → List (Str × List ℕ)
unfolding str_beq
drop_temporary [] = []
drop_temporary ((name, bytes) ∷ rest) =
    let kept = drop_temporary rest in if is_temporary name then kept else (name, bytes) ∷ kept

pub slice-file_write_self :
    (xs : List ℕ) (off : ℕ) (ds : List ℕ) → slice off (length ds) (file_write xs off ds) ≡ ds
unfolding file_write
slice-file_write_self [] zero [] = refl
slice-file_write_self [] zero (d ∷ ds) = ap (◌∷◌ d) (slice-file_write_self [] zero ds)
slice-file_write_self [] (suc off) ds = slice-file_write_self [] off ds
slice-file_write_self (x ∷ xs) zero [] = refl
slice-file_write_self (x ∷ xs) zero (d ∷ ds) = ap (◌∷◌ d) (slice-file_write_self xs zero ds)
slice-file_write_self (x ∷ xs) (suc off) ds = slice-file_write_self xs off ds

pub slice-file_write_before :
    (xs : List ℕ) (off : ℕ) (ds : List ℕ) (at len : ℕ)
    → at + len ≤ off
    → at + len ≤ length xs
    → slice at len (file_write xs off ds) ≡ slice at len xs
unfolding file_write
slice-file_write_before [] off ds zero zero h k = refl
slice-file_write_before [] off ds zero (suc len) h k = absurd (omega arith)
slice-file_write_before [] off ds (suc at) len h k = absurd (omega arith)
slice-file_write_before (x ∷ xs) zero ds zero zero h k = refl
slice-file_write_before (x ∷ xs) zero ds zero (suc len) h k = absurd (omega arith)
slice-file_write_before (x ∷ xs) zero ds (suc at) len h k = absurd (omega arith)
slice-file_write_before (x ∷ xs) (suc off) ds zero zero h k = refl
slice-file_write_before (x ∷ xs) (suc off) ds zero (suc len) h k =
    ap (◌∷◌ x) (slice-file_write_before xs off ds zero len (omega arith) (omega arith))
slice-file_write_before (x ∷ xs) (suc off) ds (suc at) len h k =
    slice-file_write_before xs off ds at len (omega arith) (omega arith)

pub drop-file_write_after :
    (xs : List ℕ) (off : ℕ) (ds : List ℕ) (at : ℕ)
    → off + length ds ≤ at
    → drop at (file_write xs off ds) ≡ drop at xs
unfolding file_write
drop-file_write_after [] zero [] at h = refl
drop-file_write_after [] zero (d ∷ ds) zero h = absurd (omega arith)
drop-file_write_after [] zero (d ∷ ds) (suc at) h =
    drop-file_write_after [] zero ds at (omega arith) ∙ drop-nil at
drop-file_write_after [] (suc off) ds zero h = absurd (omega arith)
drop-file_write_after [] (suc off) ds (suc at) h =
    drop-file_write_after [] off ds at (omega arith) ∙ drop-nil at
drop-file_write_after (x ∷ xs) zero [] at h = refl
drop-file_write_after (x ∷ xs) zero (d ∷ ds) zero h = absurd (omega arith)
drop-file_write_after (x ∷ xs) zero (d ∷ ds) (suc at) h =
    drop-file_write_after xs zero ds at (omega arith)
drop-file_write_after (x ∷ xs) (suc off) ds zero h = absurd (omega arith)
drop-file_write_after (x ∷ xs) (suc off) ds (suc at) h =
    drop-file_write_after xs off ds at (omega arith)

-- A write at or before the end, that ends at or after it, ends the file.
pub length-file_write_end :
    (xs : List ℕ) (off : ℕ) (ds : List ℕ)
    → length xs ≤ off + length ds
    → length (file_write xs off ds) ≡ off + length ds
unfolding file_write
length-file_write_end [] zero ds h = omega arith
length-file_write_end [] (suc off) ds h =
    omega (arith, length-file_write_end [] off ds (omega arith))
length-file_write_end (x ∷ xs) zero [] h = absurd (omega arith)
length-file_write_end (x ∷ xs) zero (d ∷ ds) h =
    omega (arith, length-file_write_end xs zero ds (omega arith))
length-file_write_end (x ∷ xs) (suc off) ds h =
    omega (arith, length-file_write_end xs off ds (omega arith))

-- A write inside the file keeps its length.
pub length-file_write_inside :
    (xs : List ℕ) (off : ℕ) (ds : List ℕ)
    → off + length ds ≤ length xs
    → length (file_write xs off ds) ≡ length xs
unfolding file_write
length-file_write_inside [] zero [] h = refl
length-file_write_inside [] zero (d ∷ ds) h = absurd (omega arith)
length-file_write_inside [] (suc off) ds h = absurd (omega arith)
length-file_write_inside (x ∷ xs) zero [] h = refl
length-file_write_inside (x ∷ xs) zero (d ∷ ds) h =
    ap suc (length-file_write_inside xs zero ds (omega arith))
length-file_write_inside (x ∷ xs) (suc off) ds h =
    ap suc (length-file_write_inside xs off ds (omega arith))

-- A write never shortens a file, and the file holds all that was written.
pub length-file_write_ge :
    (xs : List ℕ) (off : ℕ) (ds : List ℕ)
    → (off + length ds ≤ length (file_write xs off ds))
      × (length xs ≤ length (file_write xs off ds))
unfolding file_write
length-file_write_ge [] zero ds = omega arith
length-file_write_ge [] (suc off) ds = omega (arith, length-file_write_ge [] off ds)
length-file_write_ge (x ∷ xs) zero [] = omega arith
length-file_write_ge (x ∷ xs) zero (d ∷ ds) = omega (arith, length-file_write_ge xs zero ds)
length-file_write_ge (x ∷ xs) (suc off) ds = omega (arith, length-file_write_ge xs off ds)
