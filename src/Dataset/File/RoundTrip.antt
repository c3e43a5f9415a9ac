-- ===== src/Dataset/File/RoundTrip.antt =====
-- A dataset that is saved and loaded, of AnnService/inc/Core/Common/Dataset.h.
use mathlib.Core.List.{append_assoc}
use sptag.Base.{
  ℕ, zero, suc, ◌+◌, ◌*◌, ◌^◌, ◌≤◌, ◌<◌, ◌≡◌, refl, ap, sym, ◌∙◌, true, false, List, [], ◌∷◌, ◌++◌,
  some, length, length-append, take, drop, take-append_self, drop-append_self, ltb, get_elem?,
  get_elem?-inside, ◌>>=◌, arith,
}
use sptag.Base.Sums.{every}
use sptag.Wire.{Bytes, write_uint, read_uint-write_uint}
use sptag.Dataset.{Dataset, at, r, initialize}
use sptag.Dataset.Address.{flat, has_size, IsValid, view, length-view, at-view}
use sptag.Dataset.Rows.{take-all, initialize-view}
use sptag.Dataset.File.{save_rows, save, load_rows, load}

drop-get_elem? {ℓ} :
    {A : Type ℓ} (xs : List A) (i : ℕ) (x : A)
    → get_elem? xs i ≡ some x
    → drop i xs ≡ x ∷ drop (suc i) xs
drop-get_elem? [] i x h = absurd (let never = h in cc)
drop-get_elem? (y ∷ xs) zero x h = let same : y ≡ x = grind arith in ap (λ z. z ∷ xs) same
drop-get_elem? (y ∷ xs) (suc i) x h = drop-get_elem? xs i x h

save_rows-view :
    (d : Dataset Bytes) (n i : ℕ)
    → IsValid d
    → i + n ≤ r d
    → save_rows d n i ≡ some (flat (take n (drop i (view d))))
unfolding save_rows flat
save_rows-view d zero i v le = refl
save_rows-view d (suc n) i v le =
    let inside : i < length (view d) = omega (arith, length-view d v, le) in
    let (row, found) = get_elem?-inside (view d) i inside in
    let here : at d i ≡ some row = at-view d i v (omega (arith, le)) ∙ found in
    rw (here, save_rows-view d n (suc i) v (omega (arith, le)), drop-get_elem? (view d) i row found)
      refl

load_rows-flat :
    (width : ℕ) (rows : List Bytes) (rest : Bytes)
    → every (has_size width) rows ≡ true
    → load_rows width (length rows) (flat rows ++ rest) ≡ some (rows, rest)
unfolding load_rows flat every has_size
load_rows-flat width [] rest h = refl
load_rows-flat width (row ∷ rows) rest h =
    let wide : length row ≡ width = ground (arith, h) in
    let more = load_rows-flat width rows rest (ground (arith, h)) in
    let enough : ltb (length (row ++ (flat rows ++ rest))) width ≡ false =
      ground (arith, wide, length-append row (flat rows ++ rest)) in
    rw
      (
        append_assoc row (flat rows) rest,
        enough,
        drop-append_self row (flat rows ++ rest) width wide,
        take-append_self row (flat rows ++ rest) width wide,
        more,
      )
      refl

-- Of a well-formed dataset below 2^31 rows and columns, each row of the size of its columns, Save
-- succeeds, and Load of a dataset without data reads from the bytes, whatever follows them, the
-- columns and a well-formed dataset of the same rows.
pub load-save :
    (size_of cols block_size capacity : ℕ) (blank rest : Bytes) (d : Dataset Bytes)
    → IsValid d
    → every (has_size (size_of * cols)) (view d) ≡ true
    → r d < 2 ^ 31
    → cols < 2 ^ 31
    → (bs : Bytes) × (d' : Dataset Bytes) × (save d cols ≡ some bs)
      × (load size_of blank block_size capacity (bs ++ rest) ≡ some ((cols, d'), rest))
      × IsValid d'
      × (view d' ≡ view d)
unfolding save load
load-save size_of cols block_size capacity blank rest d v wide few narrow =
    let total = length-view d v in
    let rows = flat (view d) in
    let saved : save_rows d (r d) 0 ≡ some rows =
      save_rows-view d (r d) 0 v (omega arith)
      ∙ ap (λ xs. some (flat xs)) (take-all (view d) (r d) total) in
    let (valid, same, _, _) = initialize-view blank block_size capacity (view d) in
    (
      write_uint 4 (r d) ++ (write_uint 4 cols ++ rows),
      initialize blank (length (view d)) block_size capacity (some (view d)),
      rw saved refl,
      rw
          (
            append_assoc (write_uint 4 (r d)) (write_uint 4 cols ++ rows) rest,
            append_assoc (write_uint 4 cols) rows rest,
            read_uint-write_uint 4 (r d) (write_uint 4 cols ++ (rows ++ rest)) (omega (arith, few)),
            ◌>>=◌,
            read_uint-write_uint 4 cols (rows ++ rest) (omega (arith, narrow)),
            sym total,
            load_rows-flat (size_of * cols) (view d) rest wide,
          )
          refl,
      valid,
      same,
    )
