-- ===== src/Dataset/File.antt =====
-- `Save` and `Load` of AnnService/inc/Core/Common/Dataset.h on the bytes of a file. A row is the bytes of
-- its columns, `size_of` bytes each; a number is 4 bytes, the lowest first.
pub mod RoundTrip
use sptag.Base.{
  ℕ, zero, suc, ◌+◌, ◌*◌, Bool, true, false, List, [], ◌∷◌, ◌++◌, Option, none, some, length, take,
  drop, ltb, if◌then◌else◌, ◌>>=◌,
}
use sptag.Wire.{Bytes, write_uint, read_uint}
use sptag.Dataset.{Dataset, at, r, initialize}

-- the loop of `Save`, with `n` rows left from row `i` on
pub save_rows : Dataset Bytes → ℕ → ℕ → Option Bytes
save_rows d zero i = some []
save_rows d (suc n) i = do row ← at d i; rest ← save_rows d n (suc i); some (row ++ rest)

pub save : Dataset Bytes → ℕ → Option Bytes
save d cols = do
  rows ← save_rows d (r d) 0
  some (write_uint 4 (r d) ++ (write_uint 4 cols ++ rows))

-- the loop of `Load`; `none` is `ErrorCode::DiskIOFail`
pub load_rows : ℕ → ℕ → Bytes → Option (List Bytes × Bytes)
load_rows width zero bs = some ([], bs)
load_rows width (suc n) bs =
    if ltb (length bs) width
    then none
    else (load_rows width n (drop width bs) >>= λ (rows, rest). some (take width bs ∷ rows, rest))

-- `Load` into a dataset without data, and the number of columns that it reads
pub load : ℕ → Bytes → ℕ → ℕ → Bytes → Option ((ℕ × Dataset Bytes) × Bytes)
load size_of blank block_size capacity bs = do
  (n, bs) ← read_uint 4 bs
  (cols, bs) ← read_uint 4 bs
  (rows, rest) ← load_rows (size_of * cols) n bs
  some ((cols, initialize blank n block_size capacity (some rows)), rest)
