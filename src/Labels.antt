-- ===== src/Labels.antt =====
-- AnnService/inc/Core/Common/Dataset.h as LabelSet.h and VersionLabel.h use it:
-- one column of cells, its first block and the blocks added since taken as one sequence. `none` is
-- an index that names no row.
pub mod LabelSet
pub mod VersionLabel
mod Tests
use sptag.Base.{
  ℕ, zero, suc, ◌+◌, ◌-◌, ◌*◌, ◌^◌, ◌%◌, ◌<◌, ◌≤◌, ◌≡◌, refl, ap, ◌∙◌, sym, Bool, true, false, List,
  [], ◌∷◌, ◌++◌, Option, none, some, arith, ltb, leb, ◌==◌, if◌then◌else◌, get_elem?, set, length,
  replicate, length-append, length-replicate, length-set, ◌>>=◌,
}
use sptag.Base.Int.{ℤ, pos, negsuc}

pub record Column : Type 0 where
  pub cells : List ℕ
  pub max_rows : ℕ

-- `memset` fills new cells with -1
abbrev pub unset : ℕ
unset = 0xff

-- `Initialize` without data
unfoldable pub column : ℕ → ℕ → Column
column rows capacity = record { cells = replicate rows unset; max_rows = capacity }

-- `R`
abbrev pub rows : Column → ℕ
rows c = length c.cells

-- `key >= R()`
unfoldable pub past_end : Column → ℤ → Bool
past_end c (pos k) = leb (rows c) k
past_end c (negsuc k) = false

-- `key < 0`
pub below_zero : ℤ → Bool
below_zero (pos k) = false
below_zero (negsuc k) = true

unfoldable pub at : Column → ℤ → Option ℕ
at c (pos k) = get_elem? c.cells k
at c (negsuc k) = none

-- a write to the cell that `At` has found
unfoldable pub put : Column → ℤ → ℕ → Column
put c (pos k) v = record c { cells = set c.cells k v }
put c (negsuc k) v = c

pub data ErrorCode : Type 0 where
  success : ErrorCode
  memory_over_flow : ErrorCode
  fail : ErrorCode
  disk_io_fail : ErrorCode
  key_over_flow : ErrorCode
  key_not_found : ErrorCode
  posting_over_flow : ErrorCode
  posting_size_error : ErrorCode
  block_id_error : ErrorCode

-- `AddBatch` without data
pub add_batch : Column → ℕ → ErrorCode × Column
add_batch c num =
    if ltb c.max_rows (rows c + num)
    then (memory_over_flow, c)
    else (success, record c { cells = c.cells ++ replicate num unset })

abbrev pub one_if : Bool → ℕ
one_if b = if b then 1 else 0

-- the number of cells that hold `v`
unfoldable pub count : ℕ → List ℕ → ℕ
count v [] = 0
count v (x ∷ xs) = one_if (x == v) + count v xs

pub count-set :
    (v w : ℕ) (xs : List ℕ) (i old : ℕ)
    → get_elem? xs i ≡ some old
    → count v (set xs i w) + one_if (old == v) ≡ count v xs + one_if (w == v)
unfolding count
count-set v w [] i old h = absurd (ground arith)
count-set v w (x ∷ xs) zero old h = let e : x ≡ old = grind arith in rw e (omega arith)
count-set v w (x ∷ xs) (suc i) old h = omega (arith, count-set v w xs i old h)

pub count-bound : (v : ℕ) (xs : List ℕ) → count v xs ≤ length xs
unfolding count
count-bound v [] = omega arith
count-bound v (x ∷ xs) = ground (arith, count-bound v xs)

pub count-append : (v : ℕ) (xs ys : List ℕ) → count v (xs ++ ys) ≡ count v xs + count v ys
unfolding count
count-append v [] ys = omega arith
count-append v (x ∷ xs) ys = omega (arith, count-append v xs ys)

pub count-replicate : (v w n : ℕ) → (w == v) ≡ false → count v (replicate n w) ≡ 0
unfolding count
count-replicate v w zero h = refl
count-replicate v w (suc n) h = rw h (omega (arith, count-replicate v w n h))

abbrev pub holds : ℕ → Option ℕ → Bool
holds v (some x) = x == v
holds v none = false

-- new rows hold -1
pub holds-append :
    (v : ℕ) (xs : List ℕ) (n k : ℕ)
    → (unset == v) ≡ false
    → holds v (get_elem? (xs ++ replicate n unset) k) ≡ holds v (get_elem? xs k)
holds-append v [] zero k h = refl
holds-append v [] (suc n) zero h = h
holds-append v [] (suc n) (suc k) h = holds-append v [] n k h
holds-append v (x ∷ xs) n zero h = refl
holds-append v (x ∷ xs) n (suc k) h = holds-append v xs n k h
