-- ===== src/Dataset/Tests.antt =====
-- Three rows, and three more in blocks of two.
use sptag.Base.{ℕ, List, ◌++◌, ◌≡◌, refl, Bool, true, false, [], ◌∷◌, some, arith}
use sptag.Dataset.File.{save, load}
use sptag.Dataset.File.RoundTrip.{load-save}
use sptag.Base.Sums.{every}
use sptag.Labels.{success, memory_over_flow}
use sptag.Dataset.{
  Dataset, at, r, block_size, overwrite, copy_rows, grow, update_block, write_block, add_loop,
  add_batch, initialize, ceil_log2, ceil_log2_from,
}
use sptag.Dataset.Address.{IsValid, view, at-view, flat, has_size}
use sptag.Dataset.Batch.{Added, add_batch-Added}

abbrev memory : ℕ → Bool
memory n = true

abbrev no_memory : ℕ → Bool
no_memory n = false

abbrev three_rows : Dataset ℕ
three_rows = record {
  rows = 3;
  data_ = 10 ∷ 11 ∷ 12 ∷ [];
  inc_rows = 1;
  max_rows = 10;
  rows_in_block_ex = 1;
  inc_blocks = (13 ∷ 255 ∷ []) ∷ [];
  col_start = 0;
}

abbrev six_rows : Dataset ℕ
six_rows = record three_rows { inc_rows = 4; inc_blocks = (13 ∷ 20 ∷ []) ∷ (21 ∷ 22 ∷ []) ∷ [] }

started :
    initialize 255 3 2 10 (some (10 ∷ 11 ∷ 12 ∷ []))
    ≡ record three_rows { inc_rows = 0; inc_blocks = [] }
unfolding initialize ceil_log2 ceil_log2_from
started = refl

three_rows-IsValid : IsValid three_rows
unfolding block_size has_size every
three_rows-IsValid = record { owned = omega arith; sizes = refl; inside = omega arith }

add_batch-Added_example : Added memory 255 three_rows (20 ∷ 21 ∷ 22 ∷ []) (some (success, six_rows))
unfolding add_batch r add_loop grow write_block update_block copy_rows overwrite block_size
add_batch-Added_example =
    add_batch-Added memory 255 three_rows (20 ∷ 21 ∷ 22 ∷ []) three_rows-IsValid refl

-- the row that fits in the last block is written, but is no row of the dataset
failing :
    add_batch no_memory 255 three_rows 2 (some (20 ∷ 21 ∷ []))
    ≡ some (memory_over_flow, record three_rows { inc_blocks = (13 ∷ 20 ∷ []) ∷ [] })
unfolding add_batch r add_loop grow write_block update_block copy_rows overwrite block_size
failing = refl

at-view_example : at three_rows 3 ≡ some 13
unfolding view flat r
at-view_example = at-view three_rows 3 three_rows-IsValid (omega arith)

-- rows of two columns of one byte
abbrev pairs : Dataset (List ℕ)
pairs = record {
  rows = 2;
  data_ = (1 ∷ 2 ∷ []) ∷ (3 ∷ 4 ∷ []) ∷ [];
  inc_rows = 1;
  max_rows = 10;
  rows_in_block_ex = 1;
  inc_blocks = ((5 ∷ 6 ∷ []) ∷ (255 ∷ 255 ∷ []) ∷ []) ∷ [];
  col_start = 0;
}

pairs-IsValid : IsValid pairs
unfolding block_size has_size every
pairs-IsValid = record { owned = omega arith; sizes = refl; inside = omega arith }

load-save_example :
    (bs : List ℕ) × (d' : Dataset (List ℕ)) × (save pairs 2 ≡ some bs)
    × (load 1 (255 ∷ 255 ∷ []) 4 10 (bs ++ 7 ∷ []) ≡ some ((2, d'), 7 ∷ []))
    × IsValid d'
    × (view d' ≡ view pairs)
unfolding view flat every has_size r
load-save_example =
    load-save 1 2 4 10 (255 ∷ 255 ∷ []) (7 ∷ []) pairs pairs-IsValid refl (omega arith)
      (omega arith)
