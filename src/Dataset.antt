-- ===== src/Dataset.antt =====
-- AnnService/inc/Core/Common/Dataset.h: the rows of an index, the first ones in one block and the rows
-- added since in blocks of 2 ^ `rows_in_block_ex`. A row is one element.
pub mod Overwrite
pub mod Address
pub mod Append
pub mod Batch
pub mod Rows
pub mod File
mod Tests
use sptag.Base.{
  ℕ, zero, suc, ◌+◌, ◌-◌, ◌*◌, ◌/◌, ◌%◌, ◌^◌, min, Bool, true, false, not, List, [], ◌∷◌, ◌++◌,
  Option, none, some, length, replicate, get_elem?, set, take, drop, ltb, leb, ◌==◌, if◌then◌else◌,
  ◌>>=◌,
}
use sptag.Labels.{ErrorCode, success, memory_over_flow}

pub record Dataset {ℓ} (A : Type ℓ) : Type ℓ where
  pub rows : ℕ
  pub data_ : List A
  pub inc_rows : ℕ
  pub max_rows : ℕ
  pub rows_in_block_ex : ℕ
  pub inc_blocks : List (List A)
  pub col_start : ℕ

-- `ceil(log2(n))`: the first exponent from `k` on whose power is not below `n`
pub ceil_log2_from : ℕ → ℕ → ℕ → ℕ
ceil_log2_from zero k n = k
ceil_log2_from (suc fuel) k n =
    let rest = ceil_log2_from fuel (suc k) n in if leb n (2 ^ k) then k else rest

pub ceil_log2 : ℕ → ℕ
ceil_log2 n = ceil_log2_from n 0 n

module _ {ℓ} {A : Type ℓ} where
  -- `Initialize` of all the columns, with the rows that are there or with rows `blank`
  pub initialize : A → ℕ → ℕ → ℕ → Option (List A) → Dataset A
  initialize blank rows rows_in_block capacity source = record {
    rows = rows;
    data_ = (elim source [ none ↦ replicate rows blank | some data_ ↦ data_ ]);
    inc_rows = 0;
    max_rows = capacity;
    rows_in_block_ex = ceil_log2 rows_in_block;
    inc_blocks = [];
    col_start = 0;
  }

  pub set_r : Dataset A → ℕ → Dataset A
  set_r d n =
      if leb d.rows n
      then record d { inc_rows = n - d.rows }
      else record d { rows = n; inc_rows = 0 }

  pub r : Dataset A → ℕ
  r d = d.rows + d.inc_rows

  -- `rowsInBlock + 1`; a shift by `rowsInBlockEx` divides by it, and `& rowsInBlock` takes the remainder
  pub block_size : Dataset A → ℕ
  block_size d = 2 ^ d.rows_in_block_ex

  pub at : Dataset A → ℕ → Option A
  at d index =
      let inc_index = index - d.rows in
      if ltb index d.rows
      then get_elem? d.data_ index
      else (get_elem? d.inc_blocks (inc_index / block_size d) >>= λ b.
          get_elem? b (inc_index % block_size d))

  -- `memcpy` of rows to a place
  pub overwrite : List A → ℕ → List A → List A
  overwrite [] n ys = []
  overwrite (x ∷ xs) (suc n) ys = x ∷ overwrite xs n ys
  overwrite (x ∷ xs) zero [] = x ∷ xs
  overwrite (x ∷ xs) zero (y ∷ ys) = y ∷ overwrite xs zero ys

  pub copy_rows : Option (List A) → ℕ → ℕ → ℕ → List A → List A
  copy_rows none written to_write pos block = block
  copy_rows (some source) written to_write pos block =
      overwrite block pos (take to_write (drop written source))

  -- a new block of rows `blank`, where there is memory
  pub grow : (ℕ → Bool) → A → ℕ → ℕ → List (List A) → Option (List (List A))
  grow alloc blank size idx blocks =
      if leb (length blocks) idx
      then (if alloc (length blocks) then some (blocks ++ replicate size blank ∷ []) else none)
      else some blocks

  pub update_block : List (List A) → ℕ → (List A → List A) → List (List A)
  update_block [] idx f = []
  update_block (b ∷ blocks) zero f = f b ∷ blocks
  update_block (b ∷ blocks) (suc idx) f = b ∷ update_block blocks idx f

  -- `none` where there is no such block
  pub write_block : List (List A) → ℕ → (List A → List A) → Option (List (List A))
  write_block blocks idx f =
      if leb (length blocks) idx then none else some (update_block blocks idx f)

  -- the loop of `AddBatch`, with the blocks where it ends, and whether it has written all
  pub add_loop :
      (ℕ → Bool)
      → A
      → ℕ
      → ℕ
      → ℕ
      → Option (List A)
      → ℕ
      → ℕ
      → List (List A)
      → Option (Bool × List (List A))
  add_loop alloc blank size inc num source zero written blocks =
      if ltb written num then none else some (true, blocks)
  add_loop alloc blank size inc num source (suc fuel) written blocks =
      let idx = (inc + written) / size in
      let pos = (inc + written) % size in
      let to_write = min (size - pos) (num - written) in
      if ltb written num
      then (elim (grow alloc blank size idx blocks) [
        | none ↦ some (false, blocks)
        | some grown ↦ elim (write_block grown idx (copy_rows source written to_write pos)) [
          | none ↦ none
          | some wrote ↦ add_loop alloc blank size inc num source fuel (written + to_write) wrote
        ]
      ])
      else some (true, blocks)

  pub add_batch : (ℕ → Bool) → A → Dataset A → ℕ → Option (List A) → Option (ErrorCode × Dataset A)
  add_batch alloc blank d num source =
      if not (d.col_start == 0)
      then some (success, d)
      else if ltb d.max_rows (r d + num)
      then some (memory_over_flow, d)
      else (add_loop alloc blank (block_size d) d.inc_rows num source num 0 d.inc_blocks
          >>= λ (done, blocks). some (
              if done
              then (success, record d { inc_blocks = blocks; inc_rows = d.inc_rows + num })
              else (memory_over_flow, record d { inc_blocks = blocks })))
