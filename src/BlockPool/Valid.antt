-- ===== src/BlockPool/Valid.antt =====
-- When FileIO::BlockController of AnnService/inc/Core/SPANN/ExtraFileController.h is well formed.
use sptag.Base.{List, refl, ◌∙◌, ℕ, ◌+◌, ◌^◌, ◌≤◌, ◌<◌, max, ◌≡◌, true, ◌||◌, length, leb}
use sptag.Labels.LabelSet.{LabelSet}
use sptag.BlockPool.{Device, BlockController}
use sptag.BlockPool.Pool.{IsPool, lose-IsPool}

abbrev pub PoolOf : BlockController → ℕ → ℕ → (ℕ → ℕ) → Type 0
PoolOf c = IsPool c.block_addresses c.block_addresses_reserve c.available

-- `held` counts the blocks that are in use
pub record IsValid (c : BlockController) (held : ℕ → ℕ) : Type 0 where
  pub pool : PoolOf c c.total_allocated_blocks c.total_allocated_blocks held
  pub room : c.max_blocks ≤ c.available.data_.max_rows
  pub few : c.available.data_.max_rows < 2 ^ 31

-- The file can grow, and there are `n` free blocks, or it may grow by as many.
pub record EnoughBlocks (device : Device) (c : BlockController) (n : ℕ) : Type 0 where
  pub expands : (m : ℕ) → device.expands m ≡ true
  pub room :
      (leb n (length c.block_addresses)
        || leb (c.total_allocated_blocks + max c.growth_blocks n) c.max_blocks)
      ≡ true

-- what the calls leave as it is
pub record SameRest (c d : BlockController) : Type 0 where
  pub limit : d.max_blocks ≡ c.max_blocks
  pub flag : d.disable_checkpoint ≡ c.disable_checkpoint
  pub capacity : d.available.data_.max_rows ≡ c.available.data_.max_rows
  pub reserve : d.block_addresses_reserve ≡ c.block_addresses_reserve

pub same-SameRest : (c : BlockController) → SameRest c c
same-SameRest c = record { limit = refl; flag = refl; capacity = refl; reserve = refl }

pub chain-SameRest : {c d e : BlockController} → SameRest c d → SameRest d e → SameRest c e
chain-SameRest one two = record {
  limit = two.limit ∙ one.limit;
  flag = two.flag ∙ one.flag;
  capacity = two.capacity ∙ one.capacity;
  reserve = two.reserve ∙ one.reserve;
}

-- a queue and labels for as many blocks
pub queue-SameRest :
    (c : BlockController) (queue : List ℕ) (available : LabelSet)
    → available.data_.max_rows ≡ c.available.data_.max_rows
    → SameRest c (record c { block_addresses = queue; available = available })
queue-SameRest c queue available capacity = record {
  limit = refl;
  flag = refl;
  capacity = capacity;
  reserve = refl;
}

pub lose-IsValid :
    {c : BlockController} {held held' : ℕ → ℕ}
    → IsValid c held
    → ((b : ℕ) → held' b ≤ held b)
    → IsValid c held'
lose-IsValid v le = record { pool = lose-IsPool _ _ _ _ _ v.pool le; room = v.room; few = v.few }
