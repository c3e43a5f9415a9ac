-- ===== src/BlockPool.antt =====
-- AnnService/inc/Core/SPANN/ExtraFileController.h and AnnService/src/Core/SPANN/ExtraFileController.cpp,
-- FileIO::BlockController: the blocks of the postings file that are free. `none` is a label outside the
-- set of free blocks.
pub mod Pool
pub mod Valid
pub mod Take
pub mod Expand
pub mod Release
pub mod Load
pub mod Sample
mod Tests
use sptag.Base.{
  ℕ, zero, suc, ◌+◌, ◌-◌, ◌*◌, max, min, Bool, true, false, not, ◌||◌, ◌&&◌, List, [], ◌∷◌, ◌++◌,
  Option, none, some, length, ltb, leb, if◌then◌else◌, ◌>>=◌,
}
use sptag.Base.Int.{pos}
use sptag.Labels.LabelSet.{LabelSet, InvalidIdBehavior, initialize, insert, reset, add_rows}

abbrev pub page_size : ℕ
page_size = 4096

-- What the device does in one call: whether the file grows by so many bytes, and which requests of a
-- batch complete; `stale` is what the buffer of a request holds behind the bytes to write. `low` is the test of the ratio of free blocks against `m_growthThreshold`, and `requests`
-- the size of `reqs`.
pub record Device : Type 0 where
  pub low : ℕ → ℕ → Bool
  pub expands : ℕ → Bool
  pub reads : ℕ → Bool
  pub writes : ℕ → Bool
  pub stale : ℕ → List ℕ
  pub requests : ℕ

pub record BlockController : Type 0 where
  pub block_addresses : List ℕ
  pub block_addresses_reserve : List ℕ
  pub available : LabelSet
  pub growth_blocks : ℕ
  pub max_blocks : ℕ
  pub total_allocated_blocks : ℕ
  pub disable_checkpoint : Bool

unfoldable pub needs_expansion : Device → BlockController → ℕ → Bool
needs_expansion device c n =
    ltb (length c.block_addresses) n
    || device.low (length c.block_addresses) c.total_allocated_blocks

-- the loop of `ExpandFile`: `n` free blocks from `address` on
pub add_blocks : ℕ → ℕ → BlockController → Option BlockController
add_blocks zero address c = some c
add_blocks (suc n) address c = do
  (_, s) ← insert c.available (pos address)
  add_blocks n (suc address)
      (record c { block_addresses = c.block_addresses ++ address ∷ []; available = s })

pub expand_file : Device → BlockController → ℕ → Option (Bool × BlockController)
expand_file device c blocks_to_add =
    let total = c.total_allocated_blocks in
    let allowed = min blocks_to_add (c.max_blocks - total) in
    if not (device.expands (allowed * page_size))
    then some (false, c)
    else (add_blocks allowed total (record c { available = (add_rows c.available allowed).1 })
        >>= λ d. some (true, record d { total_allocated_blocks = total + allowed }))

-- `try_pop` of a queue
unfoldable pub try_pop {ℓ} : {A : Type ℓ} → List A → Option (A × List A)
try_pop [] = none
try_pop (x ∷ xs) = some (x, xs)

-- the loop of `GetBlocks`: the addresses that it has put into `p_data`
unfoldable pub take_blocks : ℕ → BlockController → Option (Bool × List ℕ × BlockController)
take_blocks zero c = some (true, [], c)
take_blocks (suc n) c = elim (try_pop c.block_addresses) [
  | none ↦ some (false, [], c)
  | some (b, rest) ↦ (do
    (_, s) ← reset c.available (pos b)
    (done, bs, d) ← take_blocks n (record c { block_addresses = rest; available = s })
    some (done, b ∷ bs, d))
]

unfoldable pub get_blocks : Device → BlockController → ℕ → Option (Bool × List ℕ × BlockController)
get_blocks device c n =
    let grow_by = max c.growth_blocks n in
    if needs_expansion device c n && leb (c.total_allocated_blocks + grow_by) c.max_blocks
    then (do
      (grown, d) ← expand_file device c grow_by
      if grown then take_blocks n d else some (false, [], d))
    else take_blocks n c

pub push_released : BlockController → ℕ → BlockController
push_released c b =
    if c.disable_checkpoint
    then record c { block_addresses = c.block_addresses ++ b ∷ [] }
    else record c { block_addresses_reserve = c.block_addresses_reserve ++ b ∷ [] }

unfoldable pub release_blocks : List ℕ → BlockController → Option BlockController
release_blocks [] c = some c
release_blocks (b ∷ bs) c = do
  (fresh, s) ← insert c.available (pos b)
  let d = record c { available = s }
  release_blocks bs (if fresh then push_released d b else d)

-- `Checkpoint`: the pool, and the numbers that it writes to the file
pub checkpoint : BlockController → BlockController
checkpoint c = record c {
  block_addresses = c.block_addresses ++ c.block_addresses_reserve;
  block_addresses_reserve = [];
}

pub pool_file : BlockController → List ℕ
pool_file c = length c.block_addresses ∷ c.total_allocated_blocks ∷ c.block_addresses

-- `LoadBlockPool` without a file, into a controller that holds no blocks
pub new_pool : BlockController → ℕ → ℕ → Option BlockController
new_pool c start_num_blocks block_capacity = add_blocks start_num_blocks 0 (record c {
  available = initialize start_num_blocks block_capacity InvalidIdBehavior.passthrough;
  total_allocated_blocks = start_num_blocks;
})

-- the loop of `LoadBlockPool` over the addresses of a file
pub load_addresses : ℕ → List ℕ → BlockController → Option BlockController
load_addresses zero file c = some c
load_addresses (suc n) [] c = none
load_addresses (suc n) (b ∷ file) c = do
  (fresh, s) ← insert c.available (pos b)
  let d = record c { available = s }
  load_addresses n file
      (if fresh then record d { block_addresses = c.block_addresses ++ b ∷ [] } else d)

-- `LoadBlockPool` from a file, `none` also where the file ends too soon
pub load_pool : BlockController → List ℕ → ℕ → Option BlockController
load_pool c (blocks ∷ total ∷ file) block_capacity = load_addresses blocks file (record c {
  available = initialize total block_capacity InvalidIdBehavior.passthrough;
  total_allocated_blocks = total;
})
load_pool c _ block_capacity = none
