-- ===== src/BlockPool/Load.antt =====
-- Checkpoint and LoadBlockPool of AnnService/inc/Core/SPANN/ExtraFileController.h.
use mathlib.Core.List.{append_assoc, append-nil}
use sptag.Base.{
  ℕ, ◌+◌, ◌^◌, ◌≤◌, ◌<◌, ◌≡◌, refl, ap, sym, ◌∙◌, List, [], ◌∷◌, ◌++◌, Option, some, length, ltb,
  arith, subst,
}
use sptag.Labels.{count, count-append, one_if}
use sptag.Labels.LabelSet.{InvalidIdBehavior, initialize}
use sptag.Labels.LabelSet.Members.{initialize-IsValid, initialize-room, member-initialize}
use sptag.BlockPool.{BlockController, checkpoint, pool_file, new_pool, load_addresses, load_pool}
use sptag.BlockPool.Pool.{IsPool, insert-Freed, lose-IsPool}
use sptag.BlockPool.Valid.{IsValid, lose-IsValid, PoolOf}
use sptag.BlockPool.Expand.{add_blocks-Grown}

-- a controller without blocks and the settings of its options
pub record IsFresh (c : BlockController) (capacity : ℕ) : Type 0 where
  pub queue : c.block_addresses ≡ []
  pub reserve : c.block_addresses_reserve ≡ []
  pub room : c.max_blocks ≤ capacity
  pub few : capacity < 2 ^ 31

-- the addresses of the file are taken into the queue
pub record Loaded (file : List ℕ) (c : BlockController) (held : ℕ → ℕ)
    (out : Option BlockController) : Type 0 where
  pub after : BlockController
  pub ran : out ≡ some after
  pub valid : IsValid after held
  pub queue : after.block_addresses ≡ c.block_addresses ++ file
  pub total : after.total_allocated_blocks ≡ c.total_allocated_blocks
  pub flag : after.disable_checkpoint ≡ c.disable_checkpoint

load_addresses-Loaded :
    (file : List ℕ) (c : BlockController) (held : ℕ → ℕ)
    → IsValid c (λ x. held x + count x file)
    → Loaded file c held (load_addresses (length file) file c)
unfolding load_addresses count
load_addresses-Loaded [] c held v = record {
  after = c;
  ran = refl;
  valid = lose-IsValid v (λ b. omega arith);
  queue = sym (append-nil c.block_addresses);
  total = refl;
  flag = refl;
}
load_addresses-Loaded (b ∷ file) c held v =
    let p = v.pool in
    let total = c.total_allocated_blocks in
    let inside : b < total = ground (arith, p.once b) in
    let freed =
      insert-Freed c.block_addresses c.block_addresses_reserve c.available total total b
        {held = λ x. held x + count x file} (lose-IsPool _ _ _ _ _ p (λ x. omega arith)) inside in
    let shape = freed.shape in
    let next = record c {
      block_addresses = c.block_addresses ++ b ∷ [];
      available = freed.after;
    } in
    let one : IsValid next (λ x. held x + count x file) = record {
      pool = freed.queued;
      room = rw shape.capacity v.room;
      few = rw shape.capacity v.few;
    } in
    let rest = load_addresses-Loaded file next held one in
    rw freed.ran (record {
      after = rest.after;
      ran = rest.ran;
      valid = rest.valid;
      queue = rest.queue ∙ append_assoc c.block_addresses (b ∷ []) file;
      total = rest.total;
      flag = rest.flag;
    })

empty-IsPool :
    (capacity top size : ℕ) (held : ℕ → ℕ)
    → size < 2 ^ 31
    → ((b : ℕ) → held b ≤ one_if (ltb b top))
    → IsPool [] [] (initialize size capacity InvalidIdBehavior.passthrough) top size held
unfolding count
empty-IsPool capacity top size held small once = record {
  once = λ b. omega (arith, once b);
  marked = λ b. member-initialize size capacity InvalidIdBehavior.passthrough b;
  labels = initialize-IsValid size capacity InvalidIdBehavior.passthrough small;
  cells = (initialize-room size capacity InvalidIdBehavior.passthrough).0;
}

-- Checkpoint of a valid pool.
pub checkpoint-IsValid :
    (c : BlockController) (in_use : ℕ → ℕ) → IsValid c in_use → IsValid (checkpoint c) in_use
unfolding checkpoint count
checkpoint-IsValid c in_use v =
    let p = v.pool in
    let both = λ (b : ℕ). count-append b c.block_addresses c.block_addresses_reserve in
    record {
      pool = record {
        once = λ b. omega (arith, p.once b, both b);
        marked = λ b. p.marked b ∙ ap (ltb 0) (omega (arith, both b));
        labels = p.labels;
        cells = p.cells;
      };
      room = v.room;
      few = v.few;
    }

pub checkpoint-flag :
    (c : BlockController) → (checkpoint c).disable_checkpoint ≡ c.disable_checkpoint
unfolding checkpoint
checkpoint-flag c = refl

-- A checkpoint is loaded again.
pub load_pool-checkpoint :
    (c d : BlockController) (capacity : ℕ) (held : ℕ → ℕ)
    → IsValid d held
    → IsFresh c capacity
    → Loaded
        (d.block_addresses ++ d.block_addresses_reserve)
        (record c { total_allocated_blocks = d.total_allocated_blocks })
        held
        (load_pool c (pool_file (checkpoint d)) capacity)
unfolding load_pool pool_file checkpoint
load_pool-checkpoint c d capacity held v fresh =
    let p = v.pool in
    let labels = p.labels in
    let (size, wide) =
      initialize-room d.total_allocated_blocks capacity InvalidIdBehavior.passthrough in
    let room = fresh.room in
    let few = fresh.few in
    let file : List ℕ = d.block_addresses ++ d.block_addresses_reserve in
    let total = d.total_allocated_blocks in
    let start : BlockController = record c {
      available = initialize total capacity InvalidIdBehavior.passthrough;
      total_allocated_blocks = total;
    } in
    let pool : IsPool [] [] start.available total total (λ b. held b + count b file) =
      empty-IsPool capacity total total (λ b. held b + count b file)
        (omega (arith, p.cells, labels.fits))
        (λ b.
          omega (arith, p.once b, count-append b d.block_addresses d.block_addresses_reserve)) in
    let valid : IsValid start (λ b. held b + count b file) = record {
      pool = rw (fresh.queue, fresh.reserve) pool;
      room = omega (arith, wide, room);
      few = omega (arith, wide, few);
    } in
    let loaded = load_addresses-Loaded file start held valid in
    record {
      after = loaded.after;
      ran = loaded.ran;
      valid = loaded.valid;
      queue = loaded.queue;
      total = loaded.total;
      flag = loaded.flag;
    }

-- A new pool.
pub new_pool-Loaded :
    (c : BlockController) (start_num_blocks capacity : ℕ)
    → IsFresh c capacity
    → start_num_blocks < 2 ^ 31
    → (d : BlockController) × (new_pool c start_num_blocks capacity ≡ some d)
      × IsValid d (λ b. 0)
      × (d.total_allocated_blocks ≡ start_num_blocks)
unfolding new_pool
new_pool-Loaded c start_num_blocks capacity fresh small =
    let (size, wide) = initialize-room start_num_blocks capacity InvalidIdBehavior.passthrough in
    let room = fresh.room in
    let few = fresh.few in
    let start : BlockController = record c {
      available = initialize start_num_blocks capacity InvalidIdBehavior.passthrough;
      total_allocated_blocks = start_num_blocks;
    } in
    let pool = empty-IsPool capacity 0 start_num_blocks (λ b. 0) small (λ b. omega arith) in
    let grown =
      add_blocks-Grown start_num_blocks 0 start_num_blocks start (λ b. 0)
        (rw (fresh.queue, fresh.reserve) pool) (omega arith) in
    let rest = grown.rest in
    let width = rest.capacity in
    let limit = rest.limit in
    let top : 0 + start_num_blocks ≡ grown.after.total_allocated_blocks =
      omega (arith, grown.total) in
    let all : start_num_blocks ≡ grown.after.total_allocated_blocks = sym grown.total in
    (
      grown.after,
      grown.ran,
      record {
        pool =
            subst (λ x. PoolOf grown.after x grown.after.total_allocated_blocks (λ b. 0)) top
              (subst (λ x. PoolOf grown.after (0 + start_num_blocks) x (λ b. 0)) all grown.pool);
        room = omega (arith, width, limit, wide, room);
        few = omega (arith, width, wide, few);
      },
      grown.total,
    )
