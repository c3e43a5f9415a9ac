-- ===== src/FileIo/Recovery.antt =====
-- What is loaded from a checkpoint of AnnService/inc/Core/SPANN/ExtraFileController.h when calls have changed
-- the file of the postings since.
use sptag.Base.{
  ℕ, zero, suc, ◌≡◌, refl, ◌∙◌, inl, inr, true, false, List, [], ◌∷◌, some, get_elem?, arith,
  Option-cases,
}
use sptag.Base.Sums.{total}
use sptag.Wire.{Bytes}
use sptag.Labels.{ErrorCode}
use sptag.BlockPool.{BlockController, checkpoint, pool_file, load_pool}
use sptag.BlockPool.Valid as Blocks
use sptag.BlockPool.Load.{IsFresh, checkpoint-IsValid, checkpoint-flag, load_pool-checkpoint}
use sptag.FileIo.{Entry, unmapped, unwritten, posting, FileIo, reload_entry, reload, checkpoint_io}
use sptag.FileIo.Valid.{entry_blocks, held, entry_value, value_at, value_of, value-same, IsValid}
use sptag.FileIo.Effect.{Keeps}
use sptag.FileIo.Calls.{Call, calls, suffices, calls-Ran}

held-reload : (mapping : List Entry) (b : ℕ) → held (reload mapping) b ≡ held mapping b
unfolding held total reload reload_entry entry_blocks
held-reload [] b = refl
held-reload (unmapped ∷ mapping) b = omega (arith, held-reload mapping b)
held-reload (unwritten ∷ mapping) b = omega (arith, held-reload mapping b)
held-reload (posting size bs ∷ mapping) b = omega (arith, held-reload mapping b)

value-reload :
    (pages : ℕ → Bytes) (mapping : List Entry) (k : ℕ)
    → value_at pages (get_elem? (reload mapping) k) ≡ value_at pages (get_elem? mapping k)
unfolding value_at entry_value reload reload_entry
value-reload pages [] k = refl
value-reload pages (unmapped ∷ mapping) zero = refl
value-reload pages (unwritten ∷ mapping) zero = refl
value-reload pages (posting size bs ∷ mapping) zero = refl
value-reload pages (e ∷ mapping) (suc k) = value-reload pages mapping k

-- The blocks of the checkpoint stay as they are.
kept-values :
    (io after : FileIo)
    → IsValid io
    → io.controller.disable_checkpoint ≡ false
    → Keeps io after
    → (k : ℕ) → value_at after.pages (get_elem? io.mapping k) ≡ value_of io k
unfolding value_of value_at
kept-values io after v later keeps k = elim (Option-cases (get_elem? io.mapping k)) [
  | inl past ↦ rw past refl
  | inr (e, found) ↦
      let pool = v.pool in
      let p = pool.pool in
      rw found (
        value-same io.pages after.pages io.mapping k e
          (λ b more.
            (keeps.safe later b (ground (arith, p.once b, more))
              (ground (arith, p.once b, more))).0)
          found)
]

-- After a checkpoint of a valid posting file with checkpoints on and a request for each block of
-- a posting, and any calls of Put, Merge and Delete that change the file of the postings, the
-- mapping and the pool of the checkpoint can be loaded: no block of the mapping is free in that
-- pool, and each key has the value that it had at the checkpoint.
pub load-recovers :
    (io : FileIo) (cs : List Call) (c : BlockController) (capacity : ℕ)
    → IsValid io
    → io.controller.disable_checkpoint ≡ false
    → suffices io.block_limit cs ≡ true
    → IsFresh c capacity
    → (codes : List ErrorCode) × (after : FileIo) × (d : BlockController) × (calls cs
          (checkpoint_io io)
        ≡ some (codes, after))
      × (load_pool c (pool_file (checkpoint io.controller)) capacity ≡ some d)
      × Blocks.IsValid d (held (reload io.mapping))
      × ((k : ℕ)
          → value_of (record after { mapping = reload io.mapping; controller = d }) k
            ≡ value_of io k)
unfolding value_of checkpoint_io
load-recovers io cs c capacity v later enough fresh =
    let start : IsValid (checkpoint_io io) = record {
      pool = checkpoint-IsValid io.controller (held io.mapping) v.pool;
      entries = v.entries;
      spare = v.spare;
      limit = v.limit;
    } in
    let run = calls-Ran cs (checkpoint_io io) start enough in
    let loaded = load_pool-checkpoint c io.controller capacity (held io.mapping) v.pool fresh in
    (
      run.codes,
      run.after,
      loaded.after,
      run.ran,
      loaded.ran,
      Blocks.lose-IsValid loaded.valid (λ b. omega (arith, held-reload io.mapping b)),
      (λ k.
          value-reload run.after.pages io.mapping k
          ∙ kept-values (checkpoint_io io) run.after start (checkpoint-flag io.controller ∙ later)
              run.keeps k),
    )
