-- ===== src/BlockPool/Sample.antt =====
-- A pool of four free blocks, for the runs of FileIO of AnnService/inc/Core/SPANN/ExtraFileController.h.
use mathlib.Core.Option.{some_inj}
use sptag.Base.{ℕ, ◌≡◌, refl, sym, ◌∙◌, true, false, List, [], ◌∷◌, some, arith, subst}
use sptag.Labels.{column, past_end, at, put}
use sptag.Labels.LabelSet.{LabelSet, InvalidIdBehavior, initialize, insert, invalid_id}
use sptag.BlockPool.{Device, BlockController, new_pool, add_blocks}
use sptag.BlockPool.Valid.{IsValid, EnoughBlocks}
use sptag.BlockPool.Load.{IsFresh, new_pool-Loaded}

-- a device on which everything succeeds
abbrev pub ready_device : Device
ready_device = record {
  low = λ free total. false;
  expands = λ bytes. true;
  reads = λ i. true;
  writes = λ i. true;
  stale = λ i. [];
  requests = 8;
}

abbrev pub labels : ℕ → List ℕ → LabelSet
labels inserted cells = record {
  inserted = inserted;
  data_ = record { cells = cells; max_rows = 8 };
  invalid_id_behavior = InvalidIdBehavior.passthrough;
}

abbrev pub controller : List ℕ → List ℕ → LabelSet → ℕ → BlockController
controller queue reserve available total = record {
  block_addresses = queue;
  block_addresses_reserve = reserve;
  available = available;
  growth_blocks = 2;
  max_blocks = 8;
  total_allocated_blocks = total;
  disable_checkpoint = false;
}

abbrev pub fresh : BlockController
fresh = controller [] [] (labels 0 []) 0

abbrev pub four_free : BlockController
four_free = controller (0 ∷ 1 ∷ 2 ∷ 3 ∷ []) [] (labels 4 (1 ∷ 1 ∷ 1 ∷ 1 ∷ [])) 4

pub fresh-IsFresh : IsFresh fresh 8
fresh-IsFresh = record { queue = refl; reserve = refl; room = omega arith; few = omega arith }

new_four : new_pool fresh 4 8 ≡ some four_free
unfolding new_pool add_blocks initialize column insert invalid_id past_end at put
new_four = refl

pub four_free-IsValid : IsValid four_free (λ b. 0)
four_free-IsValid =
    let (d, run, valid, total) = new_pool-Loaded fresh 4 8 fresh-IsFresh (omega arith) in
    subst (λ c. IsValid c (λ b. 0)) (some_inj.0 (sym run ∙ new_four)) valid

pub four_free-EnoughBlocks : EnoughBlocks ready_device four_free 1
four_free-EnoughBlocks = record { expands = λ m. refl; room = refl }
