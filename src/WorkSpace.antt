-- ===== src/WorkSpace.antt =====
-- AnnService/inc/Core/Common/WorkSpace.h: WorkSpace, what one search at a time works with. The
-- queues of the breadth first search of the tree are of the same class and not touched here.
pub mod Reset
mod Tests
use sptag.Base.{ℕ, ◌+◌, ◌*◌, ◌/◌, Bool, true, false, List, Option, none, some, ◌>>=◌, max}
use sptag.Pairs.{NodeDistPair, nearest_first}
use sptag.Heap
use sptag.Heap.{Heap}
use sptag.Visited
use sptag.Visited.{Visited}
use sptag.Worst
use sptag.Worst.{DistPriorityQueue}

pub record WorkSpace : Type 0 where
  pub node_check_status : Visited
  pub num_of_continuous_no_better_propagation : ℕ
  pub number_of_tree_checked_leaves : ℕ
  pub number_of_checked_leaves : ℕ
  pub max_check : ℕ
  pub relaxed_mono : Bool
  pub ng_queue : Heap NodeDistPair
  pub spt_queue : Heap NodeDistPair
  pub results : DistPriorityQueue

-- `junk` is what new memory holds
pub initialize : (ℕ → ℕ) → ℕ → ℕ → Option WorkSpace
initialize junk max_check hash_exp = do
  results ← Worst.resize junk (max_check / 16)
  some (record {
    node_check_status = Visited.init junk max_check hash_exp;
    spt_queue = Heap.resize (max_check * 10);
    ng_queue = Heap.resize (max_check * 30);
    results = results;
    num_of_continuous_no_better_propagation = 0;
    number_of_tree_checked_leaves = 0;
    number_of_checked_leaves = 0;
    max_check = max_check;
    relaxed_mono = false;
  })

-- the copy constructor
pub copy : (ℕ → ℕ) → WorkSpace → Option WorkSpace
copy junk other = initialize junk other.max_check other.node_check_status.exp

pub reset : (ℕ → ℕ) → WorkSpace → ℕ → ℕ → Option WorkSpace
reset junk w max_check result_num = do
  results ← Worst.clear junk w.results (max (max_check / 16) result_num)
  some (record {
    node_check_status = Visited.clear w.node_check_status;
    spt_queue = Heap.clear w.spt_queue (max_check * 10);
    ng_queue = Heap.clear w.ng_queue (max_check * 30);
    results = results;
    num_of_continuous_no_better_propagation = 0;
    number_of_tree_checked_leaves = 0;
    number_of_checked_leaves = 0;
    max_check = max_check;
    relaxed_mono = false;
  })

pub reset_result : (ℕ → ℕ) → WorkSpace → ℕ → ℕ → Option WorkSpace
reset_result junk w max_check result_num = do
  results ← Worst.clear junk w.results (max (max_check / 16) result_num)
  some (record w {
    results = results;
    num_of_continuous_no_better_propagation = 0;
    number_of_tree_checked_leaves = 0;
    number_of_checked_leaves = 0;
  })

pub check_and_set : ℕ → WorkSpace → ℕ → Option (Bool × WorkSpace)
check_and_set fuel w idx = do
  (seen, v) ← Visited.check_and_set fuel w.node_check_status idx
  some (seen, record w { node_check_status = v })
